-- ===== src/Git/Cache/Keys.antt =====
-- Which entry an operation of the cache reads, writes or drops (ancestry.rs, `AncestorCache`).
use ibis_assistant.Prelude.{
  ℕ, ◌+◌, ◌≡◌, ◌≢◌, ◌⊎◌, refl, false, none, some, [], ◌∷◌, ◌++◌, arith, leb, if◌then◌else◌, inl,
  inr, Bool-cases,
}
use ibis_assistant.Text.{Text, text_eq, text_eq_iff, text_eq_refl, is_empty}
use ibis_assistant.Text.Trim.{trim}
use ibis_assistant.Text.Split.{starts_with}
use ibis_assistant.Text.Split
use ibis_assistant.Text.Map.{lookup, lookup-insert, lookup-retain}
use ibis_assistant.Git.{
  AncestorSet, AncestorCache, ancestor_cache_ttl, cache_key, get, put, invalidate,
}

-- a path with no NUL in it, as every path of a file system is
abbrev pub IsPath : Text → Type 0
IsPath p = Split.contains 0 p ≡ false

one_differs : {a b c d : Text} → (a ≢ b) ⊎ (c ≢ d) → a ≡ b → c ≡ d → ⊥
one_differs (inl ne) same_repo same_oid = ne same_repo
one_differs (inr ne) same_repo same_oid = ne same_oid

key-injective :
    (a b x y : Text) → IsPath a → IsPath b → a ++ (0 ∷ x) ≡ b ++ (0 ∷ y) → (a ≡ b) × (x ≡ y)
key-injective [] [] x y ha hb e = ground arith
key-injective [] (d ∷ b) x y ha hb e = ground arith
key-injective (c ∷ a) [] x y ha hb e = ground arith
key-injective (c ∷ a) (d ∷ b) x y ha hb e = ground (arith, key-injective a b x y)

pub cache_key-injective :
    (r r' o o' : Text)
    → IsPath (trim r)
    → IsPath (trim r')
    → cache_key r o ≡ cache_key r' o'
    → (trim r ≡ trim r') × (trim o ≡ trim o')
unfolding cache_key
cache_key-injective r r' o o' h h' e = key-injective (trim r) (trim r') (trim o) (trim o') h h' e

-- Within the time to live a stored set is found again, and after it nothing is found.
get-put_self :
    (now now' : ℕ) (r o : Text) (set : AncestorSet) (entries : AncestorCache)
    → (get now' r o (put now r o set entries)).0
      ≡ (if leb now' (now + ancestor_cache_ttl) then some set else none)
unfolding get put
get-put_self now now' r o set entries = rw (lookup-insert, text_eq_refl) (ground arith)

pub keys-differ :
    (r r' o o' : Text)
    → IsPath (trim r)
    → IsPath (trim r')
    → (trim r ≢ trim r') ⊎ (trim o ≢ trim o')
    → text_eq (cache_key r o) (cache_key r' o') ≡ false
keys-differ r r' o o' h h' differ = elim (Bool-cases (text_eq (cache_key r o) (cache_key r' o'))) [
  | inl e ↦
      let (same_repo, same_oid) =
        cache_key-injective r r' o o' h h' ((text_eq_iff (cache_key r o) (cache_key r' o')).0 e) in
      absurd (one_differs differ same_repo same_oid)
  | inr e ↦ e
]

-- Storing a set changes nothing for another repository or another commit.
get-put_ne :
    (now now' : ℕ) (r r' o o' : Text) (set : AncestorSet) (entries : AncestorCache)
    → IsPath (trim r)
    → IsPath (trim r')
    → (trim r ≢ trim r') ⊎ (trim o ≢ trim o')
    → (get now' r' o' (put now r o set entries)).0 ≡ (get now' r' o' entries).0
unfolding get put
get-put_ne now now' r r' o o' set entries h h' differ =
    rw (lookup-insert, keys-differ r r' o o' h h' differ) (ground arith)

starts_with-key :
    (a b x : Text) → IsPath a → IsPath b → starts_with (a ++ 0 ∷ []) (b ++ (0 ∷ x)) ≡ text_eq b a
unfolding starts_with text_eq
starts_with-key [] [] x ha hb = refl
starts_with-key [] (d ∷ b) x ha hb = ground arith
starts_with-key (c ∷ a) [] x ha hb = ground arith
starts_with-key (c ∷ a) (d ∷ b) x ha hb = ground (arith, starts_with-key a b x)

-- Invalidating a repository drops all its entries and keeps those of every other repository.
lookup-invalidate :
    (r r' o : Text) (entries : AncestorCache)
    → IsPath (trim r)
    → IsPath (trim r')
    → is_empty (trim r) ≡ false
    → lookup (cache_key r' o) (invalidate r entries)
      ≡ (if text_eq (trim r') (trim r) then none else lookup (cache_key r' o) entries)
unfolding invalidate cache_key
lookup-invalidate r r' o entries h h' named =
    rw (named, lookup-retain, starts_with-key (trim r) (trim r') (trim o) h h') (ground arith)
