-- ===== src/Git/Cache/Exact.antt =====
-- The cache never changes an answer (ancestry.rs, `ancestor_set_for`).
use ibis_assistant.Prelude.{
  ℕ, ◌+◌, ◌≡◌, ◌≢◌, ◌⊎◌, refl, Bool, true, false, not, [], ◌∷◌, ◌++◌, ◌||◌, Option, none, some,
  List, arith, inl, inr, Bool-cases,
}
use ibis_assistant.Effect.{ok, err, ◌>>=◌}
use ibis_assistant.Text.{Text, text_eq, text_eq_iff, is_empty}
use ibis_assistant.Text.Trim.{trim}
use ibis_assistant.Text.Split.{starts_with}
use ibis_assistant.Text.Map.{lookup, lookup-insert, lookup-remove, lookup-retain}
use ibis_assistant.Git.{
  invalidate, Result, AncestorSet, CacheEntry, AncestorCache, ancestor_cache_ttl, Anchors, State,
  cache_key, get, put, cached, store, build, after_lookup, after_shallow, after_resolve,
  ancestor_set_for,
}
use ibis_assistant.Git.Cache.Keys.{IsPath, cache_key-injective}

-- a repository path and a commit as the cache is asked for them
pub record Key (repo_path oid : Text) : Type 0 where
  pub plain : trim repo_path ≡ repo_path
  pub path : IsPath repo_path
  pub full : trim oid ≡ oid

either : {A B : Type 0} → A ⊎ B → (B → A) → A
either (inl a) f = a
either (inr b) f = f b

-- the ancestors of each commit of each repository
module _ (history : Text → Text → List Text) where
  abbrev pub exact : Text → Text → AncestorSet
  exact repo_path oid = record { ref_oid = oid; oids = history repo_path oid }

  -- every entry holds the ancestors of its commit
  pub record IsExact (entries : AncestorCache) : Type 0 where
    pub at :
        (r o : Text) (e : CacheEntry)
        → Key r o
        → lookup (cache_key r o) entries ≡ some e
        → e.set ≡ exact r o

  get-kept :
      (now : ℕ) (r o k : Text) (entries : AncestorCache) (e : CacheEntry)
      → lookup k (get now r o entries).1 ≡ some e
      → lookup k entries ≡ some e
  unfolding get
  get-kept now r o k entries e h = ground (arith, lookup-remove (cache_key r o) k entries)

  get-found :
      (now : ℕ) (r o : Text) (entries : AncestorCache) (set : AncestorSet)
      → (get now r o entries).0 ≡ some set
      → (e : CacheEntry) × (lookup (cache_key r o) entries ≡ some e) × (e.set ≡ set)
  unfolding get
  get-found now r o entries set h = ground arith

  get-IsExact :
      (now : ℕ) (r o : Text) (entries : AncestorCache)
      → IsExact entries
      → IsExact (get now r o entries).1
  get-IsExact now r o entries v = record {
    at = λ r' o' e key found. v.at r' o' e key (get-kept now r o (cache_key r' o') entries e found);
  }

  put-at :
      (now : ℕ) (r o r' o' : Text) (entries : AncestorCache) (e : CacheEntry)
      → Key r o
      → Key r' o'
      → lookup (cache_key r' o') (put now r o (exact r o) entries) ≡ some e
      → (e.set ≡ exact r' o') ⊎ (lookup (cache_key r' o') entries ≡ some e)
  unfolding put
  put-at now r o r' o' entries e k k' found =
      elim (Bool-cases (text_eq (cache_key r o) (cache_key r' o'))) [
        | inl same ↦
            let (p, q) =
              cache_key-injective r r' o o' (rw k.plain k.path) (rw k'.plain k'.path)
                ((text_eq_iff _ _).0 same) in
            inl (
              ground (
                arith,
                lookup-insert (cache_key r o) (cache_key r' o')
                    (record { set = exact r o; expires = now + ancestor_cache_ttl }) entries,
              ))
        | inr differ ↦ inr (
            ground (
              arith,
              lookup-insert (cache_key r o) (cache_key r' o')
                  (record { set = exact r o; expires = now + ancestor_cache_ttl }) entries,
            ))
      ]

  put-IsExact :
      (now : ℕ) (r o : Text) (entries : AncestorCache)
      → Key r o
      → IsExact entries
      → IsExact (put now r o (exact r o) entries)
  put-IsExact now r o entries k v = record {
    at = λ r' o' e k' found. either (put-at now r o r' o' entries e k k' found) (v.at r' o' e k');
  }

  pub nothing-IsExact : IsExact []
  unfolding lookup
  nothing-IsExact = record { at = λ r o e key found. cc }

  pub invalidate-IsExact :
      (repo_path : Text) (entries : AncestorCache)
      → IsExact entries
      → IsExact (invalidate repo_path entries)
  unfolding invalidate
  invalidate-IsExact repo_path entries v = elim (Bool-cases (is_empty (trim repo_path))) [
    | inl e ↦ rw e nothing-IsExact
    | inr e ↦
        let kept : Text → Bool = λ key. not (starts_with (trim repo_path ++ 0 ∷ []) key) in
        rw e (record {
          at = λ r o e key found.
              v.at r o e key (ground (arith, lookup-retain kept (cache_key r o) entries));
        })
  ]

  module _ {S : Type 0} (anchors : Anchors S) where
    -- the ancestors of the commit that the ref resolves to, in a clone that is not known as shallow
    abbrev pub IsAnswer : Text → Text → S → AncestorSet → Type 0
    IsAnswer r reference s set =
        (oid : Text) × ((anchors.resolve_ref r reference s).0 ≡ ok oid)
        × ((anchors.is_shallow r (anchors.resolve_ref r reference s).1).0 ≢ ok true)
        × (set ≡ exact r oid)

  module _ {S : Type 0} (anchors : Anchors S)
      -- commits never change: whenever git lists the ancestors of a commit, it lists the same
      (immutable : (r o : Text) (s : S) (oids : List Text)
        → (anchors.list_ancestors r o s).0 ≡ ok oids
        → oids ≡ history r o)
      -- git resolves a ref to the bare name of a commit
      (bare : (r reference : Text) (s : S) (o : Text)
        → (anchors.resolve_ref r reference s).0 ≡ ok o
        → trim o ≡ o) where
    -- what a call that is answered for commit `o` leaves
    abbrev pub Answered : Text → Text → Result AncestorSet × State S → Type 0
    Answered r o (answer, (s, entries)) =
        IsExact entries × ((set : AncestorSet) → answer ≡ ok set → set ≡ exact r o)

    build-Answered :
        (r o : Text) (oids : Result (List Text)) (st : State S)
        → Key r o
        → ((l : List Text) → oids ≡ ok l → l ≡ history r o)
        → IsExact st.1
        → Answered r o (build anchors r o oids st)
    unfolding build store
    build-Answered r o (err e) st k same v = (v, λ set h. cc)
    build-Answered r o (ok l) st k same v =
        rw (same l refl) (put-IsExact (anchors.now st.0) r o st.1 k v, λ set h. cc)

    after_lookup-Answered :
        (r o : Text) (found : Option AncestorSet) (st : State S)
        → Key r o
        → ((set : AncestorSet) → found ≡ some set → set ≡ exact r o)
        → IsExact st.1
        → Answered r o (after_lookup anchors r o found st)
    unfolding after_lookup
    after_lookup-Answered r o (some set) st k same v = (v, λ set' h. cc (same set refl))
    after_lookup-Answered r o none (s, entries) k same v =
        build-Answered r o (anchors.list_ancestors r o s).0 _ k (λ l h. immutable r o s l h) v

    look_up-Answered :
        (r o : Text) (st : State S)
        → Key r o
        → IsExact st.1
        → Answered r o ((cached anchors r o >>= after_lookup anchors r o) st)
    unfolding cached
    look_up-Answered r o (s, entries) k v =
        after_lookup-Answered r o (get (anchors.now s) r o entries).0 _ k
          (λ set h.
            let (e, found, same) = get-found (anchors.now s) r o entries set h in
            cc (v.at r o e k found))
          (get-IsExact (anchors.now s) r o entries v)

    after_shallow-Answered :
        (r o : Text) (shallow : Result Bool) (st : State S)
        → Key r o
        → IsExact st.1
        → Answered r o (after_shallow anchors r o shallow st)
    unfolding after_shallow
    after_shallow-Answered r o (ok true) st k v = (v, λ set h. cc)
    after_shallow-Answered r o (ok false) st k v = look_up-Answered r o st k v
    after_shallow-Answered r o (err e) st k v = look_up-Answered r o st k v

    after_shallow-fails :
        (r o : Text) (shallow : Result Bool) (st : State S) (set : AncestorSet)
        → (after_shallow anchors r o shallow st).0 ≡ ok set
        → shallow ≢ ok true
    unfolding after_shallow
    after_shallow-fails r o (ok true) st set h e = cc
    after_shallow-fails r o (ok false) st set h e = cc
    after_shallow-fails r o (err x) st set h e = cc

    -- what `ancestor_set_for` promises of its answer and of the cache that it leaves
    abbrev pub Promise : Text → Text → S → Result AncestorSet × State S → Type 0
    Promise r reference s (answer, (s', entries')) =
        IsExact entries'
        × ((set : AncestorSet) → answer ≡ ok set → IsAnswer anchors r reference s set)

    after_resolve-Promise :
        (r reference : Text) (s : S) (entries : AncestorCache) (resolved : Result Text)
        → (anchors.resolve_ref r reference s).0 ≡ resolved
        → trim r ≡ r
        → IsPath r
        → IsExact entries
        → Promise r reference s
            (after_resolve anchors r resolved ((anchors.resolve_ref r reference s).1, entries))
    unfolding after_resolve
    after_resolve-Promise r reference s entries (err e) h plain path v = (v, λ set x. cc)
    after_resolve-Promise r reference s entries (ok oid) h plain path v =
        let s' = (anchors.resolve_ref r reference s).1 in
        let (shallow, s'') = anchors.is_shallow r s' in
        let (kept, same) =
          after_shallow-Answered r oid shallow (s'', entries)
            (record { plain = plain; path = path; full = bare r reference s oid h }) v in
        (
          kept,
          λ set x. (oid, h, after_shallow-fails r oid shallow (s'', entries) set x, same set x),
        )

    -- One call keeps the promise, from a cache whose entries are right.
    pub ancestor_set_for-Promise :
        (r reference : Text) (s : S) (entries : AncestorCache)
        → trim r ≡ r
        → IsPath r
        → IsExact entries
        → Promise r reference s (ancestor_set_for anchors r reference (s, entries))
    unfolding ancestor_set_for
    ancestor_set_for-Promise r reference s entries plain path v =
        elim (Bool-cases (is_empty (trim r) || is_empty (trim reference))) [
          | inl e ↦ rw e (v, λ set x. cc)
          | inr e ↦ rw e (
              after_resolve-Promise r reference s entries (anchors.resolve_ref r reference s).0 refl
                plain path v)
        ]
