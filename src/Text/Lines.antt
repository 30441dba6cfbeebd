-- ===== src/Text/Lines.antt =====
-- The parts that `split` gives: none holds the separator, and those of a text that is put together
-- are those of its parts.
use ibis_assistant.Prelude.{
  ℕ, ◌≡◌, refl, false, List, [], ◌∷◌, ◌++◌, inl, inr, arith, ◌==◌, if◌then◌else◌, Bool-cases, All,
}
use ibis_assistant.Text.{Text, is_empty}
use ibis_assistant.Text.Split.{contains, split, cons_first}

module _ (sep : ℕ) where
  abbrev pub IsPart : Text → Type 0
  IsPart part = contains sep part ≡ false

  cons_first-parts :
      (c : ℕ) (l : List Text) → (c == sep) ≡ false → All IsPart l → All IsPart (cons_first c l)
  cons_first-parts c [] h a = (ground arith, tt)
  cons_first-parts c (x ∷ l) h a = (ground (arith, a.0), a.1)

  pub split-parts : (s : Text) → All IsPart (split sep s)
  unfolding split
  split-parts [] = (refl, tt)
  split-parts (c ∷ s) = elim (Bool-cases (c == sep)) [
    | inl e ↦ rw e (refl, split-parts s)
    | inr e ↦ rw e (cons_first-parts c (split sep s) e (split-parts s))
  ]

  abbrev pub IsSome : List Text → Type 0
  IsSome [] = ⊥
  IsSome (_ ∷ _) = Unit

  cons_first-append :
      (c : ℕ) (l r : List Text) → IsSome l → cons_first c (l ++ r) ≡ cons_first c l ++ r
  cons_first-append c [] r h = absurd h
  cons_first-append c (x ∷ l) r h = refl

  cons_first-IsSome : (c : ℕ) (l : List Text) → IsSome (cons_first c l)
  cons_first-IsSome c [] = tt
  cons_first-IsSome c (x ∷ l) = tt

  pub split-IsSome : (s : Text) → IsSome (split sep s)
  unfolding split
  split-IsSome [] = tt
  split-IsSome (c ∷ s) = elim (Bool-cases (c == sep)) [
    | inl e ↦ rw e tt
    | inr e ↦ rw e (cons_first-IsSome c (split sep s))
  ]

  pub split-join : (a b : Text) → split sep (a ++ (sep ∷ b)) ≡ split sep a ++ split sep b
  unfolding split
  split-join [] b = ground arith
  split-join (c ∷ a) b = elim (Bool-cases (c == sep)) [
    | inl e ↦ rw (e, split-join a b)
    | inr e ↦
        rw (e, split-join a b) (cons_first-append c (split sep a) (split sep b) (split-IsSome a))
  ]

-- the parts that are not empty
unfoldable pub kept : List Text → List Text
kept [] = []
kept (part ∷ parts) = let rest = kept parts in if is_empty part then rest else part ∷ rest

pub kept-append : (xs ys : List Text) → kept (xs ++ ys) ≡ kept xs ++ kept ys
unfolding kept
kept-append [] ys = refl
kept-append (x ∷ xs) ys = ground (arith, kept-append xs ys)
