-- ===== src/Text/Split.antt =====
-- Searching and cutting texts: `strip_prefix`, `split_once`, `split`, `join`.
use ibis_assistant.Prelude.{
  ℕ, ◌≡◌, refl, ap, ◌∙◌, Bool, true, false, ◌&&◌, ◌||◌, Option, none, some, List, [], ◌∷◌, ◌++◌,
  inl, inr, arith, ◌==◌, if◌then◌else◌, Bool-cases, any,
}
use ibis_assistant.Text.{Text, text_eq}

-- `contains` of one character
abbrev pub contains : ℕ → Text → Bool
contains sep s = any (λ c. c == sep) s

unfoldable pub strip_prefix : Text → Text → Option Text
strip_prefix [] s = some s
strip_prefix (p ∷ ps) [] = none
strip_prefix (p ∷ ps) (c ∷ s) = if c == p then strip_prefix ps s else none

unfoldable pub starts_with : Text → Text → Bool
starts_with [] s = true
starts_with (p ∷ ps) [] = false
starts_with (p ∷ ps) (c ∷ s) = c == p && starts_with ps s

-- `contains` of a text
unfoldable pub contains_text : Text → Text → Bool
unfolding starts_with
contains_text needle [] = starts_with needle []
contains_text needle (c ∷ s) = starts_with needle (c ∷ s) || contains_text needle s

-- `ends_with` of one character
unfoldable pub ends_with : ℕ → Text → Bool
ends_with e [] = false
ends_with e (c ∷ []) = c == e
ends_with e (c ∷ d ∷ s) = ends_with e (d ∷ s)

-- `ends_with` of a text
unfoldable pub has_suffix : Text → Text → Bool
unfolding text_eq
has_suffix suffix [] = text_eq [] suffix
has_suffix suffix (c ∷ s) = text_eq (c ∷ s) suffix || has_suffix suffix s

abbrev pub cons_left : ℕ → Option (Text × Text) → Option (Text × Text)
cons_left c none = none
cons_left c (some (a, b)) = some (c ∷ a, b)

-- at the first `sep`
unfoldable pub split_once : ℕ → Text → Option (Text × Text)
split_once sep [] = none
split_once sep (c ∷ s) = if c == sep then some ([], s) else cons_left c (split_once sep s)

abbrev pub or_here : ℕ → ℕ → Text → Option (Text × Text) → Option (Text × Text)
or_here sep c s none = if c == sep then some ([], s) else none
or_here sep c s (some (a, b)) = some (c ∷ a, b)

-- at the last `sep`
unfoldable pub rsplit_once : ℕ → Text → Option (Text × Text)
rsplit_once sep [] = none
rsplit_once sep (c ∷ s) = or_here sep c s (rsplit_once sep s)

abbrev pub cons_first : ℕ → List Text → List Text
cons_first c [] = (c ∷ []) ∷ []
cons_first c (x ∷ xs) = (c ∷ x) ∷ xs

-- `split` at each `sep`: never empty
unfoldable pub split : ℕ → Text → List Text
split sep [] = [] ∷ []
split sep (c ∷ s) = let rest = split sep s in if c == sep then [] ∷ rest else cons_first c rest

unfoldable pub join : ℕ → List Text → Text
join sep [] = []
join sep (x ∷ []) = x
join sep (x ∷ y ∷ xs) = x ++ (sep ∷ join sep (y ∷ xs))

pub starts_with-append : (p s : Text) → starts_with p (p ++ s) ≡ true
unfolding starts_with
starts_with-append [] s = refl
starts_with-append (c ∷ p) s = ground (arith, starts_with-append p s)

pub strip_prefix-append : (p s : Text) → strip_prefix p (p ++ s) ≡ some s
unfolding strip_prefix
strip_prefix-append [] s = refl
strip_prefix-append (c ∷ p) s = ground (arith, strip_prefix-append p s)

cons_left-eq-some :
    (c : ℕ) (r : Option (Text × Text)) (a b : Text)
    → cons_left c r ≡ some (a, b)
    → (x : Text) × (r ≡ some (x, b)) × (a ≡ c ∷ x)
cons_left-eq-some c none a b h = cc
cons_left-eq-some c (some (x, y)) a b h = (x, ground arith, ground arith)

module _ (sep : ℕ) where
  pub split_once-append :
      (a b : Text) → contains sep a ≡ false → split_once sep (a ++ (sep ∷ b)) ≡ some (a, b)
  unfolding split_once
  split_once-append [] b h = ground arith
  split_once-append (c ∷ a) b h = ground (arith, split_once-append a b)

  -- what is cut at the first `sep` is put together again
  pub split_once_sound :
      (s : Text) (a b : Text)
      → split_once sep s ≡ some (a, b)
      → (s ≡ a ++ (sep ∷ b)) × (contains sep a ≡ false)
  unfolding split_once
  split_once_sound [] a b h = cc
  split_once_sound (c ∷ s) a b h = elim (Bool-cases (c == sep)) [
    | inl e ↦ ground arith
    | inr e ↦
        let (x, r, y) = cons_left-eq-some c (split_once sep s) a b (ground arith) in
        ground (arith, split_once_sound s x b r)
  ]

  pub split-append :
      (a b : Text) → contains sep a ≡ false → split sep (a ++ (sep ∷ b)) ≡ a ∷ split sep b
  unfolding split
  split-append [] b h = ground arith
  split-append (c ∷ a) b h = ground (arith, split-append a b)

  pub split_none : (a : Text) → contains sep a ≡ false → split sep a ≡ a ∷ []
  unfolding split
  split_none [] h = refl
  split_none (c ∷ a) h = ground (arith, split_none a)

  join-cons_first : (c : ℕ) (l : List Text) → join sep (cons_first c l) ≡ c ∷ join sep l
  unfolding join
  join-cons_first c [] = refl
  join-cons_first c (x ∷ []) = refl
  join-cons_first c (x ∷ y ∷ l) = refl

  join-cons_nil : (s : Text) → join sep ([] ∷ split sep s) ≡ sep ∷ join sep (split sep s)
  unfolding join split
  join-cons_nil [] = refl
  join-cons_nil (c ∷ s) = go (c == sep) (split sep s)
    where
      go :
          (t : Bool) (l : List Text)
          → join sep ([] ∷ (if t then [] ∷ l else cons_first c l))
            ≡ sep ∷ join sep (if t then [] ∷ l else cons_first c l)
      go true l = refl
      go false [] = refl
      go false (x ∷ l) = refl

  -- Joining what was split gives the text again.
  pub join-split : (s : Text) → join sep (split sep s) ≡ s
  unfolding split
  join-split [] = unfold join in refl
  join-split (c ∷ s) = elim (Bool-cases (c == sep)) [
    | inl e ↦ rw e (join-cons_nil s ∙ ground (arith, join-split s))
    | inr e ↦ rw e (join-cons_first c (split sep s) ∙ ap (◌∷◌ c) (join-split s))
  ]

pub rsplit_once-none : (sep : ℕ) (s : Text) → contains sep s ≡ false → rsplit_once sep s ≡ none
unfolding rsplit_once
rsplit_once-none sep [] h = refl
rsplit_once-none sep (c ∷ s) h = ground (arith, rsplit_once-none sep s)

pub rsplit_once-append :
    (sep : ℕ) (a b : Text) → contains sep b ≡ false → rsplit_once sep (a ++ (sep ∷ b)) ≡ some (a, b)
unfolding rsplit_once
rsplit_once-append sep [] b h = ground (arith, rsplit_once-none sep b h)
rsplit_once-append sep (c ∷ a) b h = rw (rsplit_once-append sep a b h)
