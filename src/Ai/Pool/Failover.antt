-- ===== src/Ai/Pool/Failover.antt =====
-- What the failover pool tries and returns (cloud_pool.rs, `new`, `try_order`, `generate_content`).
use mathlib.Core.Path.{subst}
use ibis_assistant.Prelude.{
  sym, ℕ, ◌+◌, ◌≡◌, refl, ◌≢◌, true, false, ◌⊎◌, Option, none, some, List, [], ◌∷◌, ◌++◌, ap, arith,
  inl, inr, Bool-cases, Option-cases, if◌then◌else◌, any, All,
}
use ibis_assistant.Text.{Text, text_eq, text_eq_iff, is_empty}
use ibis_assistant.Ai.{
  or_else, or_else_ok, AiError, cloud_pool_exhausted, err, is_ok, GenerationConfig, Provider,
}
use ibis_assistant.Text.Map.{lookup}
use ibis_assistant.Ai.Pool.{
  first_known, get_or, CloudPool, without, keep_functional, new, has_any, try_order, try_names,
  generate_content,
}

-- how often a name stands in a list
abbrev pub count : Text → List Text → ℕ
count n [] = 0
count n (m ∷ ms) = (if text_eq m n then 1 else 0) + count n ms

count-without :
    (primary n : Text) (order : List Text)
    → count n (without primary order) ≡ (if text_eq primary n then 0 else count n order)
unfolding without
count-without primary n [] = ground arith
count-without primary n (m ∷ ms) = ground (
  arith,
  count-without primary n ms,
  text_eq_iff m n,
  text_eq_iff m primary,
  text_eq_iff primary n,
)

lookup-nonempty :
    {V : Type 0} (k : Text) (m : List (Text × V)) (v : V) → lookup k m ≡ some v → m ≢ []
unfolding lookup
lookup-nonempty k [] v h e = cc
lookup-nonempty k ((j, w) ∷ m) v h e = cc

module _ {S Float Content Candidate : Type 0} (pool : CloudPool S Float Content Candidate) where
  -- The names that are tried, with a primary that is named: the primary comes exactly once, and
  -- every other name as often as in the configured order.
  count-try_order :
      is_empty pool.primary ≡ false
      → (n : Text)
      → count n (try_order pool) ≡ (if text_eq pool.primary n then 1 else count n pool.order)
  unfolding try_order
  count-try_order named n = ground (arith, count-without pool.primary n pool.order)

-- the primary that `new` picks from the configured order
abbrev pub IsFirstKnown : {V : Type 0} → List (Text × V) → List Text → Text → Type 0
IsFirstKnown {V} m order primary =
    (All (λ n. lookup n m ≡ none) order × (primary ≡ []))
    ⊎ ((before : List Text) × (after : List Text) × (v : V) × (order ≡ before ++ (primary ∷ after))
        × All (λ n. lookup n m ≡ none) before
        × (lookup primary m ≡ some v))

IsFirstKnown-cons :
    {V : Type 0} (m : List (Text × V)) (name : Text) (order : List Text) (primary : Text)
    → lookup name m ≡ none
    → IsFirstKnown m order primary
    → IsFirstKnown m (name ∷ order) primary
IsFirstKnown-cons m name order primary h (inl (unknown, e)) = inl ((h, unknown), e)
IsFirstKnown-cons m name order primary h (inr (before, after, v, e, unknown, known)) =
    inr (name ∷ before, after, v, ap (◌∷◌ name) e, (h, unknown), known)

first_known-skip :
    {V : Type 0} (m : List (Text × V)) (name : Text) (order : List Text)
    → lookup name m ≡ none
    → first_known m (name ∷ order) ≡ first_known m order
unfolding first_known
first_known-skip m name order e = rw (e, first_known)

first_known-take :
    {V : Type 0} (m : List (Text × V)) (name : Text) (order : List Text) (v : V)
    → lookup name m ≡ some v
    → first_known m (name ∷ order) ≡ name
unfolding first_known
first_known-take m name order v e = rw (e, first_known)

first_known-IsFirstKnown :
    {V : Type 0} (m : List (Text × V)) (order : List Text)
    → IsFirstKnown m order (first_known m order)
unfolding first_known
first_known-IsFirstKnown m [] = inl (tt, refl)
first_known-IsFirstKnown m (name ∷ order) = elim (Option-cases (lookup name m)) [
  | inl e ↦
      subst (IsFirstKnown m (name ∷ order)) (sym (first_known-skip m name order e))
        (IsFirstKnown-cons m name order (first_known m order) e (first_known-IsFirstKnown m order))
  | inr (v, e) ↦
      subst (IsFirstKnown m (name ∷ order)) (sym (first_known-take m name order v e))
        (inr ([], order, v, refl, tt, e))
]

module _ {S Float Content Candidate : Type 0} (contents : List Content)
    (cfg : GenerationConfig Float) where
  module _ (providers : List (Text × Provider S Float Content Candidate))
      (provider : Provider S Float Content Candidate)
      (answers : (s : S) → is_ok (provider.generate_content contents cfg s).0 ≡ true) where
    known_later :
        (name n : Text) (names : List Text)
        → any (λ m. text_eq m name) (n ∷ names) ≡ true
        → lookup name providers ≡ some provider
        → lookup n providers ≡ none
        → any (λ m. text_eq m name) names ≡ true
    known_later name n names h known e = ground (arith, text_eq_iff n name)

    try_names_ok :
        (name : Text) (names : List Text) (last_err : Option AiError)
        → any (λ n. text_eq n name) names ≡ true
        → lookup name providers ≡ some provider
        → (s : S) → is_ok (try_names providers names last_err contents cfg s).0 ≡ true
    unfolding try_names or_else
    try_names_ok name [] last_err h known s = cc
    try_names_ok name (n ∷ names) last_err h known s = elim (Option-cases (lookup n providers)) [
      | inl e ↦
          rw (e, try_names)
            (try_names_ok name names last_err (known_later name n names h known e) known s)
      | inr (q, e) ↦
          rw (e, try_names)
            (elim (Bool-cases (text_eq n name)) [
              | inl same ↦
                  or_else_ok (q.generate_content contents cfg s).0 _ _
                    (inl (ground (arith, answers s, text_eq_iff n name)))
              | inr differ ↦ or_else_ok (q.generate_content contents cfg s).0 _ _ (
                  inr (λ x.
                    try_names_ok name names (some x) (ground arith) known
                      (q.generate_content contents cfg s).1))
            ])
    ]

  try_names_unknown :
      (providers : List (Text × Provider S Float Content Candidate)) (names : List Text)
      → All (λ n. lookup n providers ≡ none) names
      → (s : S) → try_names providers names none contents cfg s ≡ (err cloud_pool_exhausted, s)
  unfolding try_names get_or
  try_names_unknown providers [] h s = refl
  try_names_unknown providers (n ∷ names) h s =
      rw (h.0, try_names) (try_names_unknown providers names h.1 s)

  module _ (pool : CloudPool S Float Content Candidate) where
    -- Failover is complete: if a provider of the pool whose name is tried answers whatever the world,
    -- the pool answers, however many providers before it fail.
    pub failover_answers :
        (name : Text) (provider : Provider S Float Content Candidate)
        → any (λ n. text_eq n name) (try_order pool) ≡ true
        → lookup name pool.providers ≡ some provider
        → ((s : S) → is_ok (provider.generate_content contents cfg s).0 ≡ true)
        → (s : S) → is_ok (generate_content pool contents cfg s).0 ≡ true
    unfolding generate_content has_any
    failover_answers name provider tried known answers s = ground (
      arith,
      lookup-nonempty name pool.providers provider known,
      try_names_ok pool.providers provider answers name (try_order pool) none tried known s,
    )

    -- If no name that is tried is in the pool, nothing is called: the world stays as it was, and a
    -- pool that holds providers is exhausted.
    unknown_names_exhaust :
        All (λ n. lookup n pool.providers ≡ none) (try_order pool)
        → pool.providers ≢ []
        → (s : S) → generate_content pool contents cfg s ≡ (err cloud_pool_exhausted, s)
    unfolding generate_content has_any
    unknown_names_exhaust unknown some_provider s =
        ground (arith, try_names_unknown pool.providers (try_order pool) unknown s)

module _ {S Float Content Candidate : Type 0} where
  -- A pool that is built with no primary takes the first name of the configured order that is among
  -- the providers that were functional, and none if there is no such name.
  new_picks_first :
      (order : List Text) (providers : List (Text × Provider S Float Content Candidate)) (s : S)
      → let pool = (new [] order providers s).0 in IsFirstKnown pool.providers order pool.primary
  unfolding new is_empty
  new_picks_first order providers s = first_known-IsFirstKnown (keep_functional providers s).0 order
