-- ===== src/Ai/Chain/Errors.antt =====
-- What the fallback chain returns (fallback.rs, `fold` and `generate_content`).
use mathlib.Core.List.{reverse, reverse-cons, concat-ne-nil, append-nil, append_assoc}
use ibis_assistant.Prelude.{
  ◌≡◌, refl, ap, ◌∙◌, ◌≢◌, Bool, true, ◌⊎◌, List, [], ◌∷◌, ◌++◌, map, arith, inl, inr,
  if◌then◌else◌,
}
use ibis_assistant.Text.{str}
use ibis_assistant.Text.Split.{join}
use ibis_assistant.Ai.{
  AiError, context_only, joined, wrapped, other, to_string, err, is_ok, or_else_ok, or_else-fails,
  GenerationConfig, Provider,
}
use ibis_assistant.Ai.Chain.{
  FallbackChain, fold_rev, fold_reversed, fold, try_step, try_steps, generate_content,
}

-- the errors joined in their order, the last innermost
abbrev pub nested : AiError → List AiError → AiError
nested e [] = e
nested e (e' ∷ es) = joined e (nested e' es)

fold_rev-append :
    (acc : AiError) (xs : List AiError) (e : AiError)
    → fold_rev acc (xs ++ e ∷ []) ≡ joined e (fold_rev acc xs)
unfolding fold_rev
fold_rev-append acc [] e = refl
fold_rev-append acc (x ∷ xs) e = fold_rev-append (joined x acc) xs e

fold_reversed-concat :
    (xs : List AiError) (e : AiError)
    → xs ≢ []
    → fold_reversed (xs ++ e ∷ []) ≡ joined e (fold_reversed xs)
unfolding fold_reversed
fold_reversed-concat [] e h = absurd (h refl)
fold_reversed-concat (x ∷ xs) e h = fold_rev-append x xs e

reverse-ne_nil : (e : AiError) (es : List AiError) → reverse (e ∷ es) ≢ []
reverse-ne_nil e es h = ground (arith, reverse-cons e es, concat-ne-nil e (reverse es))

fold-nested : (e : AiError) (es : List AiError) → fold (e ∷ es) ≡ nested e es
unfolding fold fold_reversed
fold-nested e [] = refl
fold-nested e (e' ∷ es) =
    ap fold_reversed (reverse-cons e (e' ∷ es))
    ∙ fold_reversed-concat (reverse (e' ∷ es)) e (reverse-ne_nil e' es)
    ∙ ap (joined e) (fold-nested e' es)

to_string-nested :
    (e : AiError) (es : List AiError)
    → to_string (nested e es) ≡ join b'\n' (to_string e ∷ map to_string es)
unfolding to_string join
to_string-nested e [] = refl
to_string-nested e (e' ∷ es) = rw (to_string-nested e' es)

-- The folded error reads as one line for each failure, in the order of the steps.
to_string-fold :
    (errors : List AiError)
    → errors ≢ []
    → to_string (fold errors) ≡ join b'\n' (map to_string errors)
to_string-fold [] h = absurd (h refl)
to_string-fold (e ∷ es) h = ap to_string (fold-nested e es) ∙ to_string-nested e es

-- what a failed step leaves: its name, and that it was not connected or why it failed
abbrev pub Report :
    {S Float Content Candidate : Type 0} → Provider S Float Content Candidate → AiError → Type 0
Report step e =
    (e ≡ wrapped (step.name ++ str " unavailable") (other (str "not connected")))
    ⊎ ((x : AiError) × (e ≡ wrapped step.name x))

-- one report for each step, in their order
abbrev pub Reports :
    {S Float Content Candidate : Type 0}
    → List (Provider S Float Content Candidate)
    → List AiError
    → Type 0
Reports [] [] = Unit
Reports [] (_ ∷ _) = ⊥
Reports (_ ∷ _) [] = ⊥
Reports (step ∷ steps) (e ∷ es) = Report step e × Reports steps es

module _ {S Float Content Candidate : Type 0} (contents : List Content)
    (config : GenerationConfig Float) where
  -- the step answers, whatever the world it is tried in
  abbrev pub Answers : Provider S Float Content Candidate → Type 0
  Answers step = (s : S) → is_ok (try_step step contents config s).0 ≡ true

  abbrev pub AnyAnswers : List (Provider S Float Content Candidate) → Type 0
  AnyAnswers [] = ⊥
  AnyAnswers (step ∷ steps) = Answers step ⊎ AnyAnswers steps

  try_steps_ok :
      (only : Bool) (steps : List (Provider S Float Content Candidate)) (errors : List AiError)
      (s : S)
      → AnyAnswers steps
      → is_ok (try_steps only steps errors contents config s).0 ≡ true
  unfolding try_steps
  try_steps_ok only [] errors s h = absurd h
  try_steps_ok only (step ∷ steps) errors s (inl a) = or_else_ok _ _ _ (inl (a s))
  try_steps_ok only (step ∷ steps) errors s (inr later) = or_else_ok _ _ _ (
      inr
        (λ e. try_steps_ok only steps (errors ++ e ∷ []) (try_step step contents config s).1 later))

  -- The chain answers if one of its steps does so whatever the world, however many fail before it.
  chain_answers :
      (chain : FallbackChain S Float Content Candidate) (s : S)
      → AnyAnswers chain.steps
      → is_ok (generate_content chain contents config s).0 ≡ true
  unfolding generate_content
  chain_answers chain s h = try_steps_ok chain.context_only chain.steps [] s h

  try_step-Report :
      (step : Provider S Float Content Candidate) (s : S) (e : AiError)
      → (try_step step contents config s).0 ≡ err e
      → Report step e
  unfolding try_step
  try_step-Report step s e h = ground arith

  Fails : Bool → List AiError → List (Provider S Float Content Candidate) → AiError → Type 0
  Fails only before steps e =
      (es : List AiError) × Reports steps es
      × (e ≡ (if only then context_only else fold (before ++ es)))

  try_steps-Fails :
      (only : Bool) (steps : List (Provider S Float Content Candidate)) (before : List AiError)
      (s : S) (e : AiError)
      → (try_steps only steps before contents config s).0 ≡ err e
      → Fails only before steps e
  unfolding try_steps Fails
  try_steps-Fails only [] before s e h = ([], tt, rw append-nil (ground arith))
  try_steps-Fails only (step ∷ steps) before s e h =
      let (x, failed, later) = or_else-fails _ _ _ e h in
      let (es, reports, reads) =
        try_steps-Fails only steps (before ++ x ∷ []) (try_step step contents config s).1 e later in
      (x ∷ es, (try_step-Report step s x failed, reports), rw append_assoc at reads)

  -- When the chain fails, every step was tried and left one report, in the order of the steps. The
  -- answer is `context only` if the chain is so configured, and else all the reports folded.
  chain_failure-Reports :
      (chain : FallbackChain S Float Content Candidate) (s : S) (e : AiError)
      → (generate_content chain contents config s).0 ≡ err e
      → (reports : List AiError) × Reports chain.steps reports
        × (e ≡ (if chain.context_only then context_only else fold reports))
  unfolding generate_content Fails
  chain_failure-Reports chain s e h = try_steps-Fails chain.context_only chain.steps [] s e h
