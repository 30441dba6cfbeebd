-- ===== src/Ai/Gemini/Limits/Daily.antt =====
-- How many jobs the limit of a day lets through (gemini.rs, `wait_rate_limits`).
use ibis_assistant.Prelude.{◌≡◌, ℕ, ◌+◌, ◌⊎◌, List, [], ◌∷◌}
use ibis_assistant.Text.{Text}
use ibis_assistant.Ai.Gemini.{F64, Outside, WorkerCfg, SharedWorkerState, passed, wait_rate_limits}

abbrev IsOtherDay : {F : Type 0} → SharedWorkerState F → SharedWorkerState F → Type 0
IsOtherDay st st1 = st1.last_reset_rpd ≡ st.last_reset_rpd → ⊥

-- the count is the same, unless the day is another
abbrev IsUnspent : {F : Type 0} → SharedWorkerState F → SharedWorkerState F → Type 0
IsUnspent st st1 = st1.last_reset_rpd ≡ st.last_reset_rpd → st1.used_rpd ≡ st.used_rpd

-- the count is one more, unless the day is another
abbrev IsSpent : {F : Type 0} → SharedWorkerState F → SharedWorkerState F → Type 0
IsSpent st st1 = st1.last_reset_rpd ≡ st.last_reset_rpd → st1.used_rpd ≡ st.used_rpd + 1

abbrev IsRolled : {F : Type 0} → SharedWorkerState F → SharedWorkerState F → Type 0
IsRolled st st1 =
    ((st1.last_reset_rpd ≡ st.last_reset_rpd) × (st1.used_rpd ≡ st.used_rpd))
    ⊎ ((st1.used_rpd ≡ 0) × IsOtherDay st st1)

module _ {S F : Type 0} (f64 : F64 F) (out : Outside S) (cfg : WorkerCfg F) where
  -- Jobs that are let through one after another on the day that the first state shows, with anything
  -- else happening to the world between them; as many as there are texts lists.
  pub data LetThrough (st : SharedWorkerState F)
      : List (List Text) → SharedWorkerState F → Type 0 where
    none_yet : LetThrough st [] st
    one_more :
        {jobs : List (List Text)} {st1 st2 : SharedWorkerState F} (rounds : ℕ) (texts : List Text)
        (s s' : S)
        → LetThrough st jobs st1
        → wait_rate_limits f64 out cfg rounds texts st1 s ≡ (passed st2, s')
        → st2.last_reset_rpd ≡ st.last_reset_rpd
        → LetThrough st (texts ∷ jobs) st2
