-- ===== src/Ai/Gemini/Limits/Paced.antt =====
-- The interval between two jobs of a key, and the count of a day behind a wait (gemini.rs).
use ibis_assistant.Prelude.{
  ◌≡◌, refl, ◌∙◌, ℕ, ◌+◌, ◌-◌, ◌≤◌, ◌<◌, Bool, true, false, List, ltb, ◌==◌, if◌then◌else◌, arith,
  inl, inr, Bool-cases, ==_iff,
}
use ibis_assistant.Text.{Text}
use ibis_assistant.Effect.{◌>>=◌}
use ibis_assistant.Ai.Gemini.{
  F64, Outside, WorkerCfg, SharedWorkerState, Wait, passed, interrupted, paused, exhausted,
  roll_day_if_needed, pause, sleep, throttle, admit, pace, and_then, wait_rate_limits, estimate_all,
}
use mathlib.Core.Path.{subst}
use ibis_assistant.Ai.Gemini.Limits.{
  IsClock, OnPass, Same, HasRoom, Ready, then-OnPass, map-OnPass, roll-next, pause-OnPass,
  throttle-OnPass,
}

module _ {S F : Type 0} (f64 : F64 F) (out : Outside S) (cfg : WorkerCfg F) where
  -- let through at the time that the clock shows, and not before the time to wait for
  abbrev Admitted : (S → ℕ) → SharedWorkerState F → SharedWorkerState F → S → Type 0
  Admitted clock st st1 s1 =
      (st.next_available ≤ clock s1)
      × (st1.next_available ≡ clock s1 + cfg.cost_interval)
      × (st1.used_rpd ≡ st.used_rpd + 1)

  module _ (clock : S → ℕ) (time : IsClock out clock) where
    sleep-waits :
        (wait : ℕ) (s : S)
        → (sleep f64 out cfg wait s).0 ≡ true
        → clock s + wait ≤ clock (sleep f64 out cfg wait s).1
    unfolding sleep
    sleep-waits wait s = elim (Bool-cases (wait == 0)) [
      | inl e ↦ rw e (λ h. let none_left = (==_iff wait 0).0 e in omega arith)
      | inr e ↦ rw e (time.sleeps wait s)
    ]

    admit-OnPass :
        (st : SharedWorkerState F) (slept : Bool) (s : S)
        → (slept ≡ true → st.next_available ≤ clock s)
        → OnPass (Admitted clock st) (admit f64 out cfg st slept s)
    admit-OnPass st false s h = tt
    admit-OnPass st true s h = rw (time.reads s) (h refl, refl, refl)

    pace-OnPass :
        (st : SharedWorkerState F) (s : S) → OnPass (Admitted clock st) (pace f64 out cfg st s)
    unfolding pace
    pace-OnPass st s =
        let wait = if ltb (clock s) st.next_available then st.next_available - clock s else 0 in
        let slept = sleep f64 out cfg wait s in
        rw (time.reads s) (
          admit-OnPass st slept.0 slept.1 (λ h.
            let late = sleep-waits wait s h in
            let long : st.next_available ≤ clock s + wait = ground arith in omega arith))

    -- what the waits together lead to
    abbrev Paced : SharedWorkerState F → SharedWorkerState F → S → Type 0
    Paced st st1 s1 =
        (st.next_available ≤ clock s1)
        × (st1.next_available ≡ clock s1 + cfg.cost_interval)
        × ((cfg.allow_overage ≡ false) → (0 < cfg.limit_rpd) → st1.used_rpd ≤ cfg.limit_rpd)

    room :
        (st : SharedWorkerState F)
        → HasRoom cfg st
        → (cfg.allow_overage ≡ false)
        → (0 < cfg.limit_rpd)
        → st.used_rpd + 1 ≤ cfg.limit_rpd
    unfolding exhausted
    room st h o l = ground arith

    Ready-Paced :
        (st rolled : SharedWorkerState F) (texts : List Text) (s : S)
        → Ready cfg st.next_available rolled s
        → OnPass (Paced st) (
            (throttle f64 out cfg (estimate_all texts) rolled >>= λ w.
            and_then w (pace f64 out cfg))
              s)
    Ready-Paced st rolled texts s h =
        let throttled = throttle f64 out cfg (estimate_all texts) rolled s in
        then-OnPass (λ st1 s1. Same rolled st1) (Paced st) throttled (pace f64 out cfg)
          (throttle-OnPass f64 out cfg (estimate_all texts) rolled s)
          (λ st1 s1 same.
            map-OnPass (Admitted clock st1) (Paced st) (pace f64 out cfg st1 s1)
              (λ st2 s2 a. (
                rw⁻¹ (same.0 ∙ h.0) a.0,
                a.1,
                λ o l. let r = room rolled h.1 o l in let u = a.2 in let v = same.1 in omega arith,
              ))
              (pace-OnPass st1 s1))

    through-Paced :
        (st : SharedWorkerState F) (texts : List Text) (w : Wait F × S)
        → OnPass (Ready cfg st.next_available) w
        → OnPass (Paced st) (
            (and_then w.0 (throttle f64 out cfg (estimate_all texts)) >>= λ throttled.
            and_then throttled (pace f64 out cfg))
              w.1)
    through-Paced st texts (passed rolled, s) h = Ready-Paced st rolled texts s h
    through-Paced st texts (interrupted rolled, s) h = tt
    through-Paced st texts (paused rolled, s) h = tt

    wait_rate_limits-Paced :
        (rounds : ℕ) (texts : List Text) (st : SharedWorkerState F) (s : S)
        → OnPass (Paced st) (wait_rate_limits f64 out cfg rounds texts st s)
    unfolding wait_rate_limits
    wait_rate_limits-Paced rounds texts st s =
        let rolled = roll_day_if_needed f64 out cfg st s in
        let next = roll-next f64 out cfg st s in
        elim (Bool-cases (exhausted cfg rolled.0)) [
          | inl e ↦ rw e (
              through-Paced st texts (pause f64 out cfg rounds rolled.0 rolled.1) (
                map-OnPass (Ready cfg rolled.0.next_available) (Ready cfg st.next_available)
                  (pause f64 out cfg rounds rolled.0 rolled.1) (λ st1 s1 h. (h.0 ∙ next, h.1))
                  (pause-OnPass f64 out cfg rounds rolled.0 rolled.1)))
          | inr e ↦ rw e (through-Paced st texts (passed rolled.0, rolled.1) (next, e))
        ]

    -- Between two jobs of a key that are let through there is at least the interval of its rate,
    -- whatever other waits, limits and days lie between them: no clock goes back, and no sleep is too
    -- short. The requests of one job are not spaced by it.
    pub jobs_paced :
        (rounds more_rounds : ℕ) (texts more_texts : List Text) (st st1 st2 : SharedWorkerState F)
        (s s1 s2 s3 : S)
        → wait_rate_limits f64 out cfg rounds texts st s ≡ (passed st1, s1)
        → wait_rate_limits f64 out cfg more_rounds more_texts st1 s2 ≡ (passed st2, s3)
        → clock s1 + cfg.cost_interval ≤ clock s3
    jobs_paced rounds more_rounds texts more_texts st st1 st2 s s1 s2 s3 h k =
        let first : Paced st st1 s1 =
          subst (λ w. OnPass (Paced st) w) h (wait_rate_limits-Paced rounds texts st s) in
        let second : Paced st1 st2 s3 =
          subst (λ w. OnPass (Paced st1) w) k
            (wait_rate_limits-Paced more_rounds more_texts st1 s2) in
        let next = first.1 in let late = second.0 in omega arith

    -- The count of the day is within the limit behind each wait that lets through.
    pub within_limit :
        (rounds : ℕ) (texts : List Text) (st st1 : SharedWorkerState F) (s s1 : S)
        → wait_rate_limits f64 out cfg rounds texts st s ≡ (passed st1, s1)
        → cfg.allow_overage ≡ false
        → 0 < cfg.limit_rpd
        → st1.used_rpd ≤ cfg.limit_rpd
    within_limit rounds texts st st1 s s1 h o l =
        let kept : Paced st st1 s1 =
          subst (λ w. OnPass (Paced st) w) h (wait_rate_limits-Paced rounds texts st s) in
        kept.2 o l
