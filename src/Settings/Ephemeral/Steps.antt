-- ===== src/Settings/Ephemeral/Steps.antt =====
-- The settings server under calls, requests and timers in any order (ephemeral.rs). A timer of any
-- server may go off at any time, whether it was cancelled or not, and may find another server
-- current.
pub mod Sound
pub mod Closed
use ibis_assistant.Prelude.{
  ◌≡◌, ◌≢◌, refl, sym, ◌∙◌, ℕ, ◌+◌, ◌≤◌, ◌<◌, Bool, true, false, not, Option, none, some, List, [],
  ◌==◌, ◌&&◌, ◌⊎◌, inl, inr, if◌then◌else◌, arith, Bool-cases, Option-cases, ==_iff,
}
use ibis_assistant.Effect.{Fallible, ok, err}
use ibis_assistant.Text.{Text}
use ibis_assistant.Settings.Ephemeral.{
  Server, World, Request, alive, change, started, put_server, closed, stop, take_server,
  stop_ephemeral, stop_if_current, start, reuse, ensure_ephemeral_with_memory, auth_layer, touched,
  authorize,
}

module _ {M : Type 0} (open_url : Text → Text) (decode : List ℕ → Text) where
  -- one call, request, timer or stop
  pub data Step : World M → World M → Type 0 where
    ensured :
        (url_token session_token : Text) (listen : Fallible Text Text) (memory : Option M)
        (w : World M)
        → Step w (ensure_ephemeral_with_memory open_url url_token session_token listen memory w).1
    requested : (req : Request) (i : ℕ) (w : World M) → Step w (auth_layer decode req i w).1
    elapsed : (i : ℕ) (w : World M) → Step w (stop_if_current i w)
    ended : (w : World M) → Step w (stop_ephemeral w)
    stopped : (i : ℕ) (w : World M) → (w.servers i).taken ≡ true → Step w (stop i w)

  pub data Steps : World M → World M → Type 0 where
    done : (w : World M) → Steps w w
    then_step : {u v w : World M} → Steps u v → Step v w → Steps u w

-- What holds of a server, beside which one is current: what was stopped has no token, what serves
-- is current or is being stopped, and what is current is not being stopped.
pub record IsSound {M : Type 0} (current : Option ℕ) (next : ℕ) (i : ℕ) (s : Server M)
    : Type 0 where
  pub tokenless : s.stopping ≡ true → s.session_token ≡ []
  pub tracked : s.live ≡ true → (current ≡ some i) ⊎ (s.taken ≡ true)
  pub kept : current ≡ some i → s.taken ≡ false
  pub unstopped : s.taken ≡ false → s.stopping ≡ false
  pub known : current ≡ some i → i < next
  pub unborn : next ≤ i → (s.live ≡ false) × (s.taken ≡ false)

abbrev pub AllSound : {M : Type 0} → World M → Type 0
AllSound w = (i : ℕ) → IsSound w.current w.next i (w.servers i)

-- at the start of the process
abbrev pub blank : {M : Type 0} → Server M
blank = record {
  url_token = [];
  session_token = [];
  base_url = [];
  live = false;
  stopping = false;
  idle_token = 0;
  memory = none;
  taken = false;
}

abbrev pub first_world : {M : Type 0} → World M
first_world = record { servers = λ _. blank; next = 0; current = none }

not_both : (o : Option ℕ) (i j : ℕ) → (j == i) ≡ false → o ≡ some i → o ≡ some j → ⊥
not_both o i j e h k = let same : j ≡ i = cc in cc ((==_iff j i).1 same)

module _ {M : Type 0} where
  pub first-AllSound : AllSound (first_world {M = M})
  first-AllSound i = record {
    tokenless = λ h. cc;
    tracked = λ h. cc;
    kept = λ h. refl;
    unstopped = λ h. refl;
    known = λ h. cc;
    unborn = λ h. (refl, refl);
  }

  -- a change that leaves the flags of a server alone
  pub same_flags-IsSound :
      (current : Option ℕ) (next i : ℕ) (s t : Server M)
      → t.session_token ≡ s.session_token
      → t.live ≡ s.live
      → t.stopping ≡ s.stopping
      → t.taken ≡ s.taken
      → IsSound current next i s
      → IsSound current next i t
  same_flags-IsSound current next i s t a b c d h = record {
    tokenless = λ e. a ∙ h.tokenless (sym c ∙ e);
    tracked = λ e. elim (h.tracked (sym b ∙ e)) [ inl k ↦ inl k | inr k ↦ inr (d ∙ k) ];
    kept = λ e. d ∙ h.kept e;
    unstopped = λ e. c ∙ h.unstopped (sym d ∙ e);
    known = h.known;
    unborn = λ e. (b ∙ (h.unborn e).0, d ∙ (h.unborn e).1);
  }

  -- a server in its place, and the others as they were
  pub change-AllSound :
      (i : ℕ) (f : Server M → Server M) (w : World M)
      → IsSound w.current w.next i (f (w.servers i))
      → AllSound w
      → AllSound (change i f w)
  change-AllSound i f w h k j = elim (Bool-cases (j == i)) [
    | inl e ↦ rw (e, (==_iff j i).0 e) h
    | inr e ↦ rw e (k j)
  ]

  pub closed-IsSound :
      (current : Option ℕ) (next i : ℕ) (s : Server M)
      → s.taken ≡ true
      → IsSound current next i s
      → IsSound current next i (closed s)
  closed-IsSound current next i s t h = go s.stopping refl
    where
      go :
          (b : Bool)
          → s.stopping ≡ b
          → IsSound current next i (
              if b
              then s
              else record s { stopping = true; live = false; url_token = []; session_token = [] })
      go true e = h
      go false e = record {
        tokenless = λ k. refl;
        tracked = λ k. inr t;
        kept = h.kept;
        unstopped = λ k. cc;
        known = h.known;
        unborn = λ k. (refl, (h.unborn k).1);
      }

  pub take_server-AllSound :
      (i : ℕ) (w : World M) → w.current ≡ some i → AllSound w → AllSound (take_server i w)
  take_server-AllSound i w c k j = elim (Bool-cases (j == i)) [
    | inl e ↦
        let h = k i in
        rw e (record {
          tokenless = h.tokenless;
          tracked = λ e. inr refl;
          kept = λ e. cc;
          unstopped = λ e. cc;
          known = λ e. cc;
          unborn = λ n. let same = (==_iff j i).0 e in let m = h.known c in absurd (omega arith);
        })
    | inr e ↦ rw e (record {
      tokenless = (k j).tokenless;
      tracked = λ l. elim ((k j).tracked l) [
        | inl d ↦ absurd (not_both w.current i j e c d)
        | inr t ↦ inr t
      ];
      kept = λ e. cc;
      unstopped = (k j).unstopped;
      known = λ e. cc;
      unborn = (k j).unborn;
    })
  ]

  pub put_server-AllSound :
      (memory : Option M) (url_token session_token base : Text) (w : World M)
      → ((i : ℕ) → w.current ≡ some i → alive (w.servers i) ≡ false)
      → AllSound w
      → AllSound (put_server (started memory url_token session_token base) w)
  put_server-AllSound memory url_token session_token base w a k j =
      elim (Bool-cases (j == w.next)) [
        | inl e ↦ rw e (record {
          tokenless = λ h. cc;
          tracked = λ h. inl (let same = (==_iff j w.next).0 e in cc);
          kept = λ h. refl;
          unstopped = λ h. refl;
          known = λ h. let same = (==_iff j w.next).0 e in omega arith;
          unborn = λ h. let same = (==_iff j w.next).0 e in absurd (omega arith);
        })
        | inr e ↦ rw e (record {
          tokenless = (k j).tokenless;
          tracked = λ l. elim ((k j).tracked l) [
            | inl c ↦ let q = (k j).unstopped ((k j).kept c) in let b = a j c in cc
            | inr t ↦ inr t
          ];
          kept = λ h. absurd (not_both (some w.next) w.next j e refl h);
          unstopped = (k j).unstopped;
          known = λ h. absurd (not_both (some w.next) w.next j e refl h);
          unborn = λ h. (k j).unborn (omega arith);
        })
      ]
