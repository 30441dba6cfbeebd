-- ===== src/Settings/Ephemeral/Steps/Closed.antt =====
-- A settings server that was stopped stays so (ephemeral.rs).
use ibis_assistant.Prelude.{
  ◌≡◌, refl, ◌∙◌, ℕ, Bool, true, false, Option, none, some, List, [], ◌==◌, inl, inr, if◌then◌else◌,
  arith, Bool-cases, Option-cases, ==_iff,
}
use ibis_assistant.Effect.{Fallible, ok, err}
use ibis_assistant.Text.{Text, is_empty}
use ibis_assistant.Settings.Ephemeral.{
  Server, World, Request, alive, change, closed, stop, take_server, stop_ephemeral, stop_if_current,
  start, reuse, ensure_ephemeral_with_memory, auth_layer, touched, authorize, mint_url_token,
  touch_idle, set_memory,
}
use ibis_assistant.Settings.Ephemeral.Steps.{
  Step, ensured, requested, elapsed, ended, stopped, Steps, done, then_step, AllSound, first_world,
  first-AllSound,
}
use ibis_assistant.Settings.Ephemeral.Steps.Sound.{authorize-SameFlags, steps-AllSound}

module _ {M : Type 0} where
  -- a server that was stopped stays so
  change-stopping :
      (i j : ℕ) (f : Server M → Server M) (w : World M)
      → ((w.servers i).stopping ≡ true → (f (w.servers i)).stopping ≡ true)
      → (w.servers j).stopping ≡ true
      → ((change i f w).servers j).stopping ≡ true
  change-stopping i j f w h k = elim (Bool-cases (j == i)) [
    | inl e ↦ let same = (==_iff j i).0 e in rw e (h (rw⁻¹ same k))
    | inr e ↦ rw e k
  ]

  closed-stopping : (s : Server M) → (closed s).stopping ≡ true
  closed-stopping s = go s.stopping refl
    where
      go :
          (b : Bool)
          → s.stopping ≡ b
          → (if b then s else record s {
            stopping = true;
            live = false;
            url_token = [];
            session_token = [];
          }).stopping
            ≡ true
      go true e = e
      go false e = refl

  take_server-stopping :
      (i j : ℕ) (w : World M)
      → (w.servers j).stopping ≡ true
      → ((take_server i w).servers j).stopping ≡ true
  take_server-stopping i j w k = change-stopping i j (λ s. record s { taken = true }) w (λ e. e) k

  ended-stopping :
      (j : ℕ) (w : World M)
      → (w.servers j).stopping ≡ true
      → ((stop_ephemeral w).servers j).stopping ≡ true
  unfolding stop_ephemeral
  ended-stopping j w k = elim (Option-cases w.current) [
    | inl e ↦ rw e k
    | inr (i, e) ↦ rw e (take_server-stopping i j w k)
  ]

  if-stopping :
      (b : Bool) (j : ℕ) (v w : World M)
      → (v.servers j).stopping ≡ true
      → (w.servers j).stopping ≡ true
      → ((if b then v else w).servers j).stopping ≡ true
  if-stopping true j v w h k = h
  if-stopping false j v w h k = k

  elapsed-stopping :
      (i j : ℕ) (w : World M)
      → (w.servers j).stopping ≡ true
      → ((stop_if_current i w).servers j).stopping ≡ true
  unfolding stop_if_current
  elapsed-stopping i j w k = go w.current
    where
      go :
          (o : Option ℕ)
          → ((elim o as (λ _. World M) [
            | none ↦ w
            | some n ↦ if n == i then take_server i w else w
          ]).servers
              j).stopping
            ≡ true
      go none = k
      go (some n) = if-stopping (n == i) j (take_server i w) w (take_server-stopping i j w k) k

module _ {M : Type 0} (open_url : Text → Text) (decode : List ℕ → Text) where
  start-stopping :
      (url_token session_token : Text) (listen : Fallible Text Text) (memory : Option M) (j : ℕ)
      (w : World M)
      → AllSound w
      → (w.servers j).stopping ≡ true
      → ((start open_url url_token session_token listen memory w).1.servers j).stopping ≡ true
  unfolding start
  start-stopping url_token session_token (err e) memory j w h k = k
  start-stopping url_token session_token (ok base) memory j w h k =
      elim (Bool-cases (j == w.next)) [
        | inl e ↦
            let same = (==_iff j w.next).0 e in
            let unborn = (h j).unborn (omega arith) in
            let running = (h j).unstopped unborn.1 in absurd (cc)
        | inr e ↦ rw e k
      ]

  ensure-stopping :
      (url_token session_token : Text) (listen : Fallible Text Text) (memory : Option M) (j : ℕ)
      (w : World M)
      → AllSound w
      → (w.servers j).stopping ≡ true
      → ((ensure_ephemeral_with_memory open_url url_token session_token listen memory w).1.servers
          j).stopping
        ≡ true
  unfolding ensure_ephemeral_with_memory
  ensure-stopping url_token session_token listen memory j w h k = go w.current
    where
      go :
          (o : Option ℕ)
          → ((elim o as (λ _. Fallible Text Text × World M) [
            | none ↦ start open_url url_token session_token listen memory w
            | some i ↦
                if alive (w.servers i)
                then reuse open_url url_token session_token listen memory i w
                else start open_url url_token session_token listen memory w
          ]).1.servers
              j).stopping
            ≡ true
      go none = start-stopping url_token session_token listen memory j w h k
      go (some i) = elim (Bool-cases (alive (w.servers i))) [
        | inl e ↦ rw e (
            change-stopping i j (λ s. mint_url_token url_token (touch_idle (set_memory memory s))) w
              (λ q. q) k)
        | inr e ↦ rw e (start-stopping url_token session_token listen memory j w h k)
      ]

  step-stopping :
      {v w : World M} (j : ℕ)
      → Step open_url decode v w
      → AllSound v
      → (v.servers j).stopping ≡ true
      → (w.servers j).stopping ≡ true
  step-stopping j (ensured url_token session_token listen memory w) h k =
      ensure-stopping url_token session_token listen memory j w h k
  step-stopping j (requested req i w) h k =
      unfold auth_layer in
      change-stopping i j (λ s. touched (authorize decode req s)) w
        (λ e. (authorize-SameFlags (w.servers i) decode req).2 ∙ e) k
  step-stopping j (elapsed i w) h k = elapsed-stopping i j w k
  step-stopping j (ended w) h k = ended-stopping j w k
  step-stopping j (stopped i w t) h k =
      unfold stop in change-stopping i j closed w (λ _. closed-stopping (w.servers i)) k

  steps-stopping :
      {v w : World M} (j : ℕ)
      → Steps open_url decode v w
      → AllSound v
      → (v.servers j).stopping ≡ true
      → (w.servers j).stopping ≡ true
  steps-stopping j (done w) h k = k
  steps-stopping j (then_step ss s) h k =
      step-stopping j s (steps-AllSound open_url decode ss h) (steps-stopping j ss h k)

  tokenless-refuses :
      (req : Request) (s : Server M) → s.session_token ≡ [] → (authorize decode req s).0 ≡ err tt
  unfolding authorize is_empty
  tokenless-refuses req s e = rw e refl

  -- A server that was stopped never lets a request through again, with whatever token it comes, and
  -- whatever calls, requests and timers follow.
  pub stopped_refuses :
      (v w : World M) (i : ℕ) (req : Request)
      → Steps open_url decode first_world v
      → (v.servers i).stopping ≡ true
      → Steps open_url decode v w
      → (auth_layer decode req i w).0.0 ≡ err tt
  unfolding auth_layer
  stopped_refuses v w i req before h after =
      let sound = steps-AllSound open_url decode before first-AllSound in
      tokenless-refuses req (w.servers i)
        ((steps-AllSound open_url decode after sound i).tokenless (steps-stopping i after sound h))
