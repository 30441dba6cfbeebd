-- ===== src/Settings/Ephemeral/Steps/Sound.antt =====
-- What holds of every settings server after every order of steps (ephemeral.rs).
use ibis_assistant.Prelude.{
  ◌≡◌, refl, ◌∙◌, ap, ℕ, Bool, true, false, not, Option, none, some, List, [], ◌==◌, ◌&&◌, ◌⊎◌, inl,
  inr, if◌then◌else◌, Bool-cases, ==_iff,
}
use ibis_assistant.Effect.{Fallible, ok, err}
use ibis_assistant.Text.{Text, str, text_eq, is_empty}
use ibis_assistant.Text.Trim.{trim}
use ibis_assistant.Settings.Query.{query_value}
use ibis_assistant.Settings.Ephemeral.{
  Server, World, Request, alive, closed, stop, take_server, stop_ephemeral, stop_if_current, start,
  reuse, ensure_ephemeral_with_memory, auth_layer, touched, authorize, is_token, cookie_token,
  header_token, or_empty, set_cookie, mint_url_token, touch_idle, set_memory,
}
use ibis_assistant.Settings.Ephemeral.Steps.{
  Step, ensured, requested, elapsed, ended, stopped, Steps, done, then_step, AllSound, first_world,
  first-AllSound, same_flags-IsSound, change-AllSound, closed-IsSound, take_server-AllSound,
  put_server-AllSound,
}

-- a request changes no flag of a server, and not its session
abbrev pub SameFlags : {M : Type 0} → Server M → Server M → Type 0
SameFlags s t =
    (t.session_token ≡ s.session_token)
    × (t.live ≡ s.live)
    × (t.stopping ≡ s.stopping)
    × (t.taken ≡ s.taken)

-- whatever the tests of `authorize` say
tests-SameFlags :
    {M : Type 0} (s : Server M) (a b c d : Bool)
    → SameFlags s (
        touched (
          if a
          then (err tt, s)
          else if b
          then (ok (some (set_cookie s.session_token)), mint_url_token [] s)
          else if c
          then (ok none, s)
          else if d
          then (ok none, s)
          else (err tt, s)))
tests-SameFlags s true b c d = (refl, refl, refl, refl)
tests-SameFlags s false true c d = (refl, refl, refl, refl)
tests-SameFlags s false false true d = (refl, refl, refl, refl)
tests-SameFlags s false false false true = (refl, refl, refl, refl)
tests-SameFlags s false false false false = (refl, refl, refl, refl)

pub authorize-SameFlags :
    {M : Type 0} (s : Server M) (decode : List ℕ → Text) (req : Request)
    → SameFlags s (touched (authorize decode req s))
unfolding authorize
authorize-SameFlags s decode req =
    let q = trim (or_empty (query_value decode req.query (str "token"))) in
    tests-SameFlags s (is_empty s.session_token)
      (not (is_empty q) && not (is_empty s.url_token) && text_eq q s.url_token)
      (is_token s.session_token (cookie_token req)) (is_token s.session_token (header_token req))

module _ {M : Type 0} where
  ended-AllSound : (w : World M) → AllSound w → AllSound (stop_ephemeral w)
  unfolding stop_ephemeral
  ended-AllSound w h = go w.current refl
    where
      go :
          (o : Option ℕ) → w.current ≡ o → AllSound (elim o [ none ↦ w | some i ↦ take_server i w ])
      go none e = h
      go (some i) e = take_server-AllSound i w e h

  elapsed-AllSound : (i : ℕ) (w : World M) → AllSound w → AllSound (stop_if_current i w)
  unfolding stop_if_current
  elapsed-AllSound i w h = go w.current refl
    where
      go :
          (o : Option ℕ)
          → w.current ≡ o
          → AllSound (elim o [ none ↦ w | some j ↦ if j == i then take_server i w else w ])
      go none e = h
      go (some j) e = elim (Bool-cases (j == i)) [
        | inl q ↦ rw q (take_server-AllSound i w (e ∙ ap some ((==_iff j i).0 q)) h)
        | inr q ↦ rw q h
      ]

module _ {M : Type 0} (open_url : Text → Text) (decode : List ℕ → Text) where
  request-AllSound :
      (req : Request) (i : ℕ) (w : World M) → AllSound w → AllSound (auth_layer decode req i w).1
  unfolding auth_layer
  request-AllSound req i w h =
      let f = authorize-SameFlags (w.servers i) decode req in
      change-AllSound i (λ s. touched (authorize decode req s)) w
        (same_flags-IsSound w.current w.next i (w.servers i)
          (touched (authorize decode req (w.servers i))) f.0 f.1 f.2 f.3 (h i))
        h

  start-AllSound :
      (url_token session_token : Text) (listen : Fallible Text Text) (memory : Option M)
      (w : World M)
      → ((i : ℕ) → w.current ≡ some i → alive (w.servers i) ≡ false)
      → AllSound w
      → AllSound (start open_url url_token session_token listen memory w).1
  unfolding start
  start-AllSound url_token session_token (err e) memory w a h = h
  start-AllSound url_token session_token (ok base) memory w a h =
      put_server-AllSound memory url_token session_token base w a h

  ensure-AllSound :
      (url_token session_token : Text) (listen : Fallible Text Text) (memory : Option M)
      (w : World M)
      → AllSound w
      → AllSound (ensure_ephemeral_with_memory open_url url_token session_token listen memory w).1
  unfolding ensure_ephemeral_with_memory
  ensure-AllSound url_token session_token listen memory w h = go w.current refl
    where
      go :
          (o : Option ℕ)
          → w.current ≡ o
          → AllSound
              (elim o as (λ _. Fallible Text Text × World M) [
                | none ↦ start open_url url_token session_token listen memory w
                | some i ↦
                    if alive (w.servers i)
                    then reuse open_url url_token session_token listen memory i w
                    else start open_url url_token session_token listen memory w
              ]).1
      go none e = start-AllSound url_token session_token listen memory w (λ i k. cc) h
      go (some i) e = elim (Bool-cases (alive (w.servers i))) [
        | inl q ↦ rw q (
            change-AllSound i (λ s. mint_url_token url_token (touch_idle (set_memory memory s))) w
              (same_flags-IsSound w.current w.next i (w.servers i)
                (mint_url_token url_token (touch_idle (set_memory memory (w.servers i)))) refl refl
                refl refl (h i))
              h)
        | inr q ↦ rw q (
            start-AllSound url_token session_token listen memory w
              (λ j k. let same : j ≡ i = cc in rw same q) h)
      ]

  step-AllSound : {v w : World M} → Step open_url decode v w → AllSound v → AllSound w
  step-AllSound (ensured url_token session_token listen memory w) h =
      ensure-AllSound url_token session_token listen memory w h
  step-AllSound (requested req i w) h = request-AllSound req i w h
  step-AllSound (elapsed i w) h = elapsed-AllSound i w h
  step-AllSound (ended w) h = ended-AllSound w h
  step-AllSound (stopped i w t) h =
      unfold stop in
      change-AllSound i closed w (closed-IsSound w.current w.next i (w.servers i) t (h i)) h

  pub steps-AllSound : {v w : World M} → Steps open_url decode v w → AllSound v → AllSound w
  steps-AllSound (done w) h = h
  steps-AllSound (then_step ss s) h = step-AllSound s (steps-AllSound ss h)

  -- However calls, requests and timers interleave, a server that still serves is the current one or
  -- is being stopped, so that there are never two of them that nobody stops.
  pub one_listener :
      (w : World M) (i : ℕ)
      → Steps open_url decode first_world w
      → (w.servers i).live ≡ true
      → (w.current ≡ some i) ⊎ ((w.servers i).taken ≡ true)
  one_listener w i ss l = (steps-AllSound ss first-AllSound i).tracked l
