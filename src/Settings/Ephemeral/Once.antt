-- ===== src/Settings/Ephemeral/Once.antt =====
-- The token in the link opens one session, and the session's cookie is read back (ephemeral.rs).
use ibis_assistant.Prelude.{
  ◌≡◌, refl, ap, ◌∙◌, ◌⊎◌, inl, inr, Bool-cases, ℕ, Bool, true, false, not, Option, none, some,
  List, [], ◌∷◌, ◌++◌, any, ◌&&◌, if◌then◌else◌,
}
use ibis_assistant.Effect.{Fallible, ok, err}
use ibis_assistant.Text.{Text, str, text_eq, text_eq_refl, is_empty}
use ibis_assistant.Text.Run.{text_runs}
use ibis_assistant.Text.Trim.{trim, trim_black, is_whitespace}
use ibis_assistant.Text.Split.{split_once, contains, split_none}
use ibis_assistant.Settings.Query.{query_value}
use ibis_assistant.Settings.Ephemeral.{
  Server, Request, authorize, is_token, cookie_token, header_token, or_empty, set_cookie,
  mint_url_token, touched, closed, session_cookie_name, parse_cookie_token, first_named,
  named_value,
}

-- the tests of `authorize`, of which the last two look at a session
abbrev tested :
    {M : Type 0}
    → Server M
    → Bool
    → Bool
    → Bool
    → Bool
    → Fallible (Unit {0}) (Option Text) × Server M
tested s a b c d =
    if a
    then (err tt, s)
    else if b
    then (ok (some (set_cookie s.session_token)), mint_url_token [] s)
    else if c
    then (ok none, s)
    else if d
    then (ok none, s)
    else (err tt, s)

module _ {M : Type 0} (s : Server M) where
  tested-refuses :
      (a b c d : Bool) → b ≡ false → c ≡ false → d ≡ false → (tested s a b c d).0 ≡ err tt
  tested-refuses true b c d p q r = refl
  tested-refuses false b c d p q r = rw (p, q, r) refl

  tested-spends :
      (a b c d : Bool) (cookie : Option Text)
      → c ≡ false
      → d ≡ false
      → (tested s a b c d).0 ≡ ok cookie
      → (tested s a b c d).1 ≡ mint_url_token [] s
  tested-spends true b c d cookie q r e = cc
  tested-spends false true c d cookie q r e = refl
  tested-spends false false c d cookie q r e = cc

and_false : (a b c : Bool) → b ≡ false → (a && b && c) ≡ false
and_false true b c h = rw h refl
and_false false b c h = refl

abbrev param : (List ℕ → Text) → Request → Text
param decode req = trim (or_empty (query_value decode req.query (str "token")))

-- what may happen to a server before a new token is made: requests that are answered, and a stop
pub data Happens : Type 0 where
  asked : Request → Happens
  stopped : Happens

module _ {M : Type 0} (decode : List ℕ → Text) where
  -- nothing of a session comes with a request
  abbrev pub HasNoSession : Server M → Request → Type 0
  HasNoSession s req =
      (is_token s.session_token (cookie_token req) ≡ false)
      × (is_token s.session_token (header_token req) ≡ false)

  -- with the link's token used up
  spent-refuses :
      (s : Server M) (req : Request)
      → HasNoSession s req
      → s.url_token ≡ []
      → (authorize decode req s).0 ≡ err tt
  unfolding authorize
  spent-refuses s req k e =
      tested-refuses s (is_empty s.session_token)
        (not (is_empty (param decode req))
          && not (is_empty s.url_token)
          && text_eq (param decode req) s.url_token)
        (is_token s.session_token (cookie_token req)) (is_token s.session_token (header_token req))
        (and_false (not (is_empty (param decode req))) (not (is_empty s.url_token)) _
          (rw e (unfold is_empty in refl)))
        k.0 k.1

  granted-spends :
      (s : Server M) (req : Request) (cookie : Option Text)
      → HasNoSession s req
      → (authorize decode req s).0 ≡ ok cookie
      → (authorize decode req s).1 ≡ mint_url_token [] s
  unfolding authorize
  granted-spends s req cookie k e =
      tested-spends s (is_empty s.session_token)
        (not (is_empty (param decode req))
          && not (is_empty s.url_token)
          && text_eq (param decode req) s.url_token)
        (is_token s.session_token (cookie_token req)) (is_token s.session_token (header_token req))
        cookie k.0 k.1 e

  abbrev pub happened : List Happens → Server M → Server M
  happened [] s = s
  happened (asked req ∷ later) s = happened later (touched (authorize decode req s))
  happened (stopped ∷ later) s = happened later (closed s)

  tested-unlinked :
      (s : Server M) (a b c d : Bool) → s.url_token ≡ [] → (tested s a b c d).1.url_token ≡ []
  tested-unlinked s true b c d e = e
  tested-unlinked s false true c d e = refl
  tested-unlinked s false false true d e = e
  tested-unlinked s false false false true e = e
  tested-unlinked s false false false false e = e

  touched-url_token :
      {A : Type 0} (p : Fallible (Unit {0}) A × Server M) → (touched p).url_token ≡ p.1.url_token
  touched-url_token (ok a, s) = refl
  touched-url_token (err e, s) = refl

  asked-unlinked :
      (s : Server M) (req : Request)
      → s.url_token ≡ []
      → (touched (authorize decode req s)).url_token ≡ []
  unfolding authorize
  asked-unlinked s req e =
      touched-url_token (authorize decode req s)
      ∙ tested-unlinked s (is_empty s.session_token)
          (not (is_empty (param decode req))
            && not (is_empty s.url_token)
            && text_eq (param decode req) s.url_token)
          (is_token s.session_token (cookie_token req))
          (is_token s.session_token (header_token req)) e

  closed-unlinked : (s : Server M) → s.url_token ≡ [] → (closed s).url_token ≡ []
  closed-unlinked s e = go s.stopping
    where
      go :
          (b : Bool)
          → (if b then s else record s {
            stopping = true;
            live = false;
            url_token = [];
            session_token = [];
          }).url_token
            ≡ []
      go true = e
      go false = refl

  happened-unlinked :
      (later : List Happens) (s : Server M) → s.url_token ≡ [] → (happened later s).url_token ≡ []
  happened-unlinked [] s e = e
  happened-unlinked (asked req ∷ later) s e =
      happened-unlinked later (touched (authorize decode req s)) (asked-unlinked s req e)
  happened-unlinked (stopped ∷ later) s e = happened-unlinked later (closed s) (closed-unlinked s e)

  -- a request comes with the token of the link
  abbrev pub HasLink : Server M → Request → Type 0
  HasLink s req = (is_empty s.url_token ≡ false) × (param decode req ≡ s.url_token)

  linked-spends :
      (s : Server M) (req : Request) (cookie : Option Text)
      → HasLink s req
      → (authorize decode req s).0 ≡ ok cookie
      → (authorize decode req s).1 ≡ mint_url_token [] s
  unfolding authorize
  linked-spends s req cookie (n, e) h = elim (Bool-cases (is_empty s.session_token)) [
    | inl k ↦ absurd (cc)
    | inr k ↦ rw (k, e, n, text_eq_refl s.url_token) refl
  ]

  let_in-spends :
      (s : Server M) (req : Request) (cookie : Option Text)
      → HasNoSession s req ⊎ HasLink s req
      → (authorize decode req s).0 ≡ ok cookie
      → (authorize decode req s).1 ≡ mint_url_token [] s
  let_in-spends s req cookie (inl k) h = granted-spends s req cookie k h
  let_in-spends s req cookie (inr k) h = linked-spends s req cookie k h

  -- A link is used once: where a request was let in that has no session, or that comes with the
  -- link's token whatever else it comes with, no request without a session is let in, whatever
  -- requests and stops lie between, until a new token is made.
  pub url_token_once :
      (s : Server M) (req : Request) (cookie : Option Text) (between : List Happens)
      (again : Request)
      → HasNoSession s req ⊎ HasLink s req
      → (authorize decode req s).0 ≡ ok cookie
      → HasNoSession (happened (asked req ∷ between) s) again
      → (authorize decode again (happened (asked req ∷ between) s)).0 ≡ err tt
  url_token_once s req cookie between again h e k =
      spent-refuses (happened (asked req ∷ between) s) again k (
        happened-unlinked between (touched (authorize decode req s)) (
          touched-url_token (authorize decode req s)
          ∙ ap (λ t. t.url_token) (let_in-spends s req cookie h e)))

abbrev cookie_of : Text → Text
cookie_of session = session_cookie_name ++ (b'=' ∷ session)

named-cookie_of :
    (session : Text) → named_value (split_once b'=' (cookie_of session)) ≡ some (trim session)
unfolding text_runs
named-cookie_of session = refl

-- The cookie that is set is read back from a request with it alone, whatever the session's name is,
-- if it has neither a space nor a semicolon in it.
parse_cookie_token-session :
    (session : Text)
    → any is_whitespace session ≡ false
    → contains b';' session ≡ false
    → parse_cookie_token (cookie_of session) ≡ some session
unfolding parse_cookie_token first_named
parse_cookie_token-session session h k = rw (
  split_none b';' (cookie_of session) k,
  trim_black (cookie_of session) (unfold is_whitespace in h),
  named-cookie_of session,
  trim_black session h,
)
