-- ===== src/Settings/Ephemeral.antt =====
-- crates/ibis-settings/src/ephemeral.rs: the servers that were started, the one that is current,
-- and what a request needs. A server is a number, as its `Arc` is a pointer; what is random or the
-- system's (tokens, the listener's address) is given to the operation that uses it.
pub mod Steps
pub mod Once
use ibis_assistant.Prelude.{
  ℕ, ◌+◌, Bool, true, false, not, Option, none, some, List, [], ◌∷◌, ◌++◌, ◌==◌, ◌&&◌,
  if◌then◌else◌,
}
use ibis_assistant.Effect.{Fallible, ok, err}
use ibis_assistant.Text.{Text, str, text_eq, is_empty, ascii_lower}
use ibis_assistant.Text.Trim.{trim}
use ibis_assistant.Text.Split.{split, split_once}
use ibis_assistant.Settings.Query.{query_value}
use ibis_assistant.Prelude.{map}

-- `EphemeralInner` with the memory cell. `taken` says that the server is current no longer and its
-- `stop` is to run; `idle_token` counts the idle timers.
pub record Server (M : Type 0) : Type 0 where
  pub url_token : Text
  pub session_token : Text
  pub base_url : Text
  pub live : Bool
  pub stopping : Bool
  pub idle_token : ℕ
  pub memory : Option M
  pub taken : Bool

-- the servers by their numbers, the next number, and `EPHEMERAL`
pub record World (M : Type 0) : Type 0 where
  pub servers : ℕ → Server M
  pub next : ℕ
  pub current : Option ℕ

pub record Request : Type 0 where
  pub is_post : Bool
  pub path : Text
  pub query : Option (List ℕ)
  pub cookie : Option Text
  pub token_header : Option Text

abbrev pub session_cookie_name : Text
session_cookie_name = str "ibis_settings_sess"

abbrev pub eq_ignore_ascii_case : Text → Text → Bool
eq_ignore_ascii_case a b = text_eq (map ascii_lower a) (map ascii_lower b)

abbrev pub named_value : Option (Text × Text) → Option Text
named_value none = none
named_value (some (name, value)) =
    if eq_ignore_ascii_case (trim name) session_cookie_name then some (trim value) else none

abbrev pub or_later : Option Text → Option Text → Option Text
or_later none later = later
or_later (some t) later = some t

unfoldable pub first_named : List Text → Option Text
first_named [] = none
first_named (part ∷ parts) =
    or_later (named_value (split_once b'=' (trim part))) (first_named parts)

unfoldable pub parse_cookie_token : Text → Option Text
unfolding first_named
parse_cookie_token raw = first_named (split b';' raw)

unfoldable pub cookie_token : Request → Option Text
unfolding parse_cookie_token
cookie_token req = elim (req.cookie) [ none ↦ none | some raw ↦ parse_cookie_token raw ]

abbrev pub filled : Text → Option Text
filled v = if is_empty v then none else some v

unfoldable pub header_token : Request → Option Text
header_token req = elim (req.token_header) [ none ↦ none | some v ↦ filled (trim v) ]

abbrev pub is_token : Text → Option Text → Bool
is_token token none = false
is_token token (some t) = text_eq t token

abbrev pub or_empty : Option Text → Text
or_empty none = []
or_empty (some t) = t

unfoldable pub set_cookie : Text → Text
set_cookie session =
    session_cookie_name ++ (b'=' ∷ (session ++ str "; Path=/; HttpOnly; SameSite=Strict"))

unfoldable pub settings_url : {M : Type 0} → (Text → Text) → Server M → Text
settings_url open_url s = open_url s.base_url ++ (str "?token=" ++ s.url_token)

module _ {M : Type 0} where
  abbrev pub alive : Server M → Bool
  alive s = s.live && not s.stopping

  -- a server is changed in its place
  abbrev pub change : ℕ → (Server M → Server M) → World M → World M
  change i f w = record w { servers = λ j. if j == i then f (w.servers i) else w.servers j }

  abbrev pub set_memory : Option M → Server M → Server M
  set_memory memory s = record s { memory = memory }

  abbrev pub touch_idle : Server M → Server M
  touch_idle s = record s { idle_token = s.idle_token + 1 }

  abbrev pub mint_url_token : Text → Server M → Server M
  mint_url_token token s = record s { url_token = token }

  -- `start`, once the listener is bound
  abbrev pub started : Option M → Text → Text → Text → Server M
  started memory url_token session_token base = record {
    url_token = url_token;
    session_token = session_token;
    base_url = base;
    live = true;
    stopping = false;
    idle_token = 1;
    memory = memory;
    taken = false;
  }

  abbrev pub put_server : Server M → World M → World M
  put_server s w = record {
    servers = λ j. if j == w.next then s else w.servers j;
    next = w.next + 1;
    current = some w.next;
  }

  -- `EphemeralServer::stop`
  abbrev pub closed : Server M → Server M
  closed s =
      if s.stopping
      then s
      else record s { stopping = true; live = false; url_token = []; session_token = [] }

  unfoldable pub stop : ℕ → World M → World M
  stop i w = change i closed w

  -- `stop_ephemeral` and `stop_if_current`, up to the call of `stop`
  abbrev pub take_server : ℕ → World M → World M
  take_server i w = record (change i (λ s. record s { taken = true }) w) { current = none }

  unfoldable pub stop_ephemeral : World M → World M
  stop_ephemeral w = elim (w.current) [ none ↦ w | some i ↦ take_server i w ]

  unfoldable pub stop_if_current : ℕ → World M → World M
  stop_if_current i w = elim (w.current) [
    | none ↦ w
    | some j ↦ if j == i then take_server i w else w
  ]

  module _ (open_url : Text → Text) (url_token session_token : Text) (listen : Fallible Text Text)
      (memory : Option M) where
    unfoldable pub start : World M → Fallible Text Text × World M
    start w = elim listen [
      | err e ↦ (err e, w)
      | ok base ↦
          let s = started memory url_token session_token base in
          (ok (settings_url open_url s), put_server s w)
    ]

    abbrev pub reuse : ℕ → World M → Fallible Text Text × World M
    reuse i w =
        let w1 = change i (λ s. mint_url_token url_token (touch_idle (set_memory memory s))) w in
        (ok (settings_url open_url (w1.servers i)), w1)

    unfoldable pub ensure_ephemeral_with_memory : World M → Fallible Text Text × World M
    unfolding start
    ensure_ephemeral_with_memory w = elim (w.current) [
      | none ↦ start w
      | some i ↦ if alive (w.servers i) then reuse i w else start w
    ]

  abbrev pub touched : {A : Type 0} → Fallible (Unit {0}) A × Server M → Server M
  touched (err _, s) = s
  touched (ok _, s) = touch_idle s

  module _ (decode : List ℕ → Text) where
    unfoldable pub authorize : Request → Server M → Fallible (Unit {0}) (Option Text) × Server M
    authorize req s =
        let q = trim (or_empty (query_value decode req.query (str "token"))) in
        if is_empty s.session_token
        then (err tt, s)
        else if not (is_empty q) && not (is_empty s.url_token) && text_eq q s.url_token
        then (ok (some (set_cookie s.session_token)), mint_url_token [] s)
        else if is_token s.session_token (cookie_token req)
        then (ok none, s)
        else if is_token s.session_token (header_token req)
        then (ok none, s)
        else (err tt, s)

    -- `auth_layer`: what the request is told, and whether a shutdown is scheduled behind it
    unfoldable pub auth_layer :
        Request → ℕ → World M → (Fallible (Unit {0}) (Option Text) × Bool) × World M
    unfolding authorize
    auth_layer req i w =
        let authorized = authorize req (w.servers i) in
        (
          (authorized.0, req.is_post && text_eq req.path (str "/api/v1/settings")),
          change i (λ s. touched (authorize req s)) w,
        )
