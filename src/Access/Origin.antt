-- ===== src/Access/Origin.antt =====
-- The gate on the Origin header (ibis-httpserver, origin.rs).
pub mod Url
use ibis_assistant.Prelude.{
  ℕ, ◌≡◌, refl, Bool, true, false, not, ◌&&◌, ◌||◌, Option, none, some, List, [], ◌∷◌, ◌++◌, map,
  all, any, ◌==◌, if◌then◌else◌,
}
use ibis_assistant.Effect.{Fallible, ok, err}
use ibis_assistant.Text.{
  Text, str, text_eq, is_empty, is_digit, is_lower, is_upper, is_alphanumeric, ascii_lower,
}
use ibis_assistant.Text.Trim.{trim}
use ibis_assistant.Text.Split.{strip_prefix, split_once, rsplit_once, cons_left}

-- at the first `://`
unfoldable pub split_separator : Text → Option (Text × Text)
split_separator [] = none
split_separator (c ∷ s) = elim (strip_prefix (str "://") (c ∷ s)) [
  | some rest ↦ some ([], rest)
  | none ↦ cons_left c (split_separator s)
]

abbrev pub is_alphabetic : ℕ → Bool
is_alphabetic c = is_lower c || is_upper c

abbrev pub is_scheme_char : ℕ → Bool
is_scheme_char c = is_alphanumeric c || c == b'+' || c == b'-' || c == b'.'

abbrev pub scheme_matches : Text → Bool
scheme_matches [] = false
scheme_matches (c ∷ s) = is_alphabetic c && all is_scheme_char s

abbrev with_scheme : Option (Text × Text) → Option (Text × Text)
with_scheme none = none
with_scheme (some (scheme, rest)) = if scheme_matches scheme then some (scheme, rest) else none

unfoldable pub split_scheme : Text → Option (Text × Text)
split_scheme origin = with_scheme (split_separator origin)

abbrev pub ends_authority : ℕ → Bool
ends_authority c = c == b'/' || c == b'?' || c == b'#'

-- up to the path, the query or the fragment
unfoldable pub take_authority : Text → Text
take_authority [] = []
take_authority (c ∷ s) = if ends_authority c then [] else c ∷ take_authority s

-- behind the last `@`
abbrev pub drop_userinfo : Text → Option (Text × Text) → Text
drop_userinfo authority none = authority
drop_userinfo authority (some (_, host)) = host

-- the digits of a port, behind its colon
abbrev pub is_port : Text → Bool
is_port port = not (is_empty port) && all is_digit port

abbrev valid_port_digits : Option Text → Bool
valid_port_digits none = false
valid_port_digits (some port) = is_port port

unfoldable pub valid_port : Text → Bool
valid_port rest = valid_port_digits (strip_prefix (b':' ∷ []) rest)

-- an address in brackets, and what is behind them
abbrev bracket_host : Option (Text × Text) → Fallible (Unit {0}) Text
bracket_host none = err tt
bracket_host (some (host, rest)) =
    if not (is_empty rest) && not (valid_port rest) then err tt else ok host

-- without the port behind the last colon
abbrev pub colon_host : Text → Option (Text × Text) → Fallible (Unit {0}) Text
colon_host authority none = ok authority
colon_host authority (some (host, port)) =
    if not (valid_port (b':' ∷ port)) then err tt else ok host

unfoldable pub authority_host : Text → Fallible (Unit {0}) Text
authority_host [] = colon_host [] (rsplit_once b':' [])
authority_host (c ∷ s) =
    if c == b'['
    then bracket_host (split_once b']' s)
    else colon_host (c ∷ s) (rsplit_once b':' (c ∷ s))

unfoldable pub origin_host : Text → Fallible (Unit {0}) Text
origin_host rest =
    let authority = take_authority rest in
    authority_host (drop_userinfo authority (rsplit_once b'@' authority))

abbrev pub is_loopback_name : Text → Bool
is_loopback_name host =
    text_eq host (str "localhost") || text_eq host (str "127.0.0.1") || text_eq host (str "::1")

-- a host that is bound, and is no wildcard
abbrev pub is_bind_host : Text → Text → Bool
is_bind_host bind host =
    not (is_empty bind)
    && not (text_eq bind (str "0.0.0.0"))
    && not (text_eq bind (str "::"))
    && text_eq host bind

abbrev pub is_http : Text → Bool
is_http scheme = text_eq scheme (str "http") || text_eq scheme (str "https")

abbrev pub host_allowed : Text → Fallible (Unit {0}) Text → Bool
host_allowed bind_host (err _) = false
host_allowed bind_host (ok raw) =
    let host = map ascii_lower raw in
    is_loopback_name host || is_bind_host (map ascii_lower (trim bind_host)) host

abbrev pub scheme_allowed : Text → Option (Text × Text) → Bool
scheme_allowed bind_host none = true
scheme_allowed bind_host (some (scheme, rest)) =
    if not (is_http (map ascii_lower scheme))
    then true
    else host_allowed bind_host (origin_host rest)

unfoldable pub origin_allowed : Text → Text → Bool
origin_allowed raw bind_host =
    let origin = trim raw in
    if is_empty origin || text_eq (map ascii_lower origin) (str "null")
    then true
    else scheme_allowed bind_host (split_scheme origin)
