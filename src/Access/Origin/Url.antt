-- ===== src/Access/Origin/Url.antt =====
-- The gate against the parts of a URL: no user info, port or path changes whose origin it is
-- (origin.rs).
use ibis_assistant.Prelude.{
  ℕ, ◌≡◌, refl, ap, sym, ◌∙◌, Bool, true, false, ◌||◌, Option, none, some, [], ◌∷◌, ◌++◌, map, all,
  any, any-append-false, arith, ◌==◌, if◌then◌else◌, inl, inr, Bool-cases,
}
use ibis_assistant.Effect.{Fallible, ok, err}
use ibis_assistant.Text.{
  Text, str, text_eq, text_eq_iff, is_empty, is_digit, is_lower, is_upper, is_alphanumeric,
  ascii_lower,
}
use ibis_assistant.Text.Trim.{trim}
use ibis_assistant.Text.Split.{contains, cons_left, strip_prefix, rsplit_once, rsplit_once-append}
use ibis_assistant.Claims.Scalar.Plain.{contains-append}
use ibis_assistant.Access.Origin.{
  split_separator, split_scheme, ends_authority, take_authority, valid_port, colon_host,
  authority_host, origin_host, is_loopback_name, is_bind_host, is_http, host_allowed,
  scheme_allowed, origin_allowed,
}

-- what may follow an authority
abbrev pub is_tail : Text → Bool
is_tail [] = true
is_tail (c ∷ _) = ends_authority c

abbrev pub starts_bracket : Text → Bool
starts_bracket [] = false
starts_bracket (c ∷ _) = c == b'['

pub take_authority-append :
    (a path : Text)
    → any ends_authority a ≡ false
    → is_tail path ≡ true
    → take_authority (a ++ path) ≡ a
unfolding take_authority
take_authority-append [] [] h t = refl
take_authority-append [] (c ∷ path) h t = rw t
take_authority-append (c ∷ a) path h t = ground (arith, take_authority-append a path)

digit-plain :
    (c : ℕ)
    → is_digit c ≡ true
    → (ends_authority c ≡ false) × ((c == b':') ≡ false) × ((c == b'@') ≡ false)
unfolding is_digit
digit-plain c h = (ground arith, ground arith, ground arith)

digits-tail : (s : Text) → all is_digit s ≡ true → any ends_authority s ≡ false
digits-tail [] h = refl
digits-tail (c ∷ s) h = ground (arith, digit-plain c, digits-tail s)

digits-no_colon : (s : Text) → all is_digit s ≡ true → contains b':' s ≡ false
digits-no_colon [] h = refl
digits-no_colon (c ∷ s) h = ground (arith, digit-plain c, digits-no_colon s)

digits-no_at : (s : Text) → all is_digit s ≡ true → contains b'@' s ≡ false
digits-no_at [] h = refl
digits-no_at (c ∷ s) h = ground (arith, digit-plain c, digits-no_at s)

authority_host-plain :
    (s : Text) → starts_bracket s ≡ false → authority_host s ≡ colon_host s (rsplit_once b':' s)
unfolding authority_host
authority_host-plain [] h = refl
authority_host-plain (c ∷ s) h = rw h

bracket-append :
    (a : Text) (b : Text) → starts_bracket a ≡ false → starts_bracket (a ++ (b':' ∷ b)) ≡ false
bracket-append [] b h = refl
bracket-append (c ∷ a) b h = h

authority_host-port :
    (host : Text) (p : ℕ) (port : Text)
    → starts_bracket host ≡ false
    → all is_digit (p ∷ port) ≡ true
    → authority_host (host ++ (b':' ∷ p ∷ port)) ≡ ok host
unfolding valid_port strip_prefix is_empty
authority_host-port host p port b d =
    authority_host-plain (host ++ (b':' ∷ p ∷ port)) (bracket-append host (p ∷ port) b)
    ∙ (ap (colon_host (host ++ (b':' ∷ p ∷ port)))
          (rsplit_once-append b':' host (p ∷ port) (digits-no_colon (p ∷ port) d))
        ∙ rw d)

origin_allowed-http :
    (rest bind : Text)
    → trim (str "http://" ++ rest) ≡ str "http://" ++ rest
    → origin_allowed (str "http://" ++ rest) bind ≡ host_allowed bind (origin_host rest)
unfolding origin_allowed split_scheme split_separator strip_prefix text_eq is_empty ascii_lower
    is_upper is_lower is_alphanumeric is_digit
origin_allowed-http rest bind t = rw t

module _ (user host : Text) (p : ℕ) (port path : Text)
    (user_plain : any ends_authority user ≡ false) (host_plain : any ends_authority host ≡ false)
    (host_no_at : contains b'@' host ≡ false) (host_no_bracket : starts_bracket host ≡ false)
    (port_digits : all is_digit (p ∷ port) ≡ true) (path_tail : is_tail path ≡ true) where
  abbrev pub host_port : Text
  host_port = host ++ (b':' ∷ p ∷ port)

  abbrev pub authority : Text
  authority = user ++ (b'@' ∷ host_port)

  authority-plain : any ends_authority authority ≡ false
  authority-plain = any-append-false ends_authority user (b'@' ∷ host_port) user_plain (
      any-append-false ends_authority host (b':' ∷ p ∷ port) host_plain
        (digits-tail (p ∷ port) port_digits))

  origin_host-parts : origin_host (authority ++ path) ≡ ok host
  unfolding origin_host
  origin_host-parts =
      rw
        (
          take_authority-append authority path authority-plain path_tail,
          rsplit_once-append b'@' user host_port (
              contains-append b'@' host (b':' ∷ p ∷ port)
              ∙ rw (host_no_at, digits-no_at (p ∷ port) port_digits)),
        )
        (authority_host-port host p port host_no_bracket port_digits)

  -- A browser's origin is judged by its host alone, in lower case: by neither the user info in
  -- front of it, which may hold any host's name, nor the port, nor what follows the authority.
  origin_allowed-parts :
      (bind : Text)
      → trim (str "http://" ++ (authority ++ path)) ≡ str "http://" ++ (authority ++ path)
      → origin_allowed (str "http://" ++ (authority ++ path)) bind ≡ (
          is_loopback_name (map ascii_lower host)
          || is_bind_host (map ascii_lower (trim bind)) (map ascii_lower host))
  origin_allowed-parts bind t =
      origin_allowed-http (authority ++ path) bind t ∙ ap (host_allowed bind) origin_host-parts

-- a name that stands for every address
abbrev pub is_wildcard : Text → Bool
is_wildcard bind = is_empty bind || text_eq bind (str "0.0.0.0") || text_eq bind (str "::")

host_allowed-wildcard :
    (bind : Text) (h : Fallible (Unit {0}) Text)
    → is_wildcard (map ascii_lower (trim bind)) ≡ true
    → host_allowed bind h ≡ true
    → (host : Text) × (h ≡ ok host) × (is_loopback_name (map ascii_lower host) ≡ true)
host_allowed-wildcard bind (err _) w a = cc
host_allowed-wildcard bind (ok host) w a = (host, refl, ground arith)

lower-colon : (s : Text) → contains b':' (map ascii_lower s) ≡ contains b':' s
unfolding ascii_lower is_upper
lower-colon [] = refl
lower-colon (c ∷ s) = ground (arith, lower-colon s)

null-no_colon :
    (s : Text) → text_eq (map ascii_lower s) (str "null") ≡ true → contains b':' s ≡ false
null-no_colon s h =
    sym (lower-colon s) ∙ ap (contains b':') ((text_eq_iff (map ascii_lower s) (str "null")).0 h)

cons_left-none : (c : ℕ) (o : Option (Text × Text)) → o ≡ none → cons_left c o ≡ none
cons_left-none c none h = refl
cons_left-none c (some _) h = cc

split_separator-none : (s : Text) → contains b':' s ≡ false → split_separator s ≡ none
unfolding split_separator strip_prefix
split_separator-none [] h = refl
split_separator-none (c ∷ s) h =
    ground (arith, cons_left-none c (split_separator s), split_separator-none s)

null-no_scheme :
    (s : Text) → text_eq (map ascii_lower s) (str "null") ≡ true → split_scheme s ≡ none
unfolding split_scheme
null-no_scheme s h = rw (split_separator-none s (null-no_colon s h))

empty-no_scheme : (s : Text) → is_empty s ≡ true → split_scheme s ≡ none
unfolding is_empty
empty-no_scheme [] h = unfold split_scheme split_separator in refl
empty-no_scheme (c ∷ s) h = cc

admitted :
    (origin bind scheme rest : Text)
    → is_empty origin ≡ false
    → text_eq (map ascii_lower origin) (str "null") ≡ false
    → split_scheme origin ≡ some (scheme, rest)
    → is_http (map ascii_lower scheme) ≡ true
    → (if is_empty origin || text_eq (map ascii_lower origin) (str "null")
        then true
        else scheme_allowed bind (split_scheme origin))
      ≡ true
    → host_allowed bind (origin_host rest) ≡ true
admitted origin bind scheme rest e n s i a = sym (rw (e, n, s, i)) ∙ a

-- Where the server is bound to every address or to none in particular, a browser's origin passes
-- only if its host is loopback.
pub wildcard_admits_loopback :
    (raw bind scheme rest : Text)
    → is_wildcard (map ascii_lower (trim bind)) ≡ true
    → split_scheme (trim raw) ≡ some (scheme, rest)
    → is_http (map ascii_lower scheme) ≡ true
    → origin_allowed raw bind ≡ true
    → (host : Text) × (origin_host rest ≡ ok host)
      × (is_loopback_name (map ascii_lower host) ≡ true)
unfolding origin_allowed
wildcard_admits_loopback raw bind scheme rest w s i a =
    host_allowed-wildcard bind (origin_host rest) w (elim (Bool-cases (is_empty (trim raw))) [
      | inl e ↦ cc (empty-no_scheme (trim raw) e)
      | inr e ↦ elim (Bool-cases (text_eq (map ascii_lower (trim raw)) (str "null"))) [
        | inl n ↦ cc (null-no_scheme (trim raw) n)
        | inr n ↦ admitted (trim raw) bind scheme rest e n s i a
      ]
    ])
