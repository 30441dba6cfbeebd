-- ===== src/Access/Peer.antt =====
-- Whether a peer is loopback (ibis-core, auth.rs, `split_peer_host`, `is_loopback_peer`). The
-- IPv4 half of the standard library's `str::parse::<IpAddr>` is written out; `v6_loopback` stands
-- for its IPv6 half, followed by `is_loopback`.
use ibis_assistant.Prelude.{
  ℕ, ◌+◌, ◌*◌, ◌-◌, ◌≡◌, refl, ap, ◌∙◌, Bool, true, false, not, ◌&&◌, ◌||◌, Option, none, some,
  List, [], ◌∷◌, ◌++◌, all, any, any-append-false, leb, ◌==◌, arith, if◌then◌else◌,
}
use ibis_assistant.Text.{Text, is_empty, is_digit}
use ibis_assistant.Text.Trim.{is_whitespace, trim, trim_black}
use ibis_assistant.Text.Split.{
  contains, split_once, rsplit_once, split, rsplit_once-none, rsplit_once-append,
}

abbrev is_host_char : ℕ → Bool
is_host_char c = is_digit c || c == b'.' || c == b':'

-- without a port that follows an address of digits
abbrev pub cut_port : Text → Option (Text × Text) → Text
cut_port addr none = addr
cut_port addr (some (host, port)) =
    if not (is_empty port) && all is_host_char host then host else addr

-- inside the brackets
abbrev bracketed : Text → Option (Text × Text) → Text
bracketed other none = other
bracketed other (some (host, _)) = host

unfoldable pub split_peer_host : Text → Text
split_peer_host [] = cut_port [] (rsplit_once b':' [])
split_peer_host (c ∷ s) =
    let plain = cut_port (c ∷ s) (rsplit_once b':' (c ∷ s)) in
    if c == b'[' then bracketed plain (split_once b']' s) else plain

-- one part of an IPv4 address: up to three digits, none a leading zero, up to 255
unfoldable pub octet : Text → Option ℕ
octet (a ∷ []) = if is_digit a then some (a - b'0') else none
octet (a ∷ b ∷ []) =
    if is_digit a && is_digit b && not (a == b'0')
    then some ((a - b'0') * 10 + (b - b'0'))
    else none
octet (a ∷ b ∷ c ∷ []) =
    let n = (a - b'0') * 100 + (b - b'0') * 10 + (c - b'0') in
    if is_digit a && is_digit b && is_digit c && not (a == b'0') && leb n 255 then some n else none
octet _ = none

abbrev loopback_octets : Option ℕ → Option ℕ → Option ℕ → Option ℕ → Option Bool
loopback_octets (some a) (some _) (some _) (some _) = some (a == 127)
loopback_octets _ _ _ _ = none

abbrev v4_parts : List Text → Option Bool
v4_parts (a ∷ b ∷ c ∷ d ∷ []) = loopback_octets (octet a) (octet b) (octet c) (octet d)
v4_parts _ = none

-- `parse::<Ipv4Addr>` and `is_loopback`
unfoldable pub v4_loopback : Text → Option Bool
v4_loopback s = v4_parts (split b'.' s)

abbrev pub is_true : Option Bool → Bool
is_true none = false
is_true (some b) = b

abbrev pub or_option : Option Bool → Option Bool → Option Bool
or_option none b = b
or_option (some a) b = some a

module _ (v6_loopback : Text → Option Bool) where
  unfoldable pub is_loopback_peer : Text → Bool
  is_loopback_peer remote_addr =
      let host = split_peer_host (trim remote_addr) in
      is_true (or_option (v4_loopback host) (v6_loopback host))

abbrev pub is_v4_char : ℕ → Bool
is_v4_char c = is_digit c || c == b'.'

v4_char-host : (c : ℕ) → is_v4_char c ≡ true → ((c == b':') ≡ false) × ((c == b'[') ≡ false)
unfolding is_digit
v4_char-host c h = (ground arith, ground arith)

v4_chars-host : (s : Text) → all is_v4_char s ≡ true → all is_host_char s ≡ true
v4_chars-host [] h = refl
v4_chars-host (c ∷ s) h = ground (arith, v4_chars-host s)

host-no_colon : (s : Text) → all is_v4_char s ≡ true → contains b':' s ≡ false
host-no_colon [] h = refl
host-no_colon (c ∷ s) h = ground (arith, v4_char-host c, host-no_colon s)

v4_char-black : (c : ℕ) → is_v4_char c ≡ true → is_whitespace c ≡ false
unfolding is_digit is_whitespace
v4_char-black c h = ground arith

v4_chars-black : (s : Text) → all is_v4_char s ≡ true → any is_whitespace s ≡ false
v4_chars-black [] h = refl
v4_chars-black (c ∷ s) h = ground (arith, v4_char-black c, v4_chars-black s)

digits-v4 : (s : Text) → all is_digit s ≡ true → all is_v4_char s ≡ true
digits-v4 [] h = refl
digits-v4 (c ∷ s) h = ground (arith, digits-v4 s)

address-trimmed :
    (host port : Text)
    → all is_v4_char host ≡ true
    → all is_digit port ≡ true
    → trim (host ++ (b':' ∷ port)) ≡ host ++ (b':' ∷ port)
unfolding is_whitespace
address-trimmed host port h p = trim_black (host ++ (b':' ∷ port)) (
    any-append-false is_whitespace host (b':' ∷ port) (v4_chars-black host h)
      (v4_chars-black port (digits-v4 port p)))

abbrev starts_bracket : Text → Bool
starts_bracket [] = false
starts_bracket (c ∷ _) = c == b'['

split_peer_host-plain :
    (s : Text) → starts_bracket s ≡ false → split_peer_host s ≡ cut_port s (rsplit_once b':' s)
unfolding split_peer_host
split_peer_host-plain [] h = refl
split_peer_host-plain (c ∷ s) h = rw h

v4-no_bracket : (s : Text) → all is_v4_char s ≡ true → starts_bracket s ≡ false
v4-no_bracket [] h = refl
v4-no_bracket (c ∷ s) h = ground (arith, v4_char-host c)

v4-no_bracket_port :
    (s port : Text) → all is_v4_char s ≡ true → starts_bracket (s ++ (b':' ∷ port)) ≡ false
v4-no_bracket_port [] port h = refl
v4-no_bracket_port (c ∷ s) port h = v4-no_bracket (c ∷ s) h

split_peer_host-bare : (host : Text) → all is_v4_char host ≡ true → split_peer_host host ≡ host
split_peer_host-bare host h =
    split_peer_host-plain host (v4-no_bracket host h)
    ∙ ap (cut_port host) (rsplit_once-none b':' host (host-no_colon host h))

split_peer_host-port :
    (host : Text) (p : ℕ) (port : Text)
    → all is_v4_char host ≡ true
    → all is_digit (p ∷ port) ≡ true
    → split_peer_host (host ++ (b':' ∷ p ∷ port)) ≡ host
unfolding is_empty
split_peer_host-port host p port h d =
    split_peer_host-plain (host ++ (b':' ∷ p ∷ port)) (v4-no_bracket_port host (p ∷ port) h)
    ∙ (ap (cut_port (host ++ (b':' ∷ p ∷ port))) (
          rsplit_once-append b':' host (p ∷ port)
            (host-no_colon (p ∷ port) (digits-v4 (p ∷ port) d)))
        ∙ rw (v4_chars-host host h))

-- Whether a peer with an IPv4 address is loopback does not depend on its port.
pub is_loopback_peer-port :
    (v6_loopback : Text → Option Bool) (host : Text) (p : ℕ) (port : Text)
    → all is_v4_char host ≡ true
    → all is_digit (p ∷ port) ≡ true
    → is_loopback_peer v6_loopback (host ++ (b':' ∷ p ∷ port)) ≡ is_loopback_peer v6_loopback host
unfolding is_loopback_peer
is_loopback_peer-port v6_loopback host p port h d = rw (
  address-trimmed host (p ∷ port) h d,
  split_peer_host-port host p port h d,
  trim_black host (v4_chars-black host h),
  split_peer_host-bare host h,
)
