-- ===== src/Access/Tests.antt =====
-- Requests of loopback and remote peers, and origins with misleading parts.
use ibis_assistant.Prelude.{
  ◌≡◌, refl, Bool, true, false, Option, none, some, [], map, if◌then◌else◌,
}
use ibis_assistant.Effect.{ok}
use ibis_assistant.Text.{Text, str, text_eq, ascii_lower}
use ibis_assistant.Text.Run.{text_runs}
use ibis_assistant.Access.Peer.{split_peer_host, octet, v4_loopback, is_loopback_peer}
use ibis_assistant.Access.Actor.{Headers, inject_auth, trusted, remote_has_no_actor}
use ibis_assistant.Access.Origin.{
  split_separator, split_scheme, take_authority, valid_port, authority_host, origin_host,
  is_loopback_name, origin_allowed,
}
use ibis_assistant.Access.Origin.Url.{wildcard_admits_loopback}

-- the IPv6 addresses that the tests name
abbrev v6 : Text → Option Bool
v6 s = if text_eq s (str "::1") then some true else none

abbrev headers : Text → Headers
headers actor name = if text_eq name (str "x-ibis-actor") then some actor else none

bracketed_loopback : is_loopback_peer v6 (str "[::1]:8080") ≡ true
unfolding is_loopback_peer split_peer_host v4_loopback octet text_runs
bracketed_loopback = refl

-- an IPv6 address without brackets is cut at its last colon
bare_v6_cut : split_peer_host (str "::1") ≡ str ":"
unfolding split_peer_host text_runs
bare_v6_cut = refl

remote_has_no_actor_example :
    trusted (inject_auth v6 (str "192.168.1.10:1234") (headers (str "alice"))) (str "alice") ≡ []
unfolding is_loopback_peer split_peer_host v4_loopback octet text_runs
remote_has_no_actor_example =
    remote_has_no_actor v6 (str "192.168.1.10:1234") (headers (str "alice")) (str "alice") refl

wildcard_admits_loopback_example :
    (host : Text) × (origin_host (str "LOCALHOST:99") ≡ ok host)
    × (is_loopback_name (map ascii_lower host) ≡ true)
unfolding origin_allowed split_scheme split_separator origin_host take_authority authority_host
    valid_port text_runs
wildcard_admits_loopback_example =
    wildcard_admits_loopback (str " http://LOCALHOST:99") (str "0.0.0.0") (str "http")
      (str "LOCALHOST:99") refl refl refl refl

-- an authority that ends in a bare colon is refused
bare_colon_refused : origin_allowed (str "http://localhost:") [] ≡ false
unfolding origin_allowed split_scheme split_separator origin_host take_authority authority_host
    valid_port text_runs
bare_colon_refused = refl
