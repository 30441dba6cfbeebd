-- ===== src/Settings/Tests.antt =====
-- Runs of the settings server and of query decoding on concrete inputs.
use ibis_assistant.Prelude.{
  ◌≡◌, refl, ℕ, ◌⊎◌, inr, true, false, Option, none, some, List, [], ◌∷◌, arith,
}
use ibis_assistant.Effect.{ok, err}
use ibis_assistant.Text.{Text, str}
use ibis_assistant.Text.Run.{text_runs}
use ibis_assistant.Settings.Query.{hex_digit, escaped, percent_decode, find_pair, query_value}
use ibis_assistant.Settings.Query.Encoded.{query_of, first_value, query_value-encoded}
use ibis_assistant.Settings.Ephemeral.{
  Server, World, Request, parse_cookie_token, first_named, cookie_token, header_token, set_cookie,
  started, stop, stop_ephemeral, start, ensure_ephemeral_with_memory, authorize, auth_layer,
}
use ibis_assistant.Settings.Ephemeral.Once.{asked, happened, url_token_once}
use ibis_assistant.Settings.Ephemeral.Steps.{
  ensured, ended, stopped, Steps, done, then_step, first_world,
}
use ibis_assistant.Settings.Ephemeral.Steps.Sound.{one_listener}
use ibis_assistant.Settings.Ephemeral.Steps.Closed.{stopped_refuses}

abbrev as_it_is : Text → Text
as_it_is t = t

-- an escape at the end of a query that is cut off stays
cut_escape : percent_decode (str "a+b%2Bc%2") ≡ str "a b+c%2"
unfolding percent_decode escaped hex_digit
cut_escape = refl

query_value-encoded_example :
    query_value as_it_is (some (query_of ((str "a", str "&") ∷ (str "t", str "=") ∷ []))) (str "t")
    ≡ first_value as_it_is (str "t") ((str "a", str "&") ∷ (str "t", str "=") ∷ [])
query_value-encoded_example =
    query_value-encoded as_it_is (str "t") (str "a", str "&") ((str "t", str "=") ∷ [])
      (((omega arith, tt), (omega arith, tt)), (((omega arith, tt), (omega arith, tt)), tt))

abbrev opened : World Text → World Text
opened w =
    (ensure_ephemeral_with_memory as_it_is (str "link") (str "secret")
      (ok (str "http://127.0.0.1:9")) none w).1

abbrev asks : Option (List ℕ) → Option Text → Request
asks query cookie = record {
  is_post = false;
  path = str "/settings/";
  query = query;
  cookie = cookie;
  token_header = none;
}

abbrev first_open : Steps as_it_is as_it_is first_world (opened first_world)
first_open =
    then_step (done first_world)
      (ensured (str "link") (str "secret") (ok (str "http://127.0.0.1:9")) none first_world)

one_listener_example :
    ((opened first_world).current ≡ some 0) ⊎ (((opened first_world).servers 0).taken ≡ true)
unfolding ensure_ephemeral_with_memory start
one_listener_example = one_listener as_it_is as_it_is (opened first_world) 0 first_open refl

abbrev shut : World Text
shut = stop 0 (stop_ephemeral (opened first_world))

stopped_refuses_example :
    (auth_layer as_it_is (asks none (some (str "ibis_settings_sess=secret"))) 0 (opened shut)).0.0
    ≡ err tt
unfolding ensure_ephemeral_with_memory start stop stop_ephemeral
stopped_refuses_example =
    stopped_refuses as_it_is as_it_is shut (opened shut) 0
      (asks none (some (str "ibis_settings_sess=secret")))
      (then_step (then_step first_open (ended (opened first_world)))
        (stopped 0 (stop_ephemeral (opened first_world)) refl))
      refl
      (then_step (done shut)
        (ensured (str "link") (str "secret") (ok (str "http://127.0.0.1:9")) none shut))

abbrev server : Server Text
server = started none (str "link") (str "secret") (str "http://127.0.0.1:9")

-- the link is used, the session goes on, and the link is used again
url_token_once_example :
    (authorize as_it_is (asks (some (str "token=link")) none) (
      happened as_it_is
        (asked (asks (some (str "token=link")) none)
          ∷ asked (asks none (some (str "ibis_settings_sess=secret")))
          ∷ [])
        server)).0
    ≡ err tt
unfolding authorize cookie_token header_token query_value find_pair percent_decode escaped text_runs
    parse_cookie_token first_named
url_token_once_example =
    url_token_once as_it_is server (asks (some (str "token=link")) none)
      (some (set_cookie (str "secret")))
      (asked (asks none (some (str "ibis_settings_sess=secret"))) ∷ [])
      (asks (some (str "token=link")) none) (inr (refl, refl)) refl (refl, refl)

-- the cookie among others, and in other cases
cookie_among_others :
    parse_cookie_token (str "other=1; IBIS_settings_sess= abc ;x") ≡ some (str "abc")
unfolding parse_cookie_token first_named text_runs
cookie_among_others = refl
