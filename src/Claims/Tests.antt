-- ===== src/Claims/Tests.antt =====
-- A claim with every optional field, rendered and parsed, and files that are refused.
use ibis_assistant.Prelude.{◌≡◌, refl, false, some, [], ◌∷◌}
use ibis_assistant.Effect.{ok, is_ok}
use ibis_assistant.Text.Number.{pos}
use ibis_assistant.Text.{Text, str}
use ibis_assistant.Text.Run.{text_runs}
use ibis_assistant.Claims.{
  Claim, ◌>>=◌, id_matches, is_reserved, valid_id, key_matches, has_line_break, check_paths,
  validate,
}
use ibis_assistant.Claims.Scalar.{
  is_indicator, has_pair, needs_quote, hex_value, hex_byte, escaped, unescape, strip_quote,
  unquote_string, unquote_scalar, trim_blanks, list_item,
}
use ibis_assistant.Claims.Render.{Chrono, body_text, render}
use ibis_assistant.Claims.Parse.{
  no_front, front_matter, parse, trim_cr, strip_bom, split_front, indented_line, key_line,
  colon_line, front_line, parse_digits, unsigned, parse_i64, unix_lines, strip_line_feed, read_body,
  assemble, parse_front, parse_lines,
}
use ibis_assistant.Claims.Parse.Strict.{front_matter_duplicate}
use ibis_assistant.Claims.RoundTrip.{parse-render}

-- times that are their texts
abbrev chrono : Chrono Text
chrono = record { to_rfc3339 = λ t. t; parse_from_rfc3339 = some; now = str "2026-01-01T00:00:00Z" }

abbrev t : Text
t = str "2026-10-24T15:04:05Z"

abbrev claim : Claim Text
claim = record {
  schema = pos 1;
  id = str "Retry-2.a";
  kind = str "decision";
  title = str "retry: \"twice\" # at most";
  visibility = str "personal";
  related_paths = str "src/a b.rs" ∷ str "- odd" ∷ [];
  supersedes = str "retry-1";
  created = some t;
  redacted = [];
  body = str "why\n\nbecause";
}

claim_valid : validate claim ≡ ok tt
unfolding validate check_paths valid_id id_matches is_reserved has_line_break text_runs
claim_valid = refl

t_plain : needs_quote t ≡ false
unfolding needs_quote is_indicator has_line_break has_pair text_runs
t_plain = refl

body_plain : has_pair b'\r' b'\n' (body_text claim.body) ≡ false
unfolding has_pair body_text text_runs
body_plain = refl

parse-render_example :
    (render chrono claim >>= parse chrono) ≡ ok (record claim { body = str "why\n\nbecause\n" })
unfolding body_text text_runs
parse-render_example = parse-render chrono claim t claim_valid refl t_plain refl body_plain

com7_refused : valid_id (str "Com7") ≡ false
unfolding valid_id id_matches is_reserved text_runs
com7_refused = refl

-- a file as another editor may save it: a mark in front, and carriage returns
abbrev file : Text
file =
    0xfeff
    ∷ str
        "---\r\nschema: 1\r\nid: a-1\r\n\r\nkind: fix\ntitle: \"t\"\nrelated_paths:\n\t- b\ncreated: x\n---\n\nc\r\nd"

abbrev read : Claim Text
read = record {
  schema = pos 1;
  id = str "a-1";
  kind = str "fix";
  title = str "t";
  visibility = [];
  related_paths = str "b" ∷ [];
  supersedes = [];
  created = some (str "x");
  redacted = [];
  body = str "c\nd";
}

file-read : parse chrono file ≡ ok read
unfolding parse strip_bom parse_lines trim_cr split_front parse_front front_matter front_line
    indented_line colon_line key_line key_matches list_item trim_blanks unquote_scalar
    unquote_string strip_quote unescape escaped hex_byte hex_value assemble parse_i64 unsigned
    parse_digits read_body unix_lines strip_line_feed validate check_paths valid_id id_matches
    is_reserved has_line_break text_runs
file-read = refl

front_matter_duplicate_example :
    is_ok (front_matter no_front (str "id: a\r" ∷ str "kind: fix\r" ∷ str "id: b\r" ∷ [])) ≡ false
unfolding key_matches text_runs
front_matter_duplicate_example =
    front_matter_duplicate (str "id") (str " b\r") refl no_front (str " a\r") []
      (str "kind: fix\r" ∷ []) []
