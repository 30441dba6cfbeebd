-- ===== src/Claims/Parse.antt =====
-- `parse` of claims.rs: the strict reading of a claim file.
pub mod Line
pub mod Matter
pub mod Strict
use ibis_assistant.Prelude.{
  ℕ, suc, ◌+◌, ◌*◌, ◌-◌, Bool, true, false, not, ◌&&◌, ◌||◌, Option, none, some, List, [], ◌∷◌,
  ◌++◌, leb, ◌==◌, if◌then◌else◌,
}
use ibis_assistant.Effect.{Fallible, ok, err}
use ibis_assistant.Text.Number.{ℤ, pos, negsuc}
use ibis_assistant.Text.{Text, str, text_eq, is_empty, is_digit}
use ibis_assistant.Text.Trim.{trim}
use ibis_assistant.Text.Split.{split_once, split, join}
use ibis_assistant.Text.Map.{lookup, insert}
use ibis_assistant.Claims.{
  Claim, ClaimError, empty_file, missing_opener, not_closed, unexpected_indentation, malformed_line,
  invalid_key, duplicate_key, related_not_block, missing_field, schema_not_integer,
  created_not_rfc3339, Result, ◌>>=◌, key_matches, validate, is_some,
}
use ibis_assistant.Claims.Scalar.{unquote_scalar, list_item}
use ibis_assistant.Claims.Render.{Chrono, fence}

-- `strip_suffix('\r')`
unfoldable pub trim_cr : Text → Text
trim_cr [] = []
trim_cr (c ∷ []) = if c == b'\r' then [] else c ∷ []
trim_cr (c ∷ d ∷ s) = c ∷ trim_cr (d ∷ s)

unfoldable pub strip_bom : Text → Text
strip_bom [] = []
strip_bom (c ∷ s) = if c == 0xfeff then s else c ∷ s

abbrev pub cons_front : Text → Option (List Text × List Text) → Option (List Text × List Text)
cons_front l none = none
cons_front l (some (front, rest)) = some (l ∷ front, rest)

-- at the first closing fence
unfoldable pub split_front : List Text → Option (List Text × List Text)
split_front [] = none
split_front (l ∷ ls) =
    if text_eq (trim_cr l) fence then some ([], ls) else cons_front l (split_front ls)

pub record Front : Type 0 where
  pub fields : List (Text × Text)
  pub related : List Text
  pub in_related : Bool

abbrev pub no_front : Front
no_front = record { fields = []; related = []; in_related = false }

-- a line that begins with a blank
unfoldable pub indented_line : Front → Option Text → Result Front
indented_line st none = err unexpected_indentation
indented_line st (some item) =
    if not st.in_related
    then err unexpected_indentation
    else ok (record st { related = st.related ++ item ∷ [] })

-- a line with the key and the value that stand round its colon
unfoldable pub key_line : Front → Text → Text → Text → Result Front
key_line st line key value =
    if not (key_matches key)
    then err (invalid_key key)
    else if is_some (lookup key st.fields)
    then err (duplicate_key key)
    else if text_eq key (str "related_paths") && not (is_empty value)
    then err (related_not_block value)
    else ok (record st {
      fields = insert key value st.fields;
      in_related = text_eq key (str "related_paths");
    })

unfoldable pub colon_line : Front → Text → Option (Text × Text) → Result Front
colon_line st line none = err (malformed_line line)
colon_line st line (some (key, value)) =
    if is_empty key then err (malformed_line line) else key_line st line (trim key) (trim value)

abbrev pub is_indented : Text → Bool
is_indented [] = false
is_indented (c ∷ _) = c == b' ' || c == b'\t'

-- one round of the loop over the front matter
unfoldable pub front_line : Front → Text → Result Front
front_line st line =
    let trimmed = trim_cr line in
    if is_empty (trim trimmed)
    then ok st
    else if is_indented trimmed
    then indented_line st (list_item trimmed)
    else colon_line st trimmed (split_once b':' trimmed)

unfoldable pub front_matter : Front → List Text → Result Front
front_matter st [] = ok st
front_matter st (l ∷ ls) = do st' ← front_line st l; front_matter st' ls

-- `str::parse::<i64>`: a sign, digits, and what fits
unfoldable pub parse_digits : ℕ → Text → Option ℕ
parse_digits n [] = some n
parse_digits n (c ∷ s) =
    let rest = parse_digits (n * 10 + (c - b'0')) s in if is_digit c then rest else none

abbrev to_pos : Option ℕ → Option ℤ
to_pos none = none
to_pos (some n) = if leb n 9223372036854775807 then some (pos n) else none

abbrev to_neg : Option ℕ → Option ℤ
to_neg none = none
to_neg (some n) =
    if n == 0
    then some (pos 0)
    else if leb n 9223372036854775808
    then some (negsuc (n - 1))
    else none

unfoldable pub unsigned : Text → Option ℕ
unfolding parse_digits is_digit
unsigned [] = none
unsigned (c ∷ s) = parse_digits 0 (c ∷ s)

unfoldable pub parse_i64 : Text → Option ℤ
unfolding unsigned
parse_i64 [] = none
parse_i64 (c ∷ s) =
    if c == b'-'
    then to_neg (unsigned s)
    else if c == b'+'
    then to_pos (unsigned s)
    else to_pos (unsigned (c ∷ s))

abbrev pub require : {A : Type 0} → ClaimError → Option A → Fallible ClaimError A
require e none = err e
require e (some a) = ok a

abbrev pub unquoted_or_empty : Option Text → Text
unquoted_or_empty none = []
unquoted_or_empty (some v) = unquote_scalar v

-- `replace("\r\n", "\n")`
unfoldable pub unix_lines : Text → Text
unix_lines [] = []
unix_lines (c ∷ []) = c ∷ []
unix_lines (c ∷ d ∷ s) =
    let rest = unix_lines (d ∷ s) in if c == b'\r' && d == b'\n' then rest else c ∷ rest

unfoldable pub strip_line_feed : Text → Text
strip_line_feed [] = []
strip_line_feed (c ∷ s) = if c == b'\n' then s else c ∷ s

unfoldable pub read_body : List Text → Text
unfolding strip_line_feed
read_body rest = strip_line_feed (unix_lines (join b'\n' rest))

module _ {Time : Type 0} (chrono : Chrono Time) where
  open chrono use {parse_from_rfc3339}

  -- the claim that the fields and the body say
  unfoldable pub assemble : Front → Text → Result (Claim Time)
  assemble front body = do
    let fields = front.fields
    schema_field ← require (missing_field (str "schema")) (lookup (str "schema") fields)
    schema ← require (schema_not_integer schema_field) (parse_i64 schema_field)
    id ← require (missing_field (str "id")) (lookup (str "id") fields)
    kind ← require (missing_field (str "kind")) (lookup (str "kind") fields)
    title ← require (missing_field (str "title")) (lookup (str "title") fields)
    created_field ← require (missing_field (str "created")) (lookup (str "created") fields)
    created ←
        require (created_not_rfc3339 created_field)
          (parse_from_rfc3339 (unquote_scalar created_field))
    ok (record {
      schema = schema;
      id = unquote_scalar id;
      kind = unquote_scalar kind;
      title = unquote_scalar title;
      visibility = unquoted_or_empty (lookup (str "visibility") fields);
      related_paths = front.related;
      supersedes = unquoted_or_empty (lookup (str "supersedes") fields);
      created = some created;
      redacted = unquoted_or_empty (lookup (str "redacted") fields);
      body = body;
    })

  -- the lines behind the opening fence
  unfoldable pub parse_front : Option (List Text × List Text) → Result (Claim Time)
  parse_front none = err not_closed
  parse_front (some (lines, rest)) = do
    front ← front_matter no_front lines
    c ← assemble front (read_body rest)
    _ ← validate c
    ok c

  unfoldable pub parse_lines : List Text → Result (Claim Time)
  parse_lines [] = err missing_opener
  parse_lines (l ∷ ls) =
      if not (text_eq (trim_cr l) fence) then err missing_opener else parse_front (split_front ls)

  unfoldable pub parse : Text → Result (Claim Time)
  parse text =
      let raw = strip_bom text in
      if is_empty raw then err empty_file else parse_lines (split b'\n' raw)
