-- ===== src/Records.antt =====
-- crates/ibis-db/src/ids.rs: record ids of the database. The values of the database's driver are
-- data of the model as far as the code reads them; `Other` is what it leaves to the driver.
pub mod Sanitize
pub mod Escape
pub mod Safe
pub mod Format
pub mod Value
mod Tests
use ibis_assistant.Prelude.{
  ℕ, ◌≡◌, Bool, true, false, not, ◌&&◌, ◌||◌, Option, none, some, List, [], ◌∷◌, ◌++◌, map, all,
  any, ◌==◌, if◌then◌else◌,
}
use ibis_assistant.Text.{
  Text, str, text_eq, is_empty, is_digit, is_lower, is_alphanumeric, is_ascii, ascii_lower,
}
use ibis_assistant.Text.Trim.{trim}
use ibis_assistant.Text.Split.{contains, starts_with, ends_with, split_once, strip_prefix}
use ibis_assistant.Text.Map.{lookup}
use ibis_assistant.Text.Number.{ℤ, int_text}

-- the brackets of a wrapped key
abbrev pub open_bracket : ℕ
open_bracket = 0x27e8

abbrev pub close_bracket : ℕ
close_bracket = 0x27e9

abbrev pub is_unsafe : ℕ → Bool
is_unsafe c =
    c == b';'
    || c == b'\n'
    || c == b'\r'
    || c == b'\t'
    || c == b' '
    || c == b'\''
    || c == b'"'
    || c == b'\\'

abbrev pub is_table_char : ℕ → Bool
is_table_char c = is_lower c || is_digit c || c == b'_'

-- `^[a-z][a-z0-9_]*$`
unfoldable pub table_matches : Text → Bool
table_matches [] = false
table_matches (c ∷ s) = is_lower c && all is_table_char s

abbrev pub is_key_char : ℕ → Bool
is_key_char c = is_alphanumeric c || c == b'_' || c == b'.' || c == b'-'

-- key characters, and a closing bracket or none at the end
unfoldable pub key_rest : Text → Bool
key_rest [] = true
key_rest (c ∷ []) = is_key_char c || c == close_bracket
key_rest (c ∷ d ∷ s) = is_key_char c && key_rest (d ∷ s)

-- at least one key character in front
unfoldable pub key_body : Text → Bool
key_body [] = false
key_body (c ∷ s) = is_key_char c && key_rest s

-- `^(?:⟨)?[a-zA-Z0-9_.-]+(?:⟩)?$`
unfoldable pub key_matches : Text → Bool
key_matches [] = false
key_matches (c ∷ s) = if c == open_bracket then key_body s else key_body (c ∷ s)

abbrev pub safe_parts : Option (Text × Text) → Bool
safe_parts none = false
safe_parts (some (table, key)) =
    if is_empty table || is_empty key then false else table_matches table && key_matches key

unfoldable pub is_safe_record_id : Text → Bool
is_safe_record_id raw =
    let id = trim raw in
    if is_empty id || any is_unsafe id then false else safe_parts (split_once b':' id)

unfoldable pub is_numeric_id : Text → Bool
is_numeric_id s = not (is_empty s) && all is_digit s

abbrev pub is_wrapped : Text → Bool
is_wrapped s = starts_with (open_bracket ∷ []) s && ends_with close_bracket s

-- `{table}:⟨{id}⟩`
abbrev pub wrap : Text → Text → Text
wrap table id = table ++ (b':' ∷ open_bracket ∷ (id ++ close_bracket ∷ []))

unfoldable pub format_parts : Text → Option (Text × Text) → Text
format_parts id none = id
format_parts id (some (table, key)) =
    if is_wrapped key
    then id
    else if is_numeric_id key && text_eq table (str "issue")
    then table ++ (b':' ∷ key)
    else wrap table key

unfoldable pub format_record_id : Text → Text → Text
format_record_id table id =
    if is_wrapped id
    then table ++ (b':' ∷ id)
    else if contains b':' id
    then format_parts id (split_once b':' id)
    else if is_numeric_id id && text_eq table (str "issue")
    then table ++ (b':' ∷ id)
    else wrap table id

abbrev is_quote : ℕ → Bool
is_quote c = c == b'\'' || c == b'"' || c == b'`'

unfoldable pub drop_quotes : Text → Text
drop_quotes [] = []
drop_quotes (c ∷ s) = let rest = drop_quotes s in if is_quote c then rest else c ∷ rest

abbrev pub underscored : ℕ → ℕ
underscored c = if is_table_char c then c else b'_'

-- the loop that collapses runs; the flag says whether the output so far ends with an underscore
unfoldable pub collapse : Bool → Text → Text
collapse last [] = []
collapse last (c ∷ s) =
    let same = collapse true s in
    let other = collapse false s in
    if c == b'_' then (if last then same else c ∷ same) else c ∷ other

unfoldable pub trim_under_start : Text → Text
trim_under_start [] = []
trim_under_start (c ∷ s) = if c == b'_' then trim_under_start s else c ∷ s

unfoldable pub under_end : ℕ → Text → Text
under_end c [] = if c == b'_' then [] else c ∷ []
under_end c (d ∷ s) = c ∷ d ∷ s

unfoldable pub trim_under_end : Text → Text
trim_under_end [] = []
trim_under_end (c ∷ s) = under_end c (trim_under_end s)

-- `sanitize_id`, with the `str::to_lowercase` of Unicode from outside
unfoldable pub sanitize_id : (Text → Text) → Text → Text
sanitize_id to_lowercase s =
    trim_under_end
      (trim_under_start (collapse false (map underscored (drop_quotes (to_lowercase s)))))

unfoldable pub escape_sql_char : ℕ → Text
escape_sql_char c =
    if c == b'\\'
    then b'\\' ∷ b'\\' ∷ []
    else if c == b'\''
    then b'\\' ∷ b'\'' ∷ []
    else if c == b'\n'
    then b'\\' ∷ b'n' ∷ []
    else c ∷ []

unfoldable pub escape_sql : Text → Text
escape_sql [] = []
escape_sql (c ∷ s) = escape_sql_char c ++ escape_sql s
