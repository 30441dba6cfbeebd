-- ===== src/Claims/Scalar.antt =====
-- Scalars of the front matter (claims.rs, `scalar`, `needs_quote`, `quote_string`,
-- `unquote_string`, `unquote_scalar`, `list_item`).
pub mod Quote
pub mod Plain
use ibis_assistant.Prelude.{
  ℕ, ◌+◌, ◌*◌, ◌-◌, ◌/◌, ◌%◌, Bool, true, false, not, ◌&&◌, ◌||◌, Option, none, some, List, [], ◌∷◌,
  ◌++◌, any, leb, ltb, ◌==◌, if◌then◌else◌,
}
use ibis_assistant.Text.{Text, str, text_eq, is_empty, is_digit}
use ibis_assistant.Text.Trim.{trim}
use ibis_assistant.Text.Split.{contains, strip_prefix, starts_with, ends_with}
use ibis_assistant.Claims.{has_line_break}

-- a character with which a plain scalar cannot begin
unfoldable pub is_indicator : ℕ → Bool
is_indicator c = contains c (str "!&*-?|>%@`\"#,:[]{} \t")

-- `contains` of a text of two characters
unfoldable pub has_pair : ℕ → ℕ → Text → Bool
has_pair a b [] = false
has_pair a b (c ∷ []) = false
has_pair a b (c ∷ d ∷ s) = (c == a && d == b) || has_pair a b (d ∷ s)

unfoldable pub needs_quote : Text → Bool
needs_quote [] = true
needs_quote (c ∷ s) =
    is_indicator c
    || has_line_break (c ∷ s)
    || (has_pair b':' b' ' (c ∷ s) || has_pair b' ' b'#' (c ∷ s) || contains b'\t' (c ∷ s))
    || (not (text_eq (c ∷ s) (trim (c ∷ s))) || ends_with b':' (c ∷ s))

-- a digit of `{:02x}`
unfoldable pub hex_digit : ℕ → ℕ
hex_digit n = if ltb n 10 then b'0' + n else b'a' + (n - 10)

unfoldable pub escape_char : ℕ → Text
escape_char c =
    if c == b'"'
    then b'\\' ∷ b'"' ∷ []
    else if c == b'\\'
    then b'\\' ∷ b'\\' ∷ []
    else if c == b'\n'
    then b'\\' ∷ b'n' ∷ []
    else if c == b'\r'
    then b'\\' ∷ b'r' ∷ []
    else if c == b'\t'
    then b'\\' ∷ b't' ∷ []
    else if ltb c 0x20
    then b'\\' ∷ b'x' ∷ hex_digit (c / 16) ∷ hex_digit (c % 16) ∷ []
    else c ∷ []

unfoldable pub escape : Text → Text
escape [] = []
escape (c ∷ s) = escape_char c ++ escape s

unfoldable pub quote_string : Text → Text
quote_string s = b'"' ∷ (escape s ++ b'"' ∷ [])

unfoldable pub scalar : Text → Text
scalar s = if needs_quote s then quote_string s else s

-- a digit of `from_str_radix(_, 16)`
unfoldable pub hex_value : ℕ → Option ℕ
unfolding is_digit
hex_value c =
    if is_digit c
    then some (c - b'0')
    else if leb b'a' c && leb c b'f'
    then some (c - b'a' + 10)
    else if leb b'A' c && leb c b'F'
    then some (c - b'A' + 10)
    else none

abbrev both : Option ℕ → Option ℕ → Option ℕ
both (some h) (some l) = some (h * 16 + l)
both _ _ = none

-- `u8::from_str_radix` of two characters, which takes a leading `+`
unfoldable pub hex_byte : ℕ → ℕ → Option ℕ
unfolding hex_value
hex_byte h l = if h == b'+' then hex_value l else both (hex_value h) (hex_value l)

-- `String::from_utf8_lossy` of one byte
abbrev pub lossy : ℕ → ℕ
lossy b = if ltb b 128 then b else 0xfffd

-- what stands for one character behind a backslash, `\x` aside
unfoldable pub escaped : ℕ → Option ℕ
escaped c =
    if c == b'"'
    then some b'"'
    else if c == b'\\'
    then some b'\\'
    else if c == b'n'
    then some b'\n'
    else if c == b'r'
    then some b'\r'
    else if c == b't'
    then some b'\t'
    else none

abbrev pub cons_opt : ℕ → Option Text → Option Text
cons_opt c none = none
cons_opt c (some s) = some (c ∷ s)

-- the loop of `unquote_string`
unfoldable pub unescape : Text → Option Text
unescape [] = some []
unescape (c ∷ []) = if c == b'\\' then none else some (c ∷ [])
unescape (c ∷ d ∷ []) = elim (c == b'\\') [
  | false ↦ cons_opt c (unescape (d ∷ []))
  | true ↦ elim (escaped d) [ none ↦ none | some e ↦ some (e ∷ []) ]
]
unescape (c ∷ d ∷ h ∷ []) = elim (c == b'\\') [
  | false ↦ cons_opt c (unescape (d ∷ h ∷ []))
  | true ↦ elim (escaped d) [ none ↦ none | some e ↦ cons_opt e (unescape (h ∷ [])) ]
]
unescape (c ∷ d ∷ h ∷ l ∷ s) = elim (c == b'\\') [
  | false ↦ cons_opt c (unescape (d ∷ h ∷ l ∷ s))
  | true ↦ elim (d == b'x') [
    | true ↦ elim (hex_byte h l) [ none ↦ none | some b ↦ cons_opt (lossy b) (unescape s) ]
    | false ↦ elim (escaped d) [ none ↦ none | some e ↦ cons_opt e (unescape (h ∷ l ∷ s)) ]
  ]
]

-- `strip_suffix('"')`
unfoldable pub strip_quote : Text → Option Text
strip_quote [] = none
strip_quote (c ∷ []) = if c == b'"' then some [] else none
strip_quote (c ∷ d ∷ s) = cons_opt c (strip_quote (d ∷ s))

unfoldable pub unquote_string : Text → Option Text
unquote_string [] = none
unquote_string (c ∷ s) =
    if c == b'"' then elim (strip_quote s) [ none ↦ none | some inner ↦ unescape inner ] else none

abbrev pub or_raw : Text → Option Text → Text
or_raw s none = s
or_raw s (some t) = t

unfoldable pub unquote_scalar : Text → Text
unquote_scalar [] = []
unquote_scalar (c ∷ []) = c ∷ []
unquote_scalar (c ∷ d ∷ s) =
    if c == b'"' && ends_with b'"' (d ∷ s)
    then or_raw (c ∷ d ∷ s) (unquote_string (c ∷ d ∷ s))
    else c ∷ d ∷ s

-- `trim_start_matches([' ', '\t'])`
unfoldable pub trim_blanks : Text → Text
trim_blanks [] = []
trim_blanks (c ∷ s) = let rest = trim_blanks s in if c == b' ' || c == b'\t' then rest else c ∷ s

unfoldable pub list_item : Text → Option Text
list_item line = elim (strip_prefix (str "- ") (trim_blanks line)) [
  | none ↦ none
  | some rest ↦ some (unquote_scalar (trim rest))
]
