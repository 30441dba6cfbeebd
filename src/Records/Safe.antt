-- ===== src/Records/Safe.antt =====
-- What a safe record id is made of, and that ids built from sanitized suffixes are safe (ids.rs).
use ibis_assistant.Prelude.{
  ℕ, ◌≡◌, refl, Bool, true, ◌||◌, Option, none, some, [], ◌∷◌, all, all-append, arith, ◌==◌,
}
use ibis_assistant.Text.{Text, is_alphanumeric}
use ibis_assistant.Text.Trim.{trim}
use ibis_assistant.Text.Split.{split_once, split_once_sound}
use ibis_assistant.Records.{
  open_bracket, close_bracket, is_table_char, table_matches, is_key_char, key_rest, key_body,
  key_matches, safe_parts, is_safe_record_id,
}

-- letters and digits of ASCII, and what joins them in a reference
abbrev pub is_reference_char : ℕ → Bool
is_reference_char c = is_key_char c || c == b':' || c == open_bracket || c == close_bracket

pub table_char-reference : (c : ℕ) → is_table_char c ≡ true → is_reference_char c ≡ true
unfolding is_alphanumeric
table_char-reference c h = ground arith

pub table_chars-reference : (s : Text) → all is_table_char s ≡ true → all is_reference_char s ≡ true
table_chars-reference [] h = refl
table_chars-reference (c ∷ s) h = ground (arith, table_char-reference c, table_chars-reference s)

pub table_matches-chars : (s : Text) → table_matches s ≡ true → all is_table_char s ≡ true
unfolding table_matches
table_matches-chars [] h = refl
table_matches-chars (c ∷ s) h = ground arith

key_rest-reference : (s : Text) → key_rest s ≡ true → all is_reference_char s ≡ true
unfolding key_rest
key_rest-reference [] h = refl
key_rest-reference (c ∷ []) h = ground arith
key_rest-reference (c ∷ d ∷ s) h = ground (arith, key_rest-reference (d ∷ s))

key_body-reference : (s : Text) → key_body s ≡ true → all is_reference_char s ≡ true
unfolding key_body
key_body-reference [] h = refl
key_body-reference (c ∷ s) h = ground (arith, key_rest-reference s)

pub key_matches-reference : (s : Text) → key_matches s ≡ true → all is_reference_char s ≡ true
unfolding key_matches
key_matches-reference [] h = refl
key_matches-reference (c ∷ s) h = ground (arith, key_body-reference s, key_body-reference (c ∷ s))

safe_parts-reference :
    (o : Option (Text × Text)) (s : Text)
    → split_once b':' s ≡ o
    → safe_parts o ≡ true
    → all is_reference_char s ≡ true
unfolding is_alphanumeric
safe_parts-reference none s e h = cc
safe_parts-reference (some (table, key)) s e h =
    let (p, _) = split_once_sound b':' s table key e in
    rw (
      p,
      all-append is_reference_char table (b':' ∷ key),
      table_chars-reference table (table_matches-chars table (ground arith)),
      key_matches-reference key (ground arith),
    )

-- A record id that passes has nothing but letters and digits of ASCII, `_`, `.`, `-`, `:` and the
-- two brackets in it, apart from white space at its ends.
is_safe_record_id-chars :
    (id : Text) → is_safe_record_id id ≡ true → all is_reference_char (trim id) ≡ true
unfolding is_safe_record_id
is_safe_record_id-chars id h =
    safe_parts-reference (split_once b':' (trim id)) (trim id) refl (ground arith)
