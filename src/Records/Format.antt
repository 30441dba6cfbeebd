-- ===== src/Records/Format.antt =====
-- Ids that are put together are safe, and putting one together twice changes nothing (ids.rs).
pub mod Twice
use ibis_assistant.Prelude.{
  ℕ, ◌≡◌, ◌≢◌, refl, ap, ◌∙◌, sym, Bool, true, false, not, ◌&&◌, ◌||◌, Option, none, some, [], ◌∷◌,
  ◌++◌, all, any, all-append, arith, ◌==◌, if◌then◌else◌, inl, inr, Bool-cases, Option-cases,
}
use ibis_assistant.Text.{
  Text, str, text_eq, text_eq_iff, is_empty, is_digit, is_lower, is_upper, is_alphanumeric,
}
use ibis_assistant.Text.Trim.{is_whitespace, trim, trim_black}
use ibis_assistant.Text.Split.{
  contains, starts_with, ends_with, split_once, split_once_sound, split_once-append,
}
use ibis_assistant.Records.{
  open_bracket, close_bracket, is_unsafe, is_table_char, table_matches, is_key_char, key_rest,
  key_body, key_matches, safe_parts, is_safe_record_id, is_numeric_id, is_wrapped, wrap,
  format_parts, format_record_id, sanitize_id,
}
use ibis_assistant.Records.Sanitize.{is_sanitized, sanitize_id-IsSanitized}
use ibis_assistant.Records.Safe.{
  is_reference_char, table_char-reference, table_chars-reference, table_matches-chars,
  key_matches-reference,
}

reference_char-black :
    (c : ℕ) → is_reference_char c ≡ true → (is_whitespace c ≡ false) × (is_unsafe c ≡ false)
unfolding is_alphanumeric is_digit is_lower is_upper is_whitespace
reference_char-black c h = (ground arith, ground arith)

reference-black : (s : Text) → all is_reference_char s ≡ true → any is_whitespace s ≡ false
reference-black [] h = refl
reference-black (c ∷ s) h = ground (arith, reference_char-black c, reference-black s)

reference-safe : (s : Text) → all is_reference_char s ≡ true → any is_unsafe s ≡ false
reference-safe [] h = refl
reference-safe (c ∷ s) h = ground (arith, reference_char-black c, reference-safe s)

table_char-no_colon : (c : ℕ) → is_table_char c ≡ true → (c == b':') ≡ false
unfolding is_digit is_lower
table_char-no_colon c h = ground arith

table-no_colon : (s : Text) → all is_table_char s ≡ true → contains b':' s ≡ false
table-no_colon [] h = refl
table-no_colon (c ∷ s) h = ground (arith, table_char-no_colon c, table-no_colon s)

concat-not_empty : (s : Text) (c : ℕ) (t : Text) → is_empty (s ++ (c ∷ t)) ≡ false
unfolding is_empty
concat-not_empty [] c t = refl
concat-not_empty (d ∷ s) c t = refl

-- a table and a key that match are a safe id
parts-safe :
    (table key : Text)
    → table_matches table ≡ true
    → key_matches key ≡ true
    → is_safe_record_id (table ++ (b':' ∷ key)) ≡ true
unfolding is_safe_record_id is_alphanumeric table_matches key_matches is_empty
parts-safe [] key t k = cc
parts-safe (c ∷ s) [] t k = cc
parts-safe (c ∷ s) (d ∷ key) t k =
    let r = reference c s d key t k in
    rw
      (
        trim_black (c ∷ (s ++ (b':' ∷ d ∷ key))) (reference-black (c ∷ (s ++ (b':' ∷ d ∷ key))) r),
        reference-safe (c ∷ (s ++ (b':' ∷ d ∷ key))) r,
        split_once-append b':' (c ∷ s) (d ∷ key)
            (table-no_colon (c ∷ s) (table_matches-chars (c ∷ s) t)),
        t,
      )
      k
  where
    reference :
        (c : ℕ) (s : Text) (d : ℕ) (key : Text)
        → table_matches (c ∷ s) ≡ true
        → key_matches (d ∷ key) ≡ true
        → all is_reference_char (c ∷ (s ++ (b':' ∷ d ∷ key))) ≡ true
    reference c s d key t k =
        all-append is_reference_char (c ∷ s) (b':' ∷ d ∷ key)
        ∙ rw (
          table_chars-reference (c ∷ s) (table_matches-chars (c ∷ s) t),
          key_matches-reference (d ∷ key) k,
        )

key_rest-table : (s : Text) → all is_table_char s ≡ true → key_rest s ≡ true
unfolding key_rest is_alphanumeric
key_rest-table [] h = refl
key_rest-table (c ∷ []) h = ground arith
key_rest-table (c ∷ d ∷ s) h = ground (arith, key_rest-table (d ∷ s))

key_rest-closed :
    (s : Text) → all is_table_char s ≡ true → key_rest (s ++ close_bracket ∷ []) ≡ true
unfolding key_rest is_alphanumeric
key_rest-closed [] h = refl
key_rest-closed (c ∷ []) h = ground arith
key_rest-closed (c ∷ d ∷ s) h = ground (arith, key_rest-closed (d ∷ s))

table_char-first :
    (c : ℕ) → is_table_char c ≡ true → (is_key_char c ≡ true) × ((c == open_bracket) ≡ false)
unfolding is_alphanumeric is_digit is_lower
table_char-first c h = (ground arith, ground arith)

table_chars-key : (s : Text) → s ≢ [] → all is_table_char s ≡ true → key_matches s ≡ true
unfolding key_matches key_body
table_chars-key [] ne h = absurd (ne refl)
table_chars-key (c ∷ s) ne h = ground (arith, table_char-first c, key_rest-table s)

table_chars-closed :
    (s : Text)
    → s ≢ []
    → all is_table_char s ≡ true
    → key_matches (open_bracket ∷ (s ++ close_bracket ∷ [])) ≡ true
unfolding key_matches key_body
table_chars-closed [] ne h = absurd (ne refl)
table_chars-closed (c ∷ s) ne h = ground (arith, table_char-first c, key_rest-closed s)

table_chars-plain : (s : Text) → all is_table_char s ≡ true → is_wrapped s ≡ false
unfolding starts_with
table_chars-plain [] h = refl
table_chars-plain (c ∷ s) h = ground (arith, table_char-first c)

-- An id made of a table's name and a suffix of its characters is safe.
pub format_record_id-safe :
    (table s : Text)
    → table_matches table ≡ true
    → all is_table_char s ≡ true
    → s ≢ []
    → is_safe_record_id (format_record_id table s) ≡ true
unfolding format_record_id
format_record_id-safe table s t h ne =
    rw (table_chars-plain s h, table-no_colon s h)
      (elim (Bool-cases (is_numeric_id s && text_eq table (str "issue"))) [
        | inl e ↦ rw e (parts-safe table s t (table_chars-key s ne h))
        | inr e ↦ rw e (
            parts-safe table (open_bracket ∷ (s ++ close_bracket ∷ [])) t
              (table_chars-closed s ne h))
      ])

sanitized-table : (s : Text) → is_sanitized s ≡ true → all is_table_char s ≡ true
sanitized-table s h = ground arith

-- An id made of a table's name and a sanitized suffix is safe, unless nothing of the suffix is left.
pub format-sanitize-safe :
    (to_lowercase : Text → Text) (table s : Text)
    → table_matches table ≡ true
    → sanitize_id to_lowercase s ≢ []
    → is_safe_record_id (format_record_id table (sanitize_id to_lowercase s)) ≡ true
format-sanitize-safe to_lowercase table s t ne =
    format_record_id-safe table (sanitize_id to_lowercase s) t
      (sanitized-table (sanitize_id to_lowercase s) (sanitize_id-IsSanitized to_lowercase s)) ne
