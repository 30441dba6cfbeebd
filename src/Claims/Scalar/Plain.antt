-- ===== src/Claims/Scalar/Plain.antt =====
-- What a rendered scalar looks like, and that it is read back (claims.rs, `scalar`,
-- `unquote_scalar`).
use ibis_assistant.Prelude.{
  ℕ, ◌/◌, ◌%◌, ◌≤◌, ◌≡◌, ◌≢◌, refl, ap, ◌∙◌, true, false, ◌||◌, [], ◌∷◌, ◌++◌, arith, inl, inr,
  Bool-cases,
}
use ibis_assistant.Text.{Text, text_eq_iff}
use ibis_assistant.Text.Trim.{is_whitespace, trim, trim-concat}
use ibis_assistant.Text.Split.{contains, ends_with}
use ibis_assistant.Claims.{has_line_break}
use ibis_assistant.Claims.Scalar.{
  is_indicator, needs_quote, hex_digit, escape_char, escape, quote_string, scalar, or_raw,
  unquote_string, unquote_scalar,
}
use ibis_assistant.Claims.Scalar.Quote.{unquote_string-quote_string}

pub contains-append : (k : ℕ) (a b : Text) → contains k (a ++ b) ≡ (contains k a || contains k b)
contains-append k [] b = refl
contains-append k (c ∷ a) b = ground (arith, contains-append k a b)

pub no_line_feed : (s : Text) → has_line_break s ≡ false → contains b'\n' s ≡ false
unfolding has_line_break
no_line_feed [] h = refl
no_line_feed (c ∷ s) h = ground (arith, no_line_feed s)

pub no_carriage_return : (s : Text) → has_line_break s ≡ false → contains b'\r' s ≡ false
unfolding has_line_break
no_carriage_return [] h = refl
no_carriage_return (c ∷ s) h = ground (arith, no_carriage_return s)

hex_digit-ge : (n : ℕ) → 48 ≤ hex_digit n
unfolding hex_digit
hex_digit-ge n = ground arith

escape_char_clean : (c : ℕ) → has_line_break (escape_char c) ≡ false
unfolding has_line_break escape_char
escape_char_clean c = ground (arith, hex_digit-ge (c / 16), hex_digit-ge (c % 16))

has_line_break-append :
    (a b : Text) → has_line_break (a ++ b) ≡ (has_line_break a || has_line_break b)
unfolding has_line_break
has_line_break-append [] b = refl
has_line_break-append (c ∷ a) b = ground (arith, has_line_break-append a b)

escape_clean : (s : Text) → has_line_break (escape s) ≡ false
unfolding escape
escape_clean [] = unfold has_line_break in refl
escape_clean (c ∷ s) =
    rw (has_line_break-append (escape_char c) (escape s), escape_char_clean c, escape_clean s)

quote_string_clean : (s : Text) → has_line_break (quote_string s) ≡ false
unfolding quote_string has_line_break
quote_string_clean s = has_line_break-append (escape s) (b'"' ∷ []) ∙ rw (escape_clean s)

pub plain_clean : (s : Text) → needs_quote s ≡ false → has_line_break s ≡ false
unfolding needs_quote
plain_clean [] h = cc
plain_clean (c ∷ s) h = ground arith

-- A rendered scalar stays on its line.
pub scalar_clean : (s : Text) → has_line_break (scalar s) ≡ false
unfolding scalar
scalar_clean s = elim (Bool-cases (needs_quote s)) [
  | inl e ↦ rw e (quote_string_clean s)
  | inr e ↦ rw e (plain_clean s e)
]

pub plain_trimmed : (s : Text) → needs_quote s ≡ false → trim s ≡ s
unfolding needs_quote
plain_trimmed [] h = cc
plain_trimmed (c ∷ s) h = ground (arith, text_eq_iff (c ∷ s) (trim (c ∷ s)))

quote_string_trimmed : (s : Text) → trim (quote_string s) ≡ quote_string s
unfolding quote_string is_whitespace
quote_string_trimmed s = trim-concat (b'"' ∷ escape s) b'"' refl refl

pub scalar_trimmed : (s : Text) → trim (scalar s) ≡ scalar s
unfolding scalar
scalar_trimmed s = elim (Bool-cases (needs_quote s)) [
  | inl e ↦ rw e (quote_string_trimmed s)
  | inr e ↦ rw e (plain_trimmed s e)
]

pub scalar-ne_nil : (s : Text) → scalar s ≢ []
unfolding scalar quote_string needs_quote
scalar-ne_nil [] h = cc
scalar-ne_nil (c ∷ s) h = ground arith

pub ends_with-concat : (s : Text) (c : ℕ) → ends_with c (s ++ c ∷ []) ≡ true
unfolding ends_with
ends_with-concat [] c = ground arith
ends_with-concat (d ∷ []) c = ground arith
ends_with-concat (d ∷ e ∷ s) c = ends_with-concat (e ∷ s) c

-- a text in quotes is unquoted
unquote_scalar-ends :
    (s : Text)
    → s ≢ []
    → ends_with b'"' s ≡ true
    → unquote_scalar (b'"' ∷ s) ≡ or_raw (b'"' ∷ s) (unquote_string (b'"' ∷ s))
unfolding unquote_scalar
unquote_scalar-ends [] ne h = absurd (ne refl)
unquote_scalar-ends (d ∷ s) ne h = rw h

concat-ne : (s : Text) (c : ℕ) → s ++ c ∷ [] ≢ []
concat-ne [] c h = cc
concat-ne (d ∷ s) c h = cc

quote_string-ends :
    (s : Text)
    → unquote_scalar (quote_string s) ≡ or_raw (quote_string s) (unquote_string (quote_string s))
unfolding quote_string
quote_string-ends s =
    unquote_scalar-ends (escape s ++ b'"' ∷ []) (concat-ne (escape s) b'"')
      (ends_with-concat (escape s) b'"')

unquote_scalar-quote_string : (s : Text) → unquote_scalar (quote_string s) ≡ s
unquote_scalar-quote_string s =
    quote_string-ends s ∙ ap (or_raw (quote_string s)) (unquote_string-quote_string s)

pub unquote_scalar-plain : (s : Text) → needs_quote s ≡ false → unquote_scalar s ≡ s
unfolding unquote_scalar needs_quote is_indicator
unquote_scalar-plain [] h = refl
unquote_scalar-plain (c ∷ []) h = refl
unquote_scalar-plain (c ∷ d ∷ s) h = ground arith

-- Every text is read back from the scalar that it is rendered to.
pub unquote_scalar-scalar : (s : Text) → unquote_scalar (scalar s) ≡ s
unfolding scalar
unquote_scalar-scalar s = elim (Bool-cases (needs_quote s)) [
  | inl e ↦ rw e (unquote_scalar-quote_string s)
  | inr e ↦ rw e (unquote_scalar-plain s e)
]
