-- ===== src/Claims/Scalar/Quote.antt =====
-- Quoting is undone by unquoting, for every text (claims.rs, `quote_string`, `unquote_string`).
use ibis_assistant.Prelude.{
  ℕ, zero, suc, ◌/◌, ◌%◌, ◌<◌, ◌≡◌, refl, ap, ◌∙◌, Bool, true, false, if◌then◌else◌, none, some, [],
  ◌∷◌, ◌++◌, arith, ltb, ltb→lt, ◌==◌,
}
use ibis_assistant.Text.{Text}
use ibis_assistant.Claims.Scalar.{
  hex_digit, escape_char, escape, quote_string, hex_byte, escaped, cons_opt, unescape, strip_quote,
  unquote_string,
}

abbrev is_hex_of : ℕ → Bool
is_hex_of c = elim (hex_byte (hex_digit (c / 16)) (hex_digit (c % 16))) [
  | none ↦ false
  | some b ↦ b == c
]

-- The control characters up to a bound are checked by evaluation, from the highest one down.
hex_until : ℕ → Bool
hex_until zero = true
hex_until (suc k) = if is_hex_of k then hex_until k else false

hex_until-is_hex_of : (c k : ℕ) → c < k → hex_until k ≡ true → is_hex_of c ≡ true
unfolding hex_until
hex_until-is_hex_of c zero below checked = absurd (omega arith)
hex_until-is_hex_of c (suc k) below checked = ground (arith, hex_until-is_hex_of c k)

hex_table : hex_until 32 ≡ true
unfolding hex_until hex_byte hex_digit
hex_table = refl

hex_byte-hex_digit :
    (c : ℕ) → ltb c 32 ≡ true → hex_byte (hex_digit (c / 16)) (hex_digit (c % 16)) ≡ some c
hex_byte-hex_digit c h = ground (arith, hex_until-is_hex_of c 32 (ltb→lt c 32 h) hex_table)

unescape-plain :
    (c : ℕ) (r : Text) → (c == b'\\') ≡ false → unescape (c ∷ r) ≡ cons_opt c (unescape r)
unfolding unescape
unescape-plain c [] h = rw (h, unescape)
unescape-plain c (d ∷ []) h = rw (h, unescape)
unescape-plain c (d ∷ e ∷ []) h = rw (h, unescape)
unescape-plain c (d ∷ e ∷ f ∷ r) h = rw (h, unescape)

unescape-escaped :
    (d e : ℕ) (r : Text)
    → (d == b'x') ≡ false
    → escaped d ≡ some e
    → unescape (b'\\' ∷ d ∷ r) ≡ cons_opt e (unescape r)
unfolding unescape
unescape-escaped d e [] x h = rw (h, unescape)
unescape-escaped d e (f ∷ []) x h = rw (h, unescape)
unescape-escaped d e (f ∷ g ∷ r) x h = rw (x, h, unescape)

unescape-hex :
    (c : ℕ) (r : Text)
    → ltb c 32 ≡ true
    → unescape (b'\\' ∷ b'x' ∷ hex_digit (c / 16) ∷ hex_digit (c % 16) ∷ r)
      ≡ cons_opt c (unescape r)
unfolding unescape
unescape-hex c r h = rw (hex_byte-hex_digit c h, unescape) (rw (small c h))
  where
    small : (c : ℕ) → ltb c 32 ≡ true → ltb c 128 ≡ true
    small c h = ground arith

-- one character, whatever follows
unescape-escape_char : (c : ℕ) (r : Text) → unescape (escape_char c ++ r) ≡ cons_opt c (unescape r)
unfolding escape_char escaped
unescape-escape_char c r = ground (
  arith,
  unescape-escaped b'"' b'"' r,
  unescape-escaped b'\\' b'\\' r,
  unescape-escaped b'n' b'\n' r,
  unescape-escaped b'r' b'\r' r,
  unescape-escaped b't' b'\t' r,
  unescape-hex c r,
  unescape-plain c r,
)

unescape-escape : (s : Text) → unescape (escape s) ≡ some s
unfolding escape
unescape-escape [] = unfold unescape in refl
unescape-escape (c ∷ s) = unescape-escape_char c (escape s) ∙ ap (cons_opt c) (unescape-escape s)

strip_quote-concat : (s : Text) → strip_quote (s ++ b'"' ∷ []) ≡ some s
unfolding strip_quote
strip_quote-concat [] = refl
strip_quote-concat (c ∷ []) = refl
strip_quote-concat (c ∷ d ∷ s) = ap (cons_opt c) (strip_quote-concat (d ∷ s))

-- Unquoting undoes quoting, for every text.
pub unquote_string-quote_string : (s : Text) → unquote_string (quote_string s) ≡ some s
unfolding unquote_string quote_string
unquote_string-quote_string s = rw (strip_quote-concat, unescape-escape)
