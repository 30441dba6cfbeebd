-- ===== src/Text.antt =====
-- Rust's `str` as the program uses it: a list of Unicode scalar values.
pub mod Trim
pub mod Split
pub mod Map
pub mod Number
pub mod Bytes
pub mod Lines
pub mod Order
pub mod Run
use Prim.Native.Char.{code}
use ibis_assistant.Prelude.{
  ℕ, ◌+◌, String, ◌≡◌, refl, ◌↔◌, Bool, true, false, ◌&&◌, ◌||◌, List, [], ◌∷◌, arith, leb, ltb,
  ◌==◌, if◌then◌else◌,
}

abbrev pub Text : Type 0
Text = List ℕ

-- a literal of the source
abbrev pub str : String → Text
str String.[] = []
str (String.◌∷◌ c s) = code c ∷ str s

-- `==` on texts
unfoldable pub text_eq : Text → Text → Bool
text_eq [] [] = true
text_eq (x ∷ a) (y ∷ b) = x == y && text_eq a b
text_eq _ _ = false

pub text_eq_iff : (a b : Text) → (text_eq a b ≡ true) ↔ (a ≡ b)
unfolding text_eq
text_eq_iff (x ∷ a) (y ∷ b) = ground (arith, text_eq_iff a b)
text_eq_iff _ _ = ground arith

pub text_eq_refl : (a : Text) → text_eq a a ≡ true
text_eq_refl a = (text_eq_iff a a).1 refl

-- a text that is one literal is not another
pub text_eq-excludes :
    (h a b : Text) → text_eq h a ≡ true → text_eq a b ≡ false → text_eq h b ≡ false
text_eq-excludes h a b p q = rw ((text_eq_iff h a).0 p) q

unfoldable pub is_empty : Text → Bool
is_empty [] = true
is_empty (_ ∷ _) = false

-- `char::is_ascii_digit`, `is_ascii_lowercase`, `is_ascii_uppercase`
unfoldable pub is_digit : ℕ → Bool
is_digit c = leb b'0' c && leb c b'9'

unfoldable pub is_lower : ℕ → Bool
is_lower c = leb b'a' c && leb c b'z'

unfoldable pub is_upper : ℕ → Bool
is_upper c = leb b'A' c && leb c b'Z'

unfoldable pub is_alphanumeric : ℕ → Bool
unfolding is_digit is_lower is_upper
is_alphanumeric c = is_digit c || is_lower c || is_upper c

unfoldable pub is_ascii : ℕ → Bool
is_ascii c = ltb c 128

-- `to_ascii_lowercase` of one character
unfoldable pub ascii_lower : ℕ → ℕ
unfolding is_upper
ascii_lower c = if is_upper c then c + 32 else c
