-- ===== src/Text/Bytes.antt =====
-- `str::len`: how many bytes a text takes as UTF-8.
use ibis_assistant.Prelude.{ℕ, ◌+◌, ◌≡◌, [], ◌∷◌, ◌++◌, arith, ltb, if◌then◌else◌}
use ibis_assistant.Text.{Text}

-- `char::len_utf8`
unfoldable pub len_utf8 : ℕ → ℕ
len_utf8 c = if ltb c 0x80 then 1 else if ltb c 0x800 then 2 else if ltb c 0x10000 then 3 else 4

unfoldable pub byte_len : Text → ℕ
unfolding len_utf8
byte_len [] = 0
byte_len (c ∷ s) = len_utf8 c + byte_len s

pub byte_len-append : (a b : Text) → byte_len (a ++ b) ≡ byte_len a + byte_len b
unfolding byte_len
byte_len-append [] b = omega arith
byte_len-append (c ∷ a) b = omega (arith, byte_len-append a b)
