-- ===== src/Text/Number.antt =====
-- `i64` and its `Display`.
use ibis_assistant.Prelude.{ℕ, zero, suc, ◌+◌, ◌/◌, ◌%◌, ltb, [], ◌∷◌, ◌++◌, if◌then◌else◌}
use ibis_assistant.Text.{Text}

-- an `i64`: `negsuc n` is -(n + 1)
pub data ℤ : Type 0 where
  pos : ℕ → ℤ
  negsuc : ℕ → ℤ

-- decimal digits; the fuel `suc n` is enough, for `n / 10` is below `n`
unfoldable pub decimal : ℕ → ℕ → Text
decimal zero n = []
decimal (suc fuel) n =
    let rest = decimal fuel (n / 10) in
    if ltb n 10 then (b'0' + n) ∷ [] else rest ++ (b'0' + n % 10) ∷ []

-- `Display` of an `i64`
unfoldable pub int_text : ℤ → Text
unfolding decimal
int_text (pos n) = decimal (suc n) n
int_text (negsuc n) = b'-' ∷ decimal (suc (suc n)) (suc n)
