-- ===== src/Effect.antt =====
-- Rust's `Result`, and calls that read and change a world.
use ibis_assistant.Prelude.{Bool, true, false}

-- `Result<A, E>`
pub data Fallible (E A : Type 0) : Type 0 where
  ok : A → Fallible E A
  err : E → Fallible E A

abbrev pub is_ok : {E A : Type 0} → Fallible E A → Bool
is_ok (ok _) = true
is_ok (err _) = false

-- What a call does: it reads and changes the world, and returns.
abbrev pub Action : Type 0 → Type 0 → Type 0
Action S A = S → A × S

infixl 5 ◌>>=◌
abbrev pub ◌>>=◌ : {S A B : Type 0} → Action S A → (A → Action S B) → Action S B
◌>>=◌ m f s = let (a, s') = m s in f a s'

abbrev pub pure : {S A : Type 0} → A → Action S A
pure a s = (a, s)
