-- ===== src/Text/Trim.antt =====
-- `str::trim`, `trim_start` and `trim_end`: what Unicode calls White_Space goes from the ends.
use ibis_assistant.Prelude.{
  ℕ, ◌≡◌, refl, ap, ◌∙◌, Bool, true, false, ◌||◌, ◌&&◌, [], ◌∷◌, ◌++◌, inl, inr, arith, leb, ◌==◌,
  if◌then◌else◌, Bool-cases, any,
}
use ibis_assistant.Text.{Text}

-- `char::is_whitespace`
unfoldable pub is_whitespace : ℕ → Bool
is_whitespace c =
    c == 32
    || (leb 9 c && leb c 13)
    || c == 0x85
    || c == 0xa0
    || c == 0x1680
    || (leb 0x2000 c && leb c 0x200a)
    || c == 0x2028
    || c == 0x2029
    || c == 0x202f
    || c == 0x205f
    || c == 0x3000

unfoldable pub trim_start : Text → Text
trim_start [] = []
trim_start (c ∷ s) = if is_whitespace c then trim_start s else c ∷ s

-- in front of what `trim_end` left of the rest
unfoldable pub cons_end : ℕ → Text → Text
cons_end c [] = if is_whitespace c then [] else c ∷ []
cons_end c (d ∷ s) = c ∷ d ∷ s

unfoldable pub trim_end : Text → Text
trim_end [] = []
trim_end (c ∷ s) = cons_end c (trim_end s)

unfoldable pub trim : Text → Text
trim s = trim_end (trim_start s)

trim_end-cons_end : (c : ℕ) (s : Text) → trim_end s ≡ s → trim_end (cons_end c s) ≡ cons_end c s
unfolding trim_end cons_end
trim_end-cons_end c [] h = ground arith
trim_end-cons_end c (d ∷ s) h = rw h

pub trim_end_idem : (s : Text) → trim_end (trim_end s) ≡ trim_end s
unfolding trim_end
trim_end_idem [] = refl
trim_end_idem (c ∷ s) = trim_end-cons_end c (trim_end s) (trim_end_idem s)

-- a text that does not begin with white space
abbrev pub Starts : Text → Type 0
Starts [] = Unit
Starts (c ∷ _) = is_whitespace c ≡ false

pub trim_start_id : (s : Text) → Starts s → trim_start s ≡ s
unfolding trim_start
trim_start_id [] h = refl
trim_start_id (c ∷ s) h = rw h

pub trim_start-Starts : (s : Text) → Starts (trim_start s)
unfolding trim_start
trim_start-Starts [] = tt
trim_start-Starts (c ∷ s) = elim (Bool-cases (is_whitespace c)) [
  | inl e ↦ rw e (trim_start-Starts s)
  | inr e ↦ rw e e
]

cons_end-Starts : (c : ℕ) (s : Text) → is_whitespace c ≡ false → Starts (cons_end c s)
unfolding cons_end
cons_end-Starts c [] h = rw h h
cons_end-Starts c (d ∷ s) h = h

trim_end-Starts : (s : Text) → Starts s → Starts (trim_end s)
unfolding trim_end
trim_end-Starts [] h = tt
trim_end-Starts (c ∷ s) h = cons_end-Starts c (trim_end s) h

pub trim-Starts : (s : Text) → Starts (trim s)
unfolding trim
trim-Starts s = trim_end-Starts (trim_start s) (trim_start-Starts s)

-- Trimming twice is trimming once.
pub trim_idem : (s : Text) → trim (trim s) ≡ trim s
unfolding trim
trim_idem s =
    ap trim_end (trim_start_id (trim_end (trim_start s)) (trim-Starts s))
    ∙ trim_end_idem (trim_start s)

-- White space in front goes.
pub trim-cons : (c : ℕ) (s : Text) → is_whitespace c ≡ true → trim (c ∷ s) ≡ trim s
unfolding trim trim_start
trim-cons c s h = rw h

-- A text that ends with another character than white space keeps its end.
pub trim_end-concat :
    (s : Text) (c : ℕ) → is_whitespace c ≡ false → trim_end (s ++ c ∷ []) ≡ s ++ c ∷ []
unfolding trim_end cons_end
trim_end-concat [] c h = rw h
trim_end-concat (d ∷ []) c h = rw (trim_end-concat [] c h)
trim_end-concat (d ∷ e ∷ s) c h = rw (trim_end-concat (e ∷ s) c h)

pub trim-concat :
    (s : Text) (c : ℕ)
    → Starts (s ++ c ∷ [])
    → is_whitespace c ≡ false
    → trim (s ++ c ∷ []) ≡ s ++ c ∷ []
unfolding trim
trim-concat s c b h = rw (trim_start_id (s ++ c ∷ []) b) (trim_end-concat s c h)

-- A text with no white space in it is trimmed.
pub trim_end_black : (s : Text) → any is_whitespace s ≡ false → trim_end s ≡ s
unfolding trim_end cons_end
trim_end_black [] h = refl
trim_end_black (c ∷ []) h = ground arith
trim_end_black (c ∷ d ∷ s) h = rw (trim_end_black (d ∷ s) (ground arith))

pub trim_black : (s : Text) → any is_whitespace s ≡ false → trim s ≡ s
unfolding trim trim_start
trim_black [] h = trim_end_black [] refl
trim_black (c ∷ s) h = rw (head_black c s h) (trim_end_black (c ∷ s) h)
  where
    head_black : (c : ℕ) (s : Text) → any is_whitespace (c ∷ s) ≡ false → is_whitespace c ≡ false
    head_black c s h = ground arith
