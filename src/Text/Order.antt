-- ===== src/Text/Order.antt =====
-- Sorted texts without repetitions: `sort` and `dedup` of a vector of strings, whose bytes are
-- compared, and so their code points.
pub mod Unique
use ibis_assistant.Prelude.{
  [], ◌≡◌, refl, ◌∙◌, Bool, true, false, not, ◌&&◌, ◌||◌, List, ◌∷◌, inl, inr, arith, ltb, ◌==◌,
  if◌then◌else◌, Bool-cases, all, any,
}
use ibis_assistant.Text.{Text, text_eq, text_eq_iff}

unfoldable pub text_le : Text → Text → Bool
text_le [] b = true
text_le (x ∷ a) [] = false
text_le (x ∷ a) (y ∷ b) = let rest = text_le a b in if x == y then rest else ltb x y

unfoldable pub insert_sorted : Text → List Text → List Text
insert_sorted x [] = x ∷ []
insert_sorted x (y ∷ l) =
    let rest = insert_sorted x l in if text_le x y then x ∷ y ∷ l else y ∷ rest

-- `sort`: the order has no two texts that are alike, so that there is one result
unfoldable pub sort : List Text → List Text
sort [] = []
sort (x ∷ l) = insert_sorted x (sort l)

abbrev pub cons_new : Text → List Text → List Text
cons_new x [] = x ∷ []
cons_new x (y ∷ l) = if text_eq x y then y ∷ l else x ∷ y ∷ l

-- `dedup`: of texts that are alike and stand together one is kept
unfoldable pub dedup : List Text → List Text
dedup [] = []
dedup (x ∷ l) = cons_new x (dedup l)

abbrev pub member : Text → List Text → Bool
member k l = any (λ y. text_eq k y) l

pub text_le_total : (a b : Text) → text_le a b ≡ false → text_le b a ≡ true
unfolding text_le
text_le_total [] b h = cc
text_le_total (x ∷ a) [] h = refl
text_le_total (x ∷ a) (y ∷ b) h = ground (arith, text_le_total a b)

text_le_antisym : (a b : Text) → text_le a b ≡ true → text_le b a ≡ true → text_eq a b ≡ true
unfolding text_le text_eq
text_le_antisym [] [] h k = refl
text_le_antisym [] (y ∷ b) h k = cc
text_le_antisym (x ∷ a) [] h k = cc
text_le_antisym (x ∷ a) (y ∷ b) h k = ground (arith, text_le_antisym a b)

text_le_trans : (a b c : Text) → text_le a b ≡ true → text_le b c ≡ true → text_le a c ≡ true
unfolding text_le
text_le_trans [] b c h k = refl
text_le_trans (x ∷ a) [] c h k = cc
text_le_trans (x ∷ a) (y ∷ b) [] h k = cc
text_le_trans (x ∷ a) (y ∷ b) (z ∷ c) h k = ground (arith, text_le_trans a b c)

abbrev pub before : Text → Text → Bool
before a b = not (text_le b a)

-- no text of a list comes behind a later one
abbrev pub IsSorted : List Text → Type 0
IsSorted [] = Unit
IsSorted (x ∷ l) = (all (text_le x) l ≡ true) × IsSorted l

-- each comes in front of the later ones
abbrev pub IsIncreasing : List Text → Type 0
IsIncreasing [] = Unit
IsIncreasing (x ∷ l) = (all (before x) l ≡ true) × IsIncreasing l

all-le_trans :
    (x y : Text) (l : List Text)
    → text_le x y ≡ true
    → all (text_le y) l ≡ true
    → all (text_le x) l ≡ true
all-le_trans x y [] h k = refl
all-le_trans x y (z ∷ l) h k = ground (arith, text_le_trans x y z, all-le_trans x y l)

all-before_trans :
    (x y : Text) (l : List Text)
    → text_le x y ≡ true
    → all (before y) l ≡ true
    → all (before x) l ≡ true
all-before_trans x y [] h k = refl
all-before_trans x y (z ∷ l) h k = ground (arith, text_le_trans z x y, all-before_trans x y l)

all-insert_sorted :
    (p : Text → Bool) (x : Text) (l : List Text) → all p (insert_sorted x l) ≡ (p x && all p l)
unfolding insert_sorted
all-insert_sorted p x [] = refl
all-insert_sorted p x (y ∷ l) = ground (arith, all-insert_sorted p x l)

any-insert_sorted :
    (p : Text → Bool) (x : Text) (l : List Text) → any p (insert_sorted x l) ≡ (p x || any p l)
unfolding insert_sorted
any-insert_sorted p x [] = refl
any-insert_sorted p x (y ∷ l) = ground (arith, any-insert_sorted p x l)

pub any-sort : (p : Text → Bool) (l : List Text) → any p (sort l) ≡ any p l
unfolding sort
any-sort p [] = refl
any-sort p (x ∷ l) = ground (arith, any-insert_sorted p x (sort l), any-sort p l)

insert_sorted-IsSorted : (x : Text) (l : List Text) → IsSorted l → IsSorted (insert_sorted x l)
unfolding insert_sorted
insert_sorted-IsSorted x [] h = (refl, tt)
insert_sorted-IsSorted x (y ∷ l) h = elim (Bool-cases (text_le x y)) [
  | inl e ↦ rw e (rw (e, all-le_trans x y l e h.0), h)
  | inr e ↦ rw e (
    all-insert_sorted (text_le y) x l ∙ rw (text_le_total x y e, h.0),
    insert_sorted-IsSorted x l h.1,
  )
]

pub sort-IsSorted : (l : List Text) → IsSorted (sort l)
unfolding sort
sort-IsSorted [] = tt
sort-IsSorted (x ∷ l) = insert_sorted-IsSorted x (sort l) (sort-IsSorted l)

all-cons_new :
    (p : Text → Bool) (x : Text) (l : List Text) → all p (cons_new x l) ≡ (p x && all p l)
all-cons_new p x [] = refl
all-cons_new p x (y ∷ l) = elim (Bool-cases (text_eq x y)) [
  | inl e ↦ rw e (rw ((text_eq_iff x y).0 e) (ground arith))
  | inr e ↦ rw e
]

any-cons_new :
    (p : Text → Bool) (x : Text) (l : List Text) → any p (cons_new x l) ≡ (p x || any p l)
any-cons_new p x [] = refl
any-cons_new p x (y ∷ l) = elim (Bool-cases (text_eq x y)) [
  | inl e ↦ rw e (rw ((text_eq_iff x y).0 e) (ground arith))
  | inr e ↦ rw e
]

all-dedup : (p : Text → Bool) (l : List Text) → all p (dedup l) ≡ all p l
unfolding dedup
all-dedup p [] = refl
all-dedup p (x ∷ l) = all-cons_new p x (dedup l) ∙ rw (all-dedup p l)

pub any-dedup : (p : Text → Bool) (l : List Text) → any p (dedup l) ≡ any p l
unfolding dedup
any-dedup p [] = refl
any-dedup p (x ∷ l) = any-cons_new p x (dedup l) ∙ rw (any-dedup p l)

cons_new-IsIncreasing :
    (x : Text) (l : List Text)
    → all (text_le x) l ≡ true
    → IsIncreasing l
    → IsIncreasing (cons_new x l)
cons_new-IsIncreasing x [] h k = (refl, tt)
cons_new-IsIncreasing x (y ∷ l) h k = elim (Bool-cases (text_eq x y)) [
  | inl e ↦ rw e k
  | inr e ↦
      let le : text_le x y ≡ true = ground arith in
      rw e (ground (arith, text_le_antisym x y, all-before_trans x y l le k.0), k)
]

pub dedup-IsIncreasing : (l : List Text) → IsSorted l → IsIncreasing (dedup l)
unfolding dedup
dedup-IsIncreasing [] h = tt
dedup-IsIncreasing (x ∷ l) h =
    cons_new-IsIncreasing x (dedup l) (all-dedup (text_le x) l ∙ h.0) (dedup-IsIncreasing l h.1)
