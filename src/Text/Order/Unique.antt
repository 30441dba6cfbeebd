-- ===== src/Text/Order/Unique.antt =====
-- There is one list of given texts that increases: `sort` and `dedup` give it.
use mathlib.Core.Path.{subst}
use ibis_assistant.Prelude.{
  [], ◌≡◌, refl, sym, ap, ◌∙◌, true, false, List, ◌∷◌, inl, inr, arith, Bool-cases, all,
}
use ibis_assistant.Text.{Text, text_eq, text_eq_iff, text_eq_refl}
use ibis_assistant.Text.Order.{
  text_le, sort, dedup, member, before, IsIncreasing, text_le_total, any-sort, any-dedup,
  dedup-IsIncreasing, sort-IsSorted,
}

member-before :
    (x k : Text) (l : List Text) → all (before x) l ≡ true → member k l ≡ true → text_le k x ≡ false
member-before x k [] h m = cc
member-before x k (y ∷ l) h m = elim (Bool-cases (text_eq k y)) [
  | inl e ↦ rw ((text_eq_iff k y).0 e) (ground arith)
  | inr e ↦ ground (arith, member-before x k l)
]

text_le_refl : (a : Text) → text_le a a ≡ true
unfolding text_le
text_le_refl [] = refl
text_le_refl (x ∷ a) = ground (arith, text_le_refl a)

not_member : (x : Text) (l : List Text) → all (before x) l ≡ true → member x l ≡ false
not_member x l h = elim (Bool-cases (member x l)) [
  | inl e ↦ absurd (ground (arith, member-before x x l h e, text_le_refl x))
  | inr e ↦ e
]

-- two lists that increase and begin alike, of the same texts
tails-same :
    (x : Text) (a b : List Text)
    → all (before x) a ≡ true
    → all (before x) b ≡ true
    → ((k : Text) → member k (x ∷ a) ≡ member k (x ∷ b))
    → (k : Text) → member k a ≡ member k b
tails-same x a b h i same k = elim (Bool-cases (text_eq k x)) [
  | inl e ↦ rw ((text_eq_iff k x).0 e) (not_member x a h ∙ sym (not_member x b i))
  | inr e ↦ ground (arith, same k)
]

heads-same :
    (x y : Text) (a b : List Text)
    → all (before x) a ≡ true
    → all (before y) b ≡ true
    → member x (y ∷ b) ≡ true
    → member y (x ∷ a) ≡ true
    → x ≡ y
heads-same x y a b h i m n = elim (Bool-cases (text_eq x y)) [
  | inl e ↦ (text_eq_iff x y).0 e
  | inr e ↦ absurd (
      ground (
        arith,
        text_eq_iff x y,
        text_eq_iff y x,
        member-before y x b i,
        member-before x y a h,
        text_le_total x y,
      ))
]

IsIncreasing-same :
    (a b : List Text)
    → IsIncreasing a
    → IsIncreasing b
    → ((k : Text) → member k a ≡ member k b)
    → a ≡ b
IsIncreasing-same [] [] h i same = refl
IsIncreasing-same [] (y ∷ b) h i same = absurd (ground (arith, same y, text_eq_refl y))
IsIncreasing-same (x ∷ a) [] h i same = absurd (ground (arith, same x, text_eq_refl x))
IsIncreasing-same (x ∷ a) (y ∷ b) h i same =
    let e =
      heads-same x y a b h.0 i.0 (ground (arith, same x, text_eq_refl x))
        (ground (arith, same y, text_eq_refl y)) in
    ap (λ z. z ∷ a) e
    ∙ ap (◌∷◌ y) (
        IsIncreasing-same a b h.1 i.1 (
          tails-same y a b (subst (λ z. all (before z) a ≡ true) e h.0) i.0
            (λ k. ap (λ z. member k (z ∷ a)) (sym e) ∙ same k)))

-- Sorted without repetitions, lists of the same texts are the same list.
pub dedup-sort_same :
    (a b : List Text) → ((k : Text) → member k a ≡ member k b) → dedup (sort a) ≡ dedup (sort b)
dedup-sort_same a b same =
    IsIncreasing-same (dedup (sort a)) (dedup (sort b))
      (dedup-IsIncreasing (sort a) (sort-IsSorted a))
      (dedup-IsIncreasing (sort b) (sort-IsSorted b))
      (λ k.
        any-dedup (text_eq k) (sort a)
        ∙ any-sort (text_eq k) a
        ∙ same k
        ∙ sym (any-dedup (text_eq k) (sort b) ∙ any-sort (text_eq k) b))
