-- ===== src/Records/Format/Twice.antt =====
-- Putting an id together twice changes nothing (ids.rs, `format_record_id`).
use ibis_assistant.Prelude.{
  ℕ, ◌≡◌, refl, ap, ◌∙◌, sym, Bool, true, false, not, ◌&&◌, ◌||◌, Option, none, some, [], ◌∷◌, ◌++◌,
  arith, if◌then◌else◌, inl, inr, Bool-cases, Option-cases,
}
use ibis_assistant.Text.{Text, str, text_eq}
use ibis_assistant.Text.Split.{
  contains, starts_with, ends_with, split_once, split_once_sound, split_once-append,
}
use ibis_assistant.Claims.Scalar.Plain.{contains-append, ends_with-concat}
use ibis_assistant.Records.{
  open_bracket, close_bracket, is_numeric_id, is_wrapped, wrap, format_parts, format_record_id,
}

abbrev pub opens : Text → Bool
opens s = starts_with (open_bracket ∷ []) s

opens-colon : (a k : Text) → opens a ≡ false → opens (a ++ (b':' ∷ k)) ≡ false
unfolding starts_with
opens-colon [] k h = refl
opens-colon (c ∷ a) k h = h

-- what becomes of a complete id
pub format_complete :
    (u a k : Text)
    → contains b':' a ≡ false
    → opens a ≡ false
    → format_record_id u (a ++ (b':' ∷ k)) ≡ format_parts (a ++ (b':' ∷ k)) (some (a, k))
unfolding format_record_id
format_complete u a k n o =
    rw (opens-colon a k o, contains-append b':' a (b':' ∷ k), n, split_once-append b':' a k n)

wrap-wrapped : (k : Text) → is_wrapped (open_bracket ∷ (k ++ close_bracket ∷ [])) ≡ true
unfolding starts_with
wrap-wrapped k = ends_with-concat (open_bracket ∷ k) close_bracket

-- an id whose key needs nothing stays
format_stays :
    (u a k : Text)
    → contains b':' a ≡ false
    → opens a ≡ false
    → (is_wrapped k || (is_numeric_id k && text_eq a (str "issue"))) ≡ true
    → format_record_id u (a ++ (b':' ∷ k)) ≡ a ++ (b':' ∷ k)
format_stays u a k n o w = format_complete u a k n o ∙ (unfold format_parts in ground arith)

parts_idem :
    (u a k : Text)
    → contains b':' a ≡ false
    → opens a ≡ false
    → format_record_id u (format_parts (a ++ (b':' ∷ k)) (some (a, k)))
      ≡ format_parts (a ++ (b':' ∷ k)) (some (a, k))
unfolding format_parts
parts_idem u a k n o = elim (Bool-cases (is_wrapped k)) [
  | inl w ↦ rw w (format_stays u a k n o (rw w))
  | inr w ↦ elim (Bool-cases (is_numeric_id k && text_eq a (str "issue"))) [
    | inl i ↦ rw (w, i) (format_stays u a k n o (rw (w, i)))
    | inr i ↦
        rw (w, i)
          (format_stays u a (open_bracket ∷ (k ++ close_bracket ∷ [])) n o (rw (wrap-wrapped k)))
  ]
]

split_once-none : (sep : ℕ) (s : Text) → split_once sep s ≡ none → contains sep s ≡ false
unfolding split_once
split_once-none sep [] h = refl
split_once-none sep (c ∷ s) h = elim (Option-cases (split_once sep s)) [
  | inl e ↦ ground (arith, split_once-none sep s e)
  | inr (a, e) ↦ ground (arith, e)
]

opens-left : (a k : Text) → opens (a ++ (b':' ∷ k)) ≡ false → opens a ≡ false
unfolding starts_with
opens-left [] k h = refl
opens-left (c ∷ a) k h = h

complete_idem :
    (u id : Text) (o : Option (Text × Text))
    → split_once b':' id ≡ o
    → contains b':' id ≡ true
    → opens id ≡ false
    → format_record_id u (format_parts id o) ≡ format_parts id o
complete_idem u id none e c h = ground (arith, split_once-none b':' id e)
complete_idem u id (some (a, k)) e c h =
    let (p, n) = split_once_sound b':' id a k e in
    rw p (parts_idem u a k n (opens-left a k (sym (ap opens p) ∙ h)))

pub format-wrapped :
    (table id : Text) → is_wrapped id ≡ true → format_record_id table id ≡ table ++ (b':' ∷ id)
unfolding format_record_id
format-wrapped table id w = rw w

format_of_complete :
    (table id : Text)
    → is_wrapped id ≡ false
    → contains b':' id ≡ true
    → format_record_id table id ≡ format_parts id (split_once b':' id)
unfolding format_record_id
format_of_complete table id w c = rw (w, c)

pub format-plain :
    (table id : Text)
    → is_wrapped id ≡ false
    → contains b':' id ≡ false
    → format_record_id table id ≡ (
        if is_numeric_id id && text_eq table (str "issue")
        then table ++ (b':' ∷ id)
        else wrap table id)
unfolding format_record_id
format-plain table id w c = rw (w, c)

plain_idem :
    (u table id : Text)
    → contains b':' table ≡ false
    → opens table ≡ false
    → is_wrapped id ≡ false
    → contains b':' id ≡ false
    → format_record_id u (format_record_id table id) ≡ format_record_id table id
plain_idem u table id n o w c =
    rw (format-plain table id w c)
      (elim (Bool-cases (is_numeric_id id && text_eq table (str "issue"))) [
        | inl i ↦ rw i (format_stays u table id n o (rw (w, i)))
        | inr i ↦ rw i (
            format_stays u table (open_bracket ∷ (id ++ close_bracket ∷ [])) n o
              (rw (wrap-wrapped id)))
      ])

-- Putting together what is put together changes nothing, with the same or another table: the
-- table's name has no colon in it and no bracket in front, and an id that begins with a bracket
-- ends with one.
format_record_id_idem :
    (u table id : Text)
    → contains b':' table ≡ false
    → opens table ≡ false
    → (opens id && not (ends_with close_bracket id)) ≡ false
    → format_record_id u (format_record_id table id) ≡ format_record_id table id
format_record_id_idem u table id n o b = elim (Bool-cases (is_wrapped id)) [
  | inl w ↦ rw (format-wrapped table id w) (format_stays u table id n o (rw w))
  | inr w ↦ elim (Bool-cases (contains b':' id)) [
    | inl c ↦
        rw (format_of_complete table id w c)
          (complete_idem u id (split_once b':' id) refl c (ground arith))
    | inr c ↦ plain_idem u table id n o w c
  ]
]
