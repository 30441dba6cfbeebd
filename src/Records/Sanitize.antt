-- ===== src/Records/Sanitize.antt =====
-- What `sanitize_id` returns, and which ids it leaves alone (ids.rs).
pub mod Fixed
use ibis_assistant.Prelude.{
  ℕ, ◌≡◌, refl, ap, ◌∙◌, Bool, true, false, not, ◌&&◌, ◌||◌, [], ◌∷◌, map, all, arith, ◌==◌,
  if◌then◌else◌, inl, inr, Bool-cases,
}
use ibis_assistant.Text.{Text, is_digit, is_lower, is_upper, is_ascii, ascii_lower}
use ibis_assistant.Text.Split.{ends_with}
use ibis_assistant.Records.{
  is_table_char, drop_quotes, underscored, collapse, trim_under_start, under_end, trim_under_end,
  sanitize_id,
}

abbrev pub starts_under : Text → Bool
starts_under [] = false
starts_under (c ∷ _) = c == b'_'

abbrev pub has_run : Text → Bool
has_run [] = false
has_run (c ∷ s) = (c == b'_' && starts_under s) || has_run s

-- lower-case letters, digits and single underscores, none at an end
abbrev pub is_sanitized : Text → Bool
is_sanitized s =
    all is_table_char s && not (has_run s) && not (starts_under s) && not (ends_with b'_' s)

underscored-table : (s : Text) → all is_table_char (map underscored s) ≡ true
unfolding is_lower is_digit
underscored-table [] = refl
underscored-table (c ∷ s) = ground (arith, underscored-table s)

collapse-table :
    (b : Bool) (s : Text) → all is_table_char s ≡ true → all is_table_char (collapse b s) ≡ true
unfolding collapse
collapse-table b [] h = refl
collapse-table b (c ∷ s) h = ground (arith, collapse-table true s, collapse-table false s)

collapse-start : (s : Text) → starts_under (collapse true s) ≡ false
unfolding collapse
collapse-start [] = refl
collapse-start (c ∷ s) = ground (arith, collapse-start s)

collapse-run : (b : Bool) (s : Text) → has_run (collapse b s) ≡ false
unfolding collapse
collapse-run b [] = refl
collapse-run b (c ∷ s) = ground (arith, collapse-run true s, collapse-run false s, collapse-start s)

start-table :
    (s : Text) → all is_table_char s ≡ true → all is_table_char (trim_under_start s) ≡ true
unfolding trim_under_start
start-table [] h = refl
start-table (c ∷ s) h = ground (arith, start-table s)

start-run : (s : Text) → has_run s ≡ false → has_run (trim_under_start s) ≡ false
unfolding trim_under_start
start-run [] h = refl
start-run (c ∷ s) h = ground (arith, start-run s)

start-start : (s : Text) → starts_under (trim_under_start s) ≡ false
unfolding trim_under_start
start-start [] = refl
start-start (c ∷ s) = ground (arith, start-start s)

under_end-table :
    (c : ℕ) (s : Text) → all is_table_char (c ∷ s) ≡ true → all is_table_char (under_end c s) ≡ true
unfolding under_end
under_end-table c [] h = ground arith
under_end-table c (d ∷ s) h = h

end-table : (s : Text) → all is_table_char s ≡ true → all is_table_char (trim_under_end s) ≡ true
unfolding trim_under_end
end-table [] h = refl
end-table (c ∷ s) h = under_end-table c (trim_under_end s) (ground (arith, end-table s))

under_end-start : (c : ℕ) (s : Text) → (c == b'_') ≡ false → starts_under (under_end c s) ≡ false
unfolding under_end
under_end-start c [] h = ground arith
under_end-start c (d ∷ s) h = h

end-start : (s : Text) → starts_under s ≡ false → starts_under (trim_under_end s) ≡ false
unfolding trim_under_end
end-start [] h = refl
end-start (c ∷ s) h = under_end-start c (trim_under_end s) h

under_end-run : (c : ℕ) (s : Text) → has_run (c ∷ s) ≡ false → has_run (under_end c s) ≡ false
unfolding under_end
under_end-run c [] h = ground arith
under_end-run c (d ∷ s) h = h

end-run : (s : Text) → has_run s ≡ false → has_run (trim_under_end s) ≡ false
unfolding trim_under_end
end-run [] h = refl
end-run (c ∷ s) h = under_end-run c (trim_under_end s) (ground (arith, end-run s, end-start s))

under_end-end :
    (c : ℕ) (s : Text) → ends_with b'_' s ≡ false → ends_with b'_' (under_end c s) ≡ false
unfolding under_end ends_with
under_end-end c [] h = ground arith
under_end-end c (d ∷ s) h = h

end-end : (s : Text) → ends_with b'_' (trim_under_end s) ≡ false
unfolding trim_under_end
end-end [] = unfold ends_with in refl
end-end (c ∷ s) = under_end-end c (trim_under_end s) (end-end s)

-- A sanitized id has lower-case letters, digits and single underscores only, and an underscore at
-- neither end, whatever the text and whatever lower case is.
pub sanitize_id-IsSanitized :
    (to_lowercase : Text → Text) (s : Text) → is_sanitized (sanitize_id to_lowercase s) ≡ true
unfolding sanitize_id
sanitize_id-IsSanitized to_lowercase s =
    let raw = map underscored (drop_quotes (to_lowercase s)) in
    let low = collapse false raw in
    let mid = trim_under_start low in
    rw (
      end-table mid (
          start-table low
            (collapse-table false raw (underscored-table (drop_quotes (to_lowercase s))))),
      end-run mid (start-run low (collapse-run false raw)),
      end-start mid (start-start low),
      end-end mid,
    )
