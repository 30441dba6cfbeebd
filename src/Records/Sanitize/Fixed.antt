-- ===== src/Records/Sanitize/Fixed.antt =====
-- The ids that `sanitize_id` leaves alone (ids.rs).
use ibis_assistant.Prelude.{◌≡◌, refl, Bool, true, false, ◌&&◌, [], ◌∷◌, map, all, arith}
use ibis_assistant.Text.{Text, is_digit, is_lower, is_upper, is_ascii, ascii_lower}
use ibis_assistant.Text.Split.{ends_with}
use ibis_assistant.Records.{
  is_table_char, drop_quotes, underscored, collapse, trim_under_start, under_end, trim_under_end,
  sanitize_id,
}
use ibis_assistant.Records.Sanitize.{starts_under, has_run, is_sanitized, sanitize_id-IsSanitized}

table-ascii : (s : Text) → all is_table_char s ≡ true → all is_ascii s ≡ true
unfolding is_lower is_digit is_ascii
table-ascii [] h = refl
table-ascii (c ∷ s) h = ground (arith, table-ascii s)

lower_id : (s : Text) → all is_table_char s ≡ true → map ascii_lower s ≡ s
unfolding is_lower is_digit is_upper ascii_lower
lower_id [] h = refl
lower_id (c ∷ s) h = ground (arith, lower_id s)

drop_quotes_id : (s : Text) → all is_table_char s ≡ true → drop_quotes s ≡ s
unfolding drop_quotes is_lower is_digit
drop_quotes_id [] h = refl
drop_quotes_id (c ∷ s) h = ground (arith, drop_quotes_id s)

underscored_id : (s : Text) → all is_table_char s ≡ true → map underscored s ≡ s
underscored_id [] h = refl
underscored_id (c ∷ s) h = ground (arith, underscored_id s)

collapse_id :
    (b : Bool) (s : Text) → has_run s ≡ false → (b && starts_under s) ≡ false → collapse b s ≡ s
unfolding collapse
collapse_id b [] h n = refl
collapse_id b (c ∷ s) h n = ground (arith, collapse_id true s, collapse_id false s)

start_id : (s : Text) → starts_under s ≡ false → trim_under_start s ≡ s
unfolding trim_under_start
start_id [] h = refl
start_id (c ∷ s) h = rw h

end_id : (s : Text) → ends_with b'_' s ≡ false → trim_under_end s ≡ s
unfolding trim_under_end under_end ends_with
end_id [] h = refl
end_id (c ∷ []) h = rw h
end_id (c ∷ d ∷ s) h = rw (end_id (d ∷ s) h)

module _ (to_lowercase : Text → Text)
    (lower_ascii : (s : Text) → all is_ascii s ≡ true → to_lowercase s ≡ map ascii_lower s) where
  -- A text that is sanitized is left alone, where lower case is ASCII's on ASCII texts.
  sanitize_id_fixed : (s : Text) → is_sanitized s ≡ true → sanitize_id to_lowercase s ≡ s
  unfolding sanitize_id
  sanitize_id_fixed s h =
      let t = table s h in
      rw (
        lower_ascii s (table-ascii s t),
        lower_id s t,
        drop_quotes_id s t,
        underscored_id s t,
        collapse_id false s (ground arith) refl,
        start_id s (ground arith),
        end_id s (ground arith),
      )
    where
      table : (s : Text) → is_sanitized s ≡ true → all is_table_char s ≡ true
      table s h = ground arith

  -- Sanitizing twice is sanitizing once, where lower case is ASCII's on ASCII texts.
  sanitize_id_idem :
      (s : Text)
      → sanitize_id to_lowercase (sanitize_id to_lowercase s) ≡ sanitize_id to_lowercase s
  sanitize_id_idem s =
      sanitize_id_fixed (sanitize_id to_lowercase s) (sanitize_id-IsSanitized to_lowercase s)
