-- ===== src/Records/Value/Formatted.antt =====
-- A record's id in plain form, put together again (ids.rs, `record_id_to_plain`, `format_record`).
use ibis_assistant.Prelude.{◌≡◌, ◌∙◌, false, some, ◌∷◌, ◌++◌, inl, inr, Bool-cases}
use ibis_assistant.Text.{Text}
use ibis_assistant.Text.Split.{contains}
use ibis_assistant.Records.{is_wrapped, format_parts, format_record_id}
use ibis_assistant.Records.Format.Twice.{opens, format_complete, format-plain, format-wrapped}
use ibis_assistant.Records.Value.{string, format_record, record_id_to_plain}

format_parts-format :
    (a k : Text)
    → contains b':' k ≡ false
    → format_parts (a ++ (b':' ∷ k)) (some (a, k)) ≡ format_record_id a k
unfolding format_parts
format_parts-format a k n = elim (Bool-cases (is_wrapped k)) [
  | inl w ↦ rw (w, format-wrapped a k w)
  | inr w ↦ rw (w, format-plain a k w n)
]

-- The plain form of a record with a text key, put together again, is the formatted record: the key
-- has no colon in it, and the table's name has none and no bracket in front.
format-plain-record :
    {Other : Type 0} (to_sql : Other → Text) (u table key : Text)
    → contains b':' table ≡ false
    → opens table ≡ false
    → contains b':' key ≡ false
    → format_record_id u (record_id_to_plain to_sql (record { table = table; key = string key }))
      ≡ format_record to_sql (record { table = table; key = string key })
unfolding record_id_to_plain format_record
format-plain-record to_sql u table key n o k =
    format_complete u table key n o ∙ format_parts-format table key k
