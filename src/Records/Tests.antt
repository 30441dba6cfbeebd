-- ===== src/Records/Tests.antt =====
-- Runs of the record-id helpers, among them the rows of the tests of ids.rs.
use ibis_assistant.Prelude.{◌≡◌, refl, true, false, some, map}
use ibis_assistant.Text.{Text, str, ascii_lower}
use ibis_assistant.Text.Run.{text_runs}
use ibis_assistant.Records.{
  table_matches, is_safe_record_id, format_record_id, drop_quotes, collapse, trim_under_start,
  under_end, trim_under_end, sanitize_id, escape_sql_char, escape_sql,
}
use ibis_assistant.Records.Escape.{read_literal, read_literal-escape_sql}
use ibis_assistant.Records.Format.{format-sanitize-safe}
use ibis_assistant.Records.Value.{
  object, field, no_field, text, get_text, coerce_record_id_map, coerce_record_id,
}

abbrev lower : Text → Text
lower = map ascii_lower

path_sanitized : sanitize_id lower (str "c:\\Users\\Foo's\\Code.cs") ≡ str "c_users_foos_code_cs"
unfolding sanitize_id drop_quotes collapse trim_under_start under_end trim_under_end text_runs
path_sanitized = refl

read_literal-escape_sql_example :
    read_literal (str "It\\'s\\n' OR 1") ≡ some (str "It's\n", str " OR 1")
unfolding escape_sql escape_sql_char
read_literal-escape_sql_example = read_literal-escape_sql (str "It's\n") (str " OR 1")

unsafe_refused : is_safe_record_id (str "x; DELETE repo;") ≡ false
unfolding is_safe_record_id text_runs
unsafe_refused = refl

format-sanitize-safe_example :
    is_safe_record_id (format_record_id (str "file") (sanitize_id lower (str "a/b.rs"))) ≡ true
unfolding sanitize_id drop_quotes collapse trim_under_start under_end trim_under_end table_matches
    text_runs
format-sanitize-safe_example = format-sanitize-safe lower (str "file") (str "a/b.rs") refl (λ h. cc)

object_coerced :
    coerce_record_id {Other = Text}
      (λ t. t)
      (object
        (field (str "tb") (text (str "file_chunk")) (field (str "id") (text (str "abc")) no_field)))
    ≡ str "file_chunk:abc"
unfolding coerce_record_id coerce_record_id_map get_text text_runs
object_coerced = refl
