-- ===== src/Text/Run.antt =====
-- One name on an `unfolding` line for all the text functions: tests run by it.
use ibis_assistant.Text.{
  text_eq, is_empty, is_digit, is_lower, is_upper, is_alphanumeric, is_ascii, ascii_lower,
}
use ibis_assistant.Text.Trim.{is_whitespace, trim_start, cons_end, trim_end, trim}
use ibis_assistant.Text.Split.{
  strip_prefix, starts_with, ends_with, has_suffix, split_once, rsplit_once, split, join,
}
use ibis_assistant.Text.Map.{lookup, retain, remove, insert}

unfoldable pub text_runs : Unit {0}
unfolding text_eq is_empty is_digit is_lower is_upper is_alphanumeric is_ascii ascii_lower
    is_whitespace trim_start cons_end trim_end trim strip_prefix starts_with ends_with has_suffix
    split_once rsplit_once split join lookup retain remove insert
text_runs = tt
