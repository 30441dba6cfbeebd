-- ===== src/Records/Escape.antt =====
-- `escape_sql` against a reader of single-quoted literals (ids.rs).
use ibis_assistant.Prelude.{
  ℕ, ◌≡◌, ◌≢◌, refl, ap, ◌∙◌, Option, none, some, [], ◌∷◌, ◌++◌, arith, ◌==◌, if◌then◌else◌,
}
use mathlib.Core.List.{append_assoc}
use ibis_assistant.Text.{Text}
use ibis_assistant.Records.{escape_sql, escape_sql_char}

-- the character behind a backslash
abbrev pub unescaped : ℕ → ℕ
unescaped c = if c == b'n' then b'\n' else c

abbrev with_char : ℕ → Option (Text × Text) → Option (Text × Text)
with_char c none = none
with_char c (some (s, rest)) = some (c ∷ s, rest)

-- What SurrealQL reads behind an opening quote: the text of the literal, and what follows the
-- quote that closes it.
unfoldable pub read_literal : Text → Option (Text × Text)
read_literal [] = none
read_literal (c ∷ []) = if c == b'\'' then some ([], []) else none
read_literal (c ∷ d ∷ s) =
    let plain = read_literal (d ∷ s) in
    let escaped = read_literal s in
    if c == b'\''
    then some ([], d ∷ s)
    else if c == b'\\'
    then with_char (unescaped d) escaped
    else with_char c plain

read_literal-char :
    (c : ℕ) (t : Text)
    → t ≢ []
    → read_literal (escape_sql_char c ++ t) ≡ with_char c (read_literal t)
unfolding read_literal escape_sql_char
read_literal-char c [] h = absurd (h refl)
read_literal-char c (a ∷ t) h = ground arith

quote-ne_nil : (s rest : Text) → s ++ (b'\'' ∷ rest) ≢ []
quote-ne_nil [] rest h = cc
quote-ne_nil (c ∷ s) rest h = cc

-- An escaped text in single quotes is one literal: it is read as the text, and the quote that
-- closes it is the one that was put behind it.
pub read_literal-escape_sql :
    (s rest : Text) → read_literal (escape_sql s ++ (b'\'' ∷ rest)) ≡ some (s, rest)
unfolding escape_sql
read_literal-escape_sql [] [] = unfold read_literal in refl
read_literal-escape_sql [] (c ∷ rest) = unfold read_literal in refl
read_literal-escape_sql (c ∷ s) rest =
    ap read_literal (append_assoc (escape_sql_char c) (escape_sql s) (b'\'' ∷ rest))
    ∙ (read_literal-char c (escape_sql s ++ (b'\'' ∷ rest)) (quote-ne_nil (escape_sql s) rest)
        ∙ ap (with_char c) (read_literal-escape_sql s rest))
