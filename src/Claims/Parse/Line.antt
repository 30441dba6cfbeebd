-- ===== src/Claims/Parse/Line.antt =====
-- One line of the front matter at a time (claims.rs, the loop of `parse`): what the rendered lines
-- do to the state.
use ibis_assistant.Prelude.{
  ℕ, ◌≡◌, refl, ap, ◌∙◌, Bool, true, false, not, ◌&&◌, ◌||◌, none, some, [], ◌∷◌, ◌++◌, all, arith,
  ◌==◌,
}
use ibis_assistant.Effect.{ok}
use ibis_assistant.Text.{
  Text, str, text_eq, is_empty, is_digit, is_lower, is_upper, is_alphanumeric,
}
use ibis_assistant.Text.Trim.{
  is_whitespace, trim_start, trim_end, cons_end, trim, trim_start_id, trim-cons,
}
use ibis_assistant.Text.Split.{contains, split_once-append, strip_prefix}
use ibis_assistant.Text.Map.{lookup, insert}
use ibis_assistant.Claims.{key_matches}
use ibis_assistant.Claims.Scalar.{scalar, trim_blanks, list_item, unquote_scalar}
use ibis_assistant.Claims.Scalar.Plain.{
  no_carriage_return, scalar_clean, scalar_trimmed, unquote_scalar-scalar,
}
use ibis_assistant.Claims.Render.{path_line}
use ibis_assistant.Claims.Parse.{Front, trim_cr, front_line, colon_line, indented_line, key_line}

pub trim_cr_id : (s : Text) → contains b'\r' s ≡ false → trim_cr s ≡ s
unfolding trim_cr
trim_cr_id [] h = refl
trim_cr_id (c ∷ []) h = ground arith
trim_cr_id (c ∷ d ∷ s) h = ap (◌∷◌ c) (trim_cr_id (d ∷ s) (ground arith))

abbrev is_key_char : ℕ → Bool
is_key_char c = is_alphanumeric c || c == b'_' || c == b'-'

key_char-not_white : (c : ℕ) → is_key_char c ≡ true → is_whitespace c ≡ false
unfolding is_alphanumeric is_digit is_lower is_upper is_whitespace
key_char-not_white c h = ground arith

key_char-plain : (c : ℕ) → is_key_char c ≡ true → ((c == b':') ≡ false) × ((c == b'\r') ≡ false)
unfolding is_alphanumeric is_digit is_lower is_upper
key_char-plain c h = ground arith

trim_end-key : (s : Text) → all is_key_char s ≡ true → trim_end s ≡ s
unfolding trim_end cons_end
trim_end-key [] h = refl
trim_end-key (c ∷ []) h = ground (arith, key_char-not_white c)
trim_end-key (c ∷ d ∷ s) h = rw (trim_end-key (d ∷ s) (ground arith))

key-no_colon : (s : Text) → all is_key_char s ≡ true → contains b':' s ≡ false
key-no_colon [] h = refl
key-no_colon (c ∷ s) h = ground (arith, key_char-plain c, key-no_colon s)

key-no_cr : (s : Text) → all is_key_char s ≡ true → contains b'\r' s ≡ false
key-no_cr [] h = refl
key-no_cr (c ∷ s) h = ground (arith, key_char-plain c, key-no_cr s)

-- a line that begins with another character than white space is not blank
trim-not_blank : (c : ℕ) (s : Text) → is_whitespace c ≡ false → is_empty (trim (c ∷ s)) ≡ false
unfolding trim trim_start trim_end cons_end is_empty
trim-not_blank c s h = rw h (go (trim_end s))
  where
    go : (t : Text) → is_empty (cons_end c t) ≡ false
    go [] = rw h
    go (d ∷ t) = refl

trim-key : (c : ℕ) (s : Text) → all is_key_char (c ∷ s) ≡ true → trim (c ∷ s) ≡ c ∷ s
unfolding trim
trim-key c s h =
    ap trim_end (trim_start_id (c ∷ s) (key_char-not_white c (ground arith)))
    ∙ trim_end-key (c ∷ s) h

not_blank-key : (c : ℕ) → is_key_char c ≡ true → (c == b' ' || c == b'\t') ≡ false
unfolding is_alphanumeric is_digit is_lower is_upper
not_blank-key c h = ground arith

abbrev pub with_field : Front → Text → Text → Front
with_field st name q = record st {
  fields = insert name q st.fields;
  in_related = text_eq name (str "related_paths");
}

key_line-fresh :
    (st : Front) (line name q : Text)
    → key_matches name ≡ true
    → lookup name st.fields ≡ none
    → (text_eq name (str "related_paths") && not (is_empty q)) ≡ false
    → key_line st line name q ≡ ok (with_field st name q)
unfolding key_line
key_line-fresh st line name q k f r = rw (k, f, r)

-- the end of a line is the end of its value
trim_cr-value : (a v : Text) → trim_cr (a ++ (b':' ∷ v)) ≡ a ++ (b':' ∷ trim_cr v)
unfolding trim_cr
trim_cr-value [] [] = refl
trim_cr-value [] (d ∷ v) = refl
trim_cr-value (c ∷ []) v = ap (◌∷◌ c) (trim_cr-value [] v)
trim_cr-value (c ∷ d ∷ a) v = ap (◌∷◌ c) (trim_cr-value (d ∷ a) v)

-- A line with a key is read as the key and the value behind its colon, with either line end.
pub front_line-value :
    (st : Front) (name v : Text)
    → key_matches name ≡ true
    → front_line st (name ++ (b':' ∷ v))
      ≡ key_line st (name ++ (b':' ∷ trim_cr v)) name (trim (trim_cr v))
unfolding front_line colon_line key_matches is_empty
front_line-value st [] v k = cc
front_line-value st (c ∷ s) v k = rw (
  trim_cr-value (c ∷ s) v,
  trim-not_blank c (s ++ (b':' ∷ trim_cr v)) (key_char-not_white c (ground arith)),
  not_blank-key c (ground arith),
  split_once-append b':' (c ∷ s) (trim_cr v) (key-no_colon (c ∷ s) (ground arith)),
  trim-key c s (ground arith),
)

pub front_line-key :
    (st : Front) (name v : Text)
    → key_matches name ≡ true
    → contains b'\r' v ≡ false
    → front_line st (name ++ (b':' ∷ v)) ≡ key_line st (name ++ (b':' ∷ v)) name (trim v)
front_line-key st name v k n =
    front_line-value st name v k
    ∙ ap (λ t. key_line st (name ++ (b':' ∷ t)) name (trim t)) (trim_cr_id v n)

-- A line with a new key puts its value under the key.
pub front_line-field :
    (st : Front) (name v q : Text)
    → key_matches name ≡ true
    → lookup name st.fields ≡ none
    → (text_eq name (str "related_paths") && not (is_empty q)) ≡ false
    → contains b'\r' v ≡ false
    → trim v ≡ q
    → front_line st (name ++ (b':' ∷ v)) ≡ ok (with_field st name q)
front_line-field st name v q k f r n t =
    front_line-key st name v k n ∙ rw t (key_line-fresh st (name ++ (b':' ∷ v)) name q k f r)

list_item-path : (p : Text) → list_item (path_line p) ≡ some p
unfolding list_item trim_blanks strip_prefix
list_item-path p = ap some (ap unquote_scalar (scalar_trimmed p) ∙ unquote_scalar-scalar p)

-- A line of the path list appends its path.
pub front_line-path :
    (st : Front) (p : Text)
    → st.in_related ≡ true
    → front_line st (path_line p) ≡ ok (record st { related = st.related ++ p ∷ [] })
unfolding front_line indented_line is_whitespace
front_line-path st p h = rw (
  trim_cr_id (path_line p) (no_carriage_return (scalar p) (scalar_clean p)),
  trim-cons b' ' (b' ' ∷ b'-' ∷ b' ' ∷ scalar p) refl,
  trim-cons b' ' (b'-' ∷ b' ' ∷ scalar p) refl,
  trim-not_blank b'-' (b' ' ∷ scalar p) refl,
  list_item-path p,
  h,
)
