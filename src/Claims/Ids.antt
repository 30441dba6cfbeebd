-- ===== src/Claims/Ids.antt =====
-- Ids and the files that they name (claims.rs, `valid_id`, `path`), and what `parse` admits.
use ibis_assistant.Prelude.{
  ℕ, ◌≡◌, refl, sym, ◌∙◌, Bool, true, false, ◌||◌, List, [], ◌∷◌, ◌++◌, map, all, any, length,
  arith, ◌==◌, Option, none, some,
}
use mathlib.Core.List.{append_cancel_left, append_cancel_right}
use ibis_assistant.Effect.{Fallible, ok, err}
use ibis_assistant.Text.{Text, str, is_digit, is_lower, is_upper, is_alphanumeric, ascii_lower}
use ibis_assistant.Text.Split.{split, starts_with}
use ibis_assistant.Claims.{
  id_matches, is_id_char, valid_id, path, claims_dir, ClaimError, Claim, validate, ◌>>=◌, Result,
}
use ibis_assistant.Claims.Render.{Chrono}
use ibis_assistant.Claims.Parse.{
  parse, split_front, strip_bom, parse_lines, parse_front, front_matter, assemble, read_body,
  no_front,
}

-- a character that cuts a path, on any system
abbrev pub is_separator : ℕ → Bool
is_separator c = c == b'/' || c == b'\\' || c == b':'

id_char-plain : (c : ℕ) → is_id_char c ≡ true → is_separator c ≡ false
unfolding is_alphanumeric is_digit is_lower is_upper
id_char-plain c h = ground arith

id_chars-plain : (s : Text) → all is_id_char s ≡ true → any is_separator s ≡ false
id_chars-plain [] h = refl
id_chars-plain (c ∷ s) h = ground (arith, id_char-plain c, id_chars-plain s)

alphanumeric-id : (c : ℕ) → is_alphanumeric c ≡ true → is_id_char c ≡ true
alphanumeric-id c h = ground arith

not_dot : (c : ℕ) → is_alphanumeric c ≡ true → (c == b'.') ≡ false
unfolding is_alphanumeric is_digit is_lower is_upper
not_dot c h = ground arith

valid_id-chars : (id : Text) → valid_id id ≡ true → all is_id_char id ≡ true
unfolding valid_id id_matches
valid_id-chars [] h = refl
valid_id-chars (c ∷ s) h = ground (arith, alphanumeric-id c)

valid_id-no_dot : (id : Text) → valid_id id ≡ true → starts_with (str ".") id ≡ false
unfolding valid_id id_matches starts_with
valid_id-no_dot [] h = refl
valid_id-no_dot (c ∷ s) h = ground (arith, not_dot c)

path-valid :
    (id p : Text)
    → path id ≡ ok p
    → (valid_id id ≡ true) × (p ≡ claims_dir ++ (b'/' ∷ (id ++ str ".md")))
unfolding path
path-valid id p h = ground arith

-- An id that has a file stays in the folder of the claims: it is one name, with no separator of
-- any system in it and no dot in front.
path_stays :
    (id p : Text)
    → path id ≡ ok p
    → (p ≡ claims_dir ++ (b'/' ∷ (id ++ str ".md")))
      × (any is_separator id ≡ false)
      × (starts_with (str ".") id ≡ false)
path_stays id p h =
    let (v, e) = path-valid id p h in
    (e, id_chars-plain id (valid_id-chars id v), valid_id-no_dot id v)

-- Two ids with the same file are the same id.
path_injective : (a b p : Text) → path a ≡ ok p → path b ≡ ok p → a ≡ b
path_injective a b p h k =
    let (_, e) = path-valid a p h in
    let (_, f) = path-valid b p k in
    append_cancel_right a b (str ".md")
      (append_cancel_left (claims_dir ++ b'/' ∷ []) (a ++ str ".md") (b ++ str ".md") (sym e ∙ f))

ascii_lower_idem : (c : ℕ) → ascii_lower (ascii_lower c) ≡ ascii_lower c
unfolding ascii_lower is_upper
ascii_lower_idem c = ground arith

map-ascii_lower_idem : (s : Text) → map ascii_lower (map ascii_lower s) ≡ map ascii_lower s
map-ascii_lower_idem [] = refl
map-ascii_lower_idem (c ∷ s) = ground (arith, ascii_lower_idem c, map-ascii_lower_idem s)

id_char-lower : (c : ℕ) → is_id_char (ascii_lower c) ≡ is_id_char c
unfolding ascii_lower is_alphanumeric is_digit is_lower is_upper
id_char-lower c = ground arith

alphanumeric-lower : (c : ℕ) → is_alphanumeric (ascii_lower c) ≡ is_alphanumeric c
unfolding ascii_lower is_alphanumeric is_digit is_lower is_upper
alphanumeric-lower c = ground arith

id_chars-lower : (s : Text) → all is_id_char (map ascii_lower s) ≡ all is_id_char s
id_chars-lower [] = refl
id_chars-lower (c ∷ s) = rw (id_char-lower c, id_chars-lower s)

length-lower : (s : Text) → length (map ascii_lower s) ≡ length s
length-lower [] = refl
length-lower (c ∷ s) = omega (arith, length-lower s)

id_matches-lower : (id : Text) → id_matches (map ascii_lower id) ≡ id_matches id
unfolding id_matches
id_matches-lower [] = refl
id_matches-lower (c ∷ s) = rw (length-lower s, alphanumeric-lower c, id_chars-lower s)

-- Whether an id is valid does not depend on its case.
valid_id-lower : (id : Text) → valid_id (map ascii_lower id) ≡ valid_id id
unfolding valid_id
valid_id-lower id = rw (id_matches-lower id, map-ascii_lower_idem id)

module _ {Time : Type 0} (chrono : Chrono Time) where
  bind-ok :
      {A : Type 0} (r : Result A) (f : A → Result (Claim Time)) (c : Claim Time)
      → (r >>= f) ≡ ok c
      → (a : A) × (r ≡ ok a) × (f a ≡ ok c)
  bind-ok (ok a) f c h = (a, refl, h)
  bind-ok (err e) f c h = cc

  ok-injective : {A : Type 0} (a b : A) → ◌≡◌ {A = Fallible ClaimError A} (ok a) (ok b) → a ≡ b
  ok-injective a b h = ground arith

  validated : (d c : Claim Time) → (validate d >>= (λ _. ok d)) ≡ ok c → validate c ≡ ok tt
  validated d c h =
      let (u, v, e) = bind-ok (validate d) (λ _. ok d) c h in rw (sym (ok-injective d c e)) v

  parse_front-valid :
      (o : Option (List Text × List Text)) (c : Claim Time)
      → parse_front chrono o ≡ ok c
      → validate c ≡ ok tt
  unfolding parse_front
  parse_front-valid none c h = cc
  parse_front-valid (some (lines, rest)) c h =
      let (front, _, h1) = bind-ok (front_matter no_front lines) _ c h in
      let (d, _, h2) = bind-ok (assemble chrono front (read_body rest)) _ c h1 in validated d c h2

  parse_lines-valid :
      (ls : List Text) (c : Claim Time) → parse_lines chrono ls ≡ ok c → validate c ≡ ok tt
  unfolding parse_lines
  parse_lines-valid [] c h = cc
  parse_lines-valid (l ∷ ls) c h = ground (arith, parse_front-valid (split_front ls) c)

  -- What parses is valid.
  parse-valid : (text : Text) (c : Claim Time) → parse chrono text ≡ ok c → validate c ≡ ok tt
  unfolding parse
  parse-valid text c h = ground (arith, parse_lines-valid (split b'\n' (strip_bom text)) c)
