-- ===== src/Claims/RoundTrip.antt =====
-- A rendered claim is parsed again (claims.rs, `render` and `parse`).
mod Front
mod Lines
use ibis_assistant.Prelude.{
  ℕ, all, ◌≡◌, refl, ap, sym, ◌∙◌, Bool, true, false, not, ◌&&◌, Option, none, some, List, [], ◌∷◌,
  ◌++◌, inl, inr, Bool-cases, arith, if◌then◌else◌,
}
use ibis_assistant.Effect.{Fallible, ok, err}
use ibis_assistant.Text.Number.{ℤ, pos, negsuc, int_text}
use ibis_assistant.Text.{Text, str, text_eq, is_empty, is_digit}
use ibis_assistant.Text.Trim.{trim}
use ibis_assistant.Text.Split.{contains, split, ends_with}
use ibis_assistant.Text.Run.{text_runs}
use ibis_assistant.Claims.{is_one, Claim, ◌>>=◌, has_line_break, validate}
use ibis_assistant.Claims.Scalar.{scalar, needs_quote, has_pair, unquote_scalar}
use ibis_assistant.Claims.Scalar.Plain.{
  scalar_clean, scalar_trimmed, no_line_feed, no_carriage_return, unquote_scalar-scalar,
  unquote_scalar-plain, plain_trimmed, plain_clean, ends_with-concat,
}
use ibis_assistant.Claims.Render.{Chrono, body_text, fence, front_lines, render, unlines}
use ibis_assistant.Claims.Parse.{
  trim_cr, strip_bom, no_front, front_matter, parse_i64, unsigned, parse_digits, read_body,
  assemble, parse_front, parse_lines, parse, split_front, unquoted_or_empty,
}
use ibis_assistant.Claims.RoundTrip.Front.{
  canonical, whole, matter, whole_schema, whole_id, whole_kind, whole_title, whole_created,
  whole_visibility, whole_supersedes, whole_redacted, whole_related,
}
use ibis_assistant.Claims.RoundTrip.Lines.{
  is_plain, canonical-plain, split_front-unlines, read_body-split,
}

is_one_sound : (n : ℤ) → is_one n ≡ true → n ≡ pos 1
is_one_sound (pos n) h = ground arith
is_one_sound (negsuc n) h = cc

module _ {Time : Type 0} (chrono : Chrono Time) (c : Claim Time) (t : Time) (body : Text) where
  open chrono use {to_rfc3339, parse_from_rfc3339}

  assemble-whole :
      needs_quote (to_rfc3339 t) ≡ false
      → parse_from_rfc3339 (to_rfc3339 t) ≡ some t
      → c.schema ≡ pos 1
      → c.created ≡ some t
      → assemble chrono (whole c (to_rfc3339 t)) body ≡ ok (record c { body = body })
  unfolding assemble parse_i64 unsigned parse_digits is_digit
  assemble-whole n r s e = rw (
    whole_schema c (to_rfc3339 t),
    whole_id c (to_rfc3339 t),
    whole_kind c (to_rfc3339 t),
    whole_title c (to_rfc3339 t),
    whole_created c (to_rfc3339 t),
    whole_visibility c (to_rfc3339 t),
    whole_supersedes c (to_rfc3339 t),
    whole_redacted c (to_rfc3339 t),
    whole_related c (to_rfc3339 t),
    unquote_scalar-scalar c.id,
    unquote_scalar-scalar c.kind,
    unquote_scalar-scalar c.title,
    unquote_scalar-plain (to_rfc3339 t) n,
    r,
    sym s,
    sym e,
  )

  parse_front-canonical :
      (rest : List Text)
      → needs_quote (to_rfc3339 t) ≡ false
      → parse_from_rfc3339 (to_rfc3339 t) ≡ some t
      → c.schema ≡ pos 1
      → c.created ≡ some t
      → validate c ≡ ok tt
      → read_body rest ≡ body
      → parse_front chrono (some (canonical c (to_rfc3339 t), rest)) ≡ ok (record c { body = body })
  unfolding parse_front
  parse_front-canonical rest n r s e v b =
      rw
        (
          matter c (to_rfc3339 t) (no_carriage_return (to_rfc3339 t) (plain_clean (to_rfc3339 t) n))
              (plain_trimmed (to_rfc3339 t) n),
          b,
          assemble-whole n r s e,
        )
        (unfold validate in rw v)

module _ {Time : Type 0} (chrono : Chrono Time) (c : Claim Time) (t : Time) where
  open chrono use {to_rfc3339, parse_from_rfc3339}

  front_lines-canonical :
      c.schema ≡ pos 1 → c.created ≡ some t → front_lines chrono c ≡ canonical c (to_rfc3339 t)
  unfolding front_lines int_text
  front_lines-canonical s e = rw (s, e)

  validate-schema : validate c ≡ ok tt → c.schema ≡ pos 1
  unfolding validate
  validate-schema v = ground (arith, is_one_sound c.schema)

  parse-fence :
      (s : Text)
      → parse chrono (fence ++ (b'\n' ∷ s)) ≡ parse_front chrono (split_front (split b'\n' s))
  unfolding parse parse_lines strip_bom trim_cr text_runs
  parse-fence s = refl

  unlines-fence :
      (ls : List Text) (rest : Text)
      → unlines (fence ∷ ls) rest ≡ fence ++ (b'\n' ∷ unlines ls rest)
  unfolding unlines
  unlines-fence ls rest = refl

  parse-unlines :
      (ls : List Text) (rest : Text)
      → all is_plain ls ≡ true
      → parse chrono (unlines (fence ∷ (ls ++ fence ∷ [])) rest)
        ≡ parse_front chrono (some (ls, split b'\n' rest))
  parse-unlines ls rest h =
      ap (parse chrono) (unlines-fence (ls ++ fence ∷ []) rest)
      ∙ (parse-fence (unlines (ls ++ fence ∷ []) rest)
          ∙ ap (parse_front chrono) (split_front-unlines ls rest h))

  -- A claim that is valid renders to a text that parses to the claim again, its body with the line
  -- feed at its end that it may have lacked. The text of its time, of seconds, needs no quotes and
  -- reads back as that time, and no carriage return stands in front of a line feed in the body.
  pub parse-render :
      validate c ≡ ok tt
      → c.created ≡ some t
      → needs_quote (to_rfc3339 t) ≡ false
      → parse_from_rfc3339 (to_rfc3339 t) ≡ some t
      → has_pair b'\r' b'\n' (body_text c.body) ≡ false
      → (render chrono c >>= parse chrono) ≡ ok (record c { body = body_text c.body })
  unfolding render
  parse-render v e n r b =
      rw (v, front_lines-canonical (validate-schema v) e)
        (parse-unlines (canonical c (to_rfc3339 t)) (b'\n' ∷ body_text c.body) (
            canonical-plain c (to_rfc3339 t)
              (no_line_feed (to_rfc3339 t) (plain_clean (to_rfc3339 t) n)))
          ∙ parse_front-canonical chrono c t (body_text c.body)
              (split b'\n' (b'\n' ∷ body_text c.body)) n r (validate-schema v) e v
              (read_body-split (body_text c.body) b))

ends_with-body :
    (b : Text) → (not (is_empty (body_text b)) && not (ends_with b'\n' (body_text b))) ≡ false
unfolding body_text
ends_with-body b = ground (arith, ends_with-concat b b'\n')

body_text_id : (b : Text) → (not (is_empty b) && not (ends_with b'\n' b)) ≡ false → body_text b ≡ b
unfolding body_text
body_text_id b h = rw h

body_text_idem : (b : Text) → body_text (body_text b) ≡ body_text b
body_text_idem b = body_text_id (body_text b) (ends_with-body b)

module _ {Time : Type 0} (chrono : Chrono Time) (c : Claim Time) (t : Time) where
  open chrono use {to_rfc3339, parse_from_rfc3339}

  render-body_text : render chrono (record c { body = body_text c.body }) ≡ render chrono c
  unfolding render front_lines validate
  render-body_text = rw (body_text_idem c.body)

  -- The text of a valid claim is canonical: parsing it and rendering it again gives the same text,
  -- under the conditions of `parse-render`.
  render-parse-render :
      validate c ≡ ok tt
      → c.created ≡ some t
      → needs_quote (to_rfc3339 t) ≡ false
      → parse_from_rfc3339 (to_rfc3339 t) ≡ some t
      → has_pair b'\r' b'\n' (body_text c.body) ≡ false
      → ((render chrono c >>= parse chrono) >>= render chrono) ≡ render chrono c
  render-parse-render v e n r b =
      ap (λ x. x >>= render chrono) (parse-render chrono c t v e n r b) ∙ render-body_text
