-- ===== src/Claims/RoundTrip/Front.antt =====
-- The state that `parse` reaches on the front matter of `render`, and the fields in it (claims.rs).
use ibis_assistant.Prelude.{
  ◌≡◌, refl, ap, sym, ◌∙◌, false, not, ◌&&◌, none, some, List, [], ◌∷◌, ◌++◌, arith, if◌then◌else◌,
  inl, inr, Bool-cases,
}
use mathlib.Core.List.{append-nil}
use ibis_assistant.Effect.{ok}
use ibis_assistant.Text.{Text, str, text_eq, is_empty}
use ibis_assistant.Text.Trim.{trim}
use ibis_assistant.Text.Split.{contains}
use ibis_assistant.Text.Map.{lookup, lookup-insert}
use ibis_assistant.Text.Run.{text_runs}
use ibis_assistant.Claims.{Claim, key_matches}
use ibis_assistant.Claims.Scalar.{scalar}
use ibis_assistant.Claims.Scalar.Plain.{unquote_scalar-scalar}
use ibis_assistant.Claims.Render.{field_line, optional, paths_lines}
use ibis_assistant.Claims.Parse.{Front, no_front, front_matter, unquoted_or_empty}
use ibis_assistant.Claims.Parse.Line.{with_field}
use ibis_assistant.Claims.Parse.Matter.{
  front_matter-field, front_matter-scalar, front_matter-optional, front_matter-paths, with_optional,
  with_paths,
}

lookup-with_field :
    (j : Text) (st : Front) (n v : Text)
    → lookup j (with_field st n v).fields ≡ (if text_eq n j then some v else lookup j st.fields)
lookup-with_field j st n v = lookup-insert n j v st.fields

lookup-with_optional :
    (j : Text) (st : Front) (n v : Text)
    → lookup j (with_optional st n v).fields
      ≡ (if text_eq n j && not (is_empty v) then some (scalar v) else lookup j st.fields)
lookup-with_optional j st n v = elim (Bool-cases (is_empty v)) [
  | inl e ↦ rw e (ground arith)
  | inr e ↦ rw e (ground (arith, lookup-with_field j st n (scalar v)))
]

lookup-with_paths :
    (j : Text) (st : Front) (ps : List Text)
    → text_eq (str "related_paths") j ≡ false
    → lookup j (with_paths st ps).fields ≡ lookup j st.fields
lookup-with_paths j st [] h = refl
lookup-with_paths j st (p ∷ ps) h =
    ground (arith, lookup-insert (str "related_paths") j [] st.fields)

related-with_optional : (st : Front) (n v : Text) → (with_optional st n v).related ≡ st.related
related-with_optional st n v = ground arith

related-with_paths :
    (st : Front) (ps : List Text) → st.related ≡ [] → (with_paths st ps).related ≡ ps
related-with_paths st [] h = h
related-with_paths st (p ∷ ps) h = refl

unquoted-optional :
    (v : Text) → unquoted_or_empty (if not (is_empty v) then some (scalar v) else none) ≡ v
unfolding is_empty
unquoted-optional [] = refl
unquoted-optional (c ∷ s) = unquote_scalar-scalar (c ∷ s)

module _ {Time : Type 0} (c : Claim Time) (q : Text) where
  abbrev heads : Front
  heads =
      with_field
        (with_field
          (with_field (with_field no_front (str "schema") (str "1")) (str "id") (scalar c.id))
          (str "kind") (scalar c.kind))
        (str "title") (scalar c.title)

  abbrev to_paths : Front
  to_paths = with_paths (with_optional heads (str "visibility") c.visibility) c.related_paths

  abbrev to_created : Front
  to_created = with_field (with_optional to_paths (str "supersedes") c.supersedes) (str "created") q

  abbrev pub whole : Front
  whole = with_optional to_created (str "redacted") c.redacted

  pub whole_schema : lookup (str "schema") whole.fields ≡ some (str "1")
  unfolding text_eq
  whole_schema = simp (lookup-with_optional, lookup-with_paths, lookup-with_field)

  pub whole_id : lookup (str "id") whole.fields ≡ some (scalar c.id)
  unfolding text_eq
  whole_id = simp (lookup-with_optional, lookup-with_paths, lookup-with_field)

  pub whole_kind : lookup (str "kind") whole.fields ≡ some (scalar c.kind)
  unfolding text_eq
  whole_kind = simp (lookup-with_optional, lookup-with_paths, lookup-with_field)

  pub whole_title : lookup (str "title") whole.fields ≡ some (scalar c.title)
  unfolding text_eq
  whole_title = simp (lookup-with_optional, lookup-with_paths, lookup-with_field)

  pub whole_created : lookup (str "created") whole.fields ≡ some (q)
  unfolding text_eq
  whole_created = simp (lookup-with_optional, lookup-with_field)

  pub whole_visibility : unquoted_or_empty (lookup (str "visibility") whole.fields) ≡ c.visibility
  unfolding text_eq lookup
  whole_visibility =
      ap unquoted_or_empty (simp (lookup-with_optional, lookup-with_paths, lookup-with_field))
      ∙ unquoted-optional c.visibility

  pub whole_supersedes : unquoted_or_empty (lookup (str "supersedes") whole.fields) ≡ c.supersedes
  unfolding text_eq lookup
  whole_supersedes =
      ap unquoted_or_empty (simp (lookup-with_optional, lookup-with_paths, lookup-with_field))
      ∙ unquoted-optional c.supersedes

  pub whole_redacted : unquoted_or_empty (lookup (str "redacted") whole.fields) ≡ c.redacted
  unfolding text_eq lookup
  whole_redacted =
      ap unquoted_or_empty (simp (lookup-with_optional, lookup-with_paths, lookup-with_field))
      ∙ unquoted-optional c.redacted

  pub whole_related : whole.related ≡ c.related_paths
  whole_related =
      related-with_optional to_created (str "redacted") c.redacted
      ∙ (related-with_optional to_paths (str "supersedes") c.supersedes
          ∙ related-with_paths (with_optional heads (str "visibility") c.visibility) c.related_paths
              (related-with_optional heads (str "visibility") c.visibility))

  -- the canonical front matter from the optional fields on, with `q` for the time
  abbrev pub last_lines : List Text
  last_lines =
      optional (str "supersedes") c.supersedes
      ++ (field_line (str "created") q ∷ optional (str "redacted") c.redacted)

  abbrev pub tail_lines : List Text
  tail_lines =
      optional (str "visibility") c.visibility ++ (paths_lines c.related_paths ++ last_lines)

  abbrev title_lines : List Text
  title_lines = field_line (str "title") (scalar c.title) ∷ tail_lines

  abbrev kind_lines : List Text
  kind_lines = field_line (str "kind") (scalar c.kind) ∷ title_lines

  abbrev id_lines : List Text
  id_lines = field_line (str "id") (scalar c.id) ∷ kind_lines

  abbrev pub canonical : List Text
  canonical = field_line (str "schema") (str "1") ∷ id_lines

  abbrev with_schema : Front
  with_schema = with_field no_front (str "schema") (str "1")

  abbrev with_id : Front
  with_id = with_field with_schema (str "id") (scalar c.id)

  abbrev with_kind : Front
  with_kind = with_field with_id (str "kind") (scalar c.kind)

  heads_matter : front_matter no_front canonical ≡ front_matter heads tail_lines
  unfolding text_runs key_matches
  heads_matter =
      front_matter-field no_front (str "schema") (str "1") id_lines refl refl refl refl refl
      ∙ (front_matter-scalar with_schema (str "id") c.id kind_lines refl refl refl
          ∙ (front_matter-scalar with_id (str "kind") c.kind title_lines refl refl refl
              ∙ front_matter-scalar with_kind (str "title") c.title tail_lines refl refl refl))

  last_matter : contains b'\r' q ≡ false → trim q ≡ q → front_matter to_paths last_lines ≡ ok whole
  unfolding text_runs key_matches
  last_matter r t =
      front_matter-optional to_paths (str "supersedes") c.supersedes
        (field_line (str "created") q ∷ optional (str "redacted") c.redacted) refl
        (simp (lookup-with_optional, lookup-with_paths)) refl
      ∙ (front_matter-field (with_optional to_paths (str "supersedes") c.supersedes) (str "created")
            q (optional (str "redacted") c.redacted) refl
            (simp (lookup-with_optional, lookup-with_paths)) refl r t
          ∙ (ap (front_matter to_created) (sym (append-nil (optional (str "redacted") c.redacted)))
              ∙ (front_matter-optional to_created (str "redacted") c.redacted [] refl
                    (simp (lookup-with_optional, lookup-with_paths, lookup-with_field)) refl
                  ∙ unfold front_matter in refl)))

  -- The front matter of `render` is read as the fields and the paths of the claim.
  pub matter : contains b'\r' q ≡ false → trim q ≡ q → front_matter no_front canonical ≡ ok whole
  unfolding text_runs key_matches
  matter r t =
      heads_matter
      ∙ (front_matter-optional heads (str "visibility") c.visibility
            (paths_lines c.related_paths ++ last_lines) refl refl refl
          ∙ (front_matter-paths (with_optional heads (str "visibility") c.visibility)
                c.related_paths last_lines (simp lookup-with_optional)
                (related-with_optional heads (str "visibility") c.visibility)
              ∙ last_matter r t))
