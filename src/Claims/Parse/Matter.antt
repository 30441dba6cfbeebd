-- ===== src/Claims/Parse/Matter.antt =====
-- The front matter that `render` writes, as the loop of `parse` reads it (claims.rs).
use ibis_assistant.Prelude.{
  ◌≡◌, refl, ◌∙◌, true, false, none, List, [], ◌∷◌, ◌++◌, map, arith, if◌then◌else◌, inl, inr,
  Bool-cases,
}
use mathlib.Core.List.{append-nil, append_assoc}
use ibis_assistant.Effect.{ok}
use ibis_assistant.Text.{Text, str, text_eq, is_empty}
use ibis_assistant.Text.Trim.{is_whitespace, trim, trim-cons}
use ibis_assistant.Text.Split.{contains}
use ibis_assistant.Text.Map.{lookup, insert}
use ibis_assistant.Text.Run.{text_runs}
use ibis_assistant.Claims.{key_matches}
use ibis_assistant.Claims.Scalar.{scalar}
use ibis_assistant.Claims.Scalar.Plain.{no_carriage_return, scalar_clean, scalar_trimmed}
use ibis_assistant.Claims.Render.{field_line, optional, path_line, paths_lines}
use ibis_assistant.Claims.Parse.{Front, front_line, front_matter}
use ibis_assistant.Claims.Parse.Line.{with_field, front_line-field, front_line-path}

front_matter-cons :
    (st st' : Front) (l : Text) (ls : List Text)
    → front_line st l ≡ ok st'
    → front_matter st (l ∷ ls) ≡ front_matter st' ls
unfolding front_matter
front_matter-cons st st' l ls h = rw h

-- a field of the canonical form
pub front_matter-field :
    (st : Front) (name q : Text) (ls : List Text)
    → key_matches name ≡ true
    → lookup name st.fields ≡ none
    → text_eq name (str "related_paths") ≡ false
    → contains b'\r' q ≡ false
    → trim q ≡ q
    → front_matter st (field_line name q ∷ ls) ≡ front_matter (with_field st name q) ls
front_matter-field st name q ls k f r n t =
    front_matter-cons st (with_field st name q) (field_line name q) ls (
      front_line-field st name (b' ' ∷ q) q k f (rw r) (ground arith)
        (trim-cons b' ' q (unfold is_whitespace in refl) ∙ t))

pub front_matter-scalar :
    (st : Front) (name v : Text) (ls : List Text)
    → key_matches name ≡ true
    → lookup name st.fields ≡ none
    → text_eq name (str "related_paths") ≡ false
    → front_matter st (field_line name (scalar v) ∷ ls)
      ≡ front_matter (with_field st name (scalar v)) ls
front_matter-scalar st name v ls k f r =
    front_matter-field st name (scalar v) ls k f r (no_carriage_return (scalar v) (scalar_clean v))
      (scalar_trimmed v)

abbrev pub with_optional : Front → Text → Text → Front
with_optional st name v = if is_empty v then st else with_field st name (scalar v)

pub front_matter-optional :
    (st : Front) (name v : Text) (ls : List Text)
    → key_matches name ≡ true
    → lookup name st.fields ≡ none
    → text_eq name (str "related_paths") ≡ false
    → front_matter st (optional name v ++ ls) ≡ front_matter (with_optional st name v) ls
front_matter-optional st name v ls k f r = elim (Bool-cases (is_empty v)) [
  | inl e ↦ rw e
  | inr e ↦ rw e (front_matter-scalar st name v ls k f r)
]

front_matter-paths_map :
    (fields : List (Text × Text)) (done ps ls : List Text)
    → front_matter
        (record { fields = fields; related = done; in_related = true })
        (map path_line ps ++ ls)
      ≡ front_matter (record { fields = fields; related = done ++ ps; in_related = true }) ls
front_matter-paths_map fields done [] ls = rw (append-nil done)
front_matter-paths_map fields done (p ∷ ps) ls =
    front_matter-cons (record { fields = fields; related = done; in_related = true })
      (record { fields = fields; related = done ++ p ∷ []; in_related = true }) (path_line p)
      (map path_line ps ++ ls)
      (front_line-path (record { fields = fields; related = done; in_related = true }) p refl)
    ∙ (front_matter-paths_map fields (done ++ p ∷ []) ps ls ∙ rw (append_assoc done (p ∷ []) ps))

abbrev pub with_paths : Front → List Text → Front
with_paths st [] = st
with_paths st (p ∷ ps) = record {
  fields = insert (str "related_paths") [] st.fields;
  related = p ∷ ps;
  in_related = true;
}

pub front_matter-paths :
    (st : Front) (ps ls : List Text)
    → lookup (str "related_paths") st.fields ≡ none
    → st.related ≡ []
    → front_matter st (paths_lines ps ++ ls) ≡ front_matter (with_paths st ps) ls
unfolding paths_lines text_runs key_matches
front_matter-paths st [] ls f e = refl
front_matter-paths st (p ∷ ps) ls f e =
    front_matter-cons st (with_field st (str "related_paths") []) (str "related_paths:")
      (map path_line (p ∷ ps) ++ ls)
      (front_line-field st (str "related_paths") [] [] refl f refl refl refl)
    ∙ rw e (front_matter-paths_map (insert (str "related_paths") [] st.fields) [] (p ∷ ps) ls)
