-- ===== src/Claims/Render.antt =====
-- `render` of claims.rs: a valid claim in its canonical form. Each `push_str` of the front matter
-- ends its line, so the front matter is a list of lines.
use ibis_assistant.Prelude.{not, ◌&&◌, Option, none, some, List, [], ◌∷◌, ◌++◌, map, if◌then◌else◌}
use ibis_assistant.Effect.{ok}
use ibis_assistant.Text.Number.{int_text}
use ibis_assistant.Text.{Text, str, is_empty}
use ibis_assistant.Text.Split.{ends_with}
use ibis_assistant.Claims.{◌>>=◌, Claim, Result, validate}
use ibis_assistant.Claims.Scalar.{scalar}

-- what the claim codec takes from chrono, and `i64`'s `Display` from the standard library
pub record Chrono (Time : Type 0) : Type 0 where
  pub to_rfc3339 : Time → Text
  pub parse_from_rfc3339 : Text → Option Time
  pub now : Time

-- `name: value`
abbrev pub field_line : Text → Text → Text
field_line name value = name ++ (b':' ∷ b' ' ∷ value)

-- a field that is left out if it is empty
abbrev pub optional : Text → Text → List Text
optional name value = if is_empty value then [] else field_line name (scalar value) ∷ []

abbrev pub path_line : Text → Text
path_line p = b' ' ∷ b' ' ∷ b'-' ∷ b' ' ∷ scalar p

unfoldable pub paths_lines : List Text → List Text
paths_lines [] = []
paths_lines (p ∷ ps) = str "related_paths:" ∷ map path_line (p ∷ ps)

-- each line and a line feed, in front of the rest
unfoldable pub unlines : List Text → Text → Text
unlines [] rest = rest
unlines (l ∷ ls) rest = l ++ (b'\n' ∷ unlines ls rest)

-- the body, with a line feed at its end if there is none
unfoldable pub body_text : Text → Text
body_text body =
    if not (is_empty body) && not (ends_with b'\n' body) then body ++ b'\n' ∷ [] else body

abbrev pub fence : Text
fence = str "---"

module _ {Time : Type 0} (chrono : Chrono Time) where
  open chrono use {to_rfc3339, now}

  abbrev pub stamp : Option Time → Text
  stamp none = to_rfc3339 now
  stamp (some t) = to_rfc3339 t

  unfoldable pub front_lines : Claim Time → List Text
  front_lines c =
      field_line (str "schema") (int_text c.schema)
      ∷ field_line (str "id") (scalar c.id)
      ∷ field_line (str "kind") (scalar c.kind)
      ∷ field_line (str "title") (scalar c.title)
      ∷ (optional (str "visibility") c.visibility
          ++ (paths_lines c.related_paths
              ++ (optional (str "supersedes") c.supersedes
                  ++ (field_line (str "created") (stamp c.created)
                      ∷ optional (str "redacted") c.redacted))))

  unfoldable pub render : Claim Time → Result Text
  render c = do
    _ ← validate c
    ok (unlines (fence ∷ (front_lines c ++ fence ∷ [])) (b'\n' ∷ body_text c.body))
