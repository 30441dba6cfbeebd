-- ===== src/Claims.antt =====
-- crates/ibis-core/src/claims.rs: the claim file, its errors, the rules for ids and `validate`.
-- A file is the text that its bytes decode to. A timestamp is a value of chrono's `DateTime<Utc>`,
-- a type `Time` that the model takes from outside.
pub mod Scalar
pub mod Render
pub mod Parse
pub mod Ids
pub mod RoundTrip
mod Tests
use ibis_assistant.Prelude.{
  ℕ, suc, ◌+◌, ◌*◌, ◌-◌, ◌≡◌, Bool, true, false, not, ◌&&◌, ◌||◌, Option, none, some, List, [], ◌∷◌,
  ◌++◌, map, all, any, length, leb, ltb, ◌==◌, if◌then◌else◌,
}
use ibis_assistant.Effect.{Fallible, ok, err}
use ibis_assistant.Text.Number.{ℤ, pos, negsuc}
use ibis_assistant.Text.{Text, str, text_eq, is_empty, is_digit, is_alphanumeric, ascii_lower}
use ibis_assistant.Text.Trim.{trim}
use ibis_assistant.Text.Split.{contains}

abbrev pub is_one : ℤ → Bool
is_one (pos n) = n == 1
is_one (negsuc _) = false

-- The messages of `ClaimError`, with the values that they show.
pub data ClaimError : Type 0 where
  unsupported_schema : ℤ → ClaimError
  invalid_id invalid_kind invalid_visibility invalid_supersedes invalid_related_path :
      Text → ClaimError
  title_required title_lines created_required redacted_lines : ClaimError
  empty_file missing_opener not_closed unexpected_indentation : ClaimError
  malformed_line invalid_key duplicate_key related_not_block : Text → ClaimError
  missing_field schema_not_integer created_not_rfc3339 : Text → ClaimError

abbrev pub Result : Type 0 → Type 0
Result A = Fallible ClaimError A

-- the `?` of Rust
infixl 5 ◌>>=◌
abbrev pub ◌>>=◌ : {A B : Type 0} → Result A → (A → Result B) → Result B
ok a >>= f = f a
err e >>= f = err e

abbrev pub claims_dir : Text
claims_dir = str ".ibis/claims"

abbrev is_id_char : ℕ → Bool
is_id_char c = is_alphanumeric c || c == b'.' || c == b'_' || c == b'-'

-- an id that passes is ASCII, so its length in bytes is its length
unfoldable pub id_matches : Text → Bool
id_matches [] = false
id_matches (c ∷ s) = leb (length (c ∷ s)) 128 && is_alphanumeric c && all is_id_char s

abbrev pub reserved_names : List Text
reserved_names =
    str "con"
    ∷ str "prn"
    ∷ str "aux"
    ∷ str "nul"
    ∷ str "com1"
    ∷ str "com2"
    ∷ str "com3"
    ∷ str "com4"
    ∷ str "com5"
    ∷ str "com6"
    ∷ str "com7"
    ∷ str "com8"
    ∷ str "com9"
    ∷ str "lpt1"
    ∷ str "lpt2"
    ∷ str "lpt3"
    ∷ str "lpt4"
    ∷ str "lpt5"
    ∷ str "lpt6"
    ∷ str "lpt7"
    ∷ str "lpt8"
    ∷ str "lpt9"
    ∷ []

unfoldable pub is_reserved : Text → Bool
is_reserved s = any (λ n. text_eq n s) reserved_names

-- `to_lowercase` is only reached by an id that is ASCII
unfoldable pub valid_id : Text → Bool
valid_id id = id_matches id && not (is_reserved (map ascii_lower id))

unfoldable pub key_matches : Text → Bool
key_matches key = not (is_empty key) && all (λ c. is_alphanumeric c || c == b'_' || c == b'-') key

pub record Claim (Time : Type 0) : Type 0 where
  pub schema : ℤ
  pub id : Text
  pub kind : Text
  pub title : Text
  pub visibility : Text
  pub related_paths : List Text
  pub supersedes : Text
  pub created : Option Time
  pub redacted : Text
  pub body : Text

-- `contains(['\n', '\r'])`
unfoldable pub has_line_break : Text → Bool
has_line_break s = any (λ c. c == b'\n' || c == b'\r') s

abbrev pub is_kind : Text → Bool
is_kind kind =
    text_eq kind (str "decision") || text_eq kind (str "rule") || text_eq kind (str "fix")

abbrev pub is_visibility : Text → Bool
is_visibility v = is_empty v || text_eq v (str "team") || text_eq v (str "personal")

abbrev pub is_some : {A : Type 0} → Option A → Bool
is_some none = false
is_some (some _) = true

abbrev bad_path : Text → Bool
bad_path p = is_empty (trim p) || has_line_break p

-- the loop over `related_paths`
unfoldable pub check_paths : List Text → Result (Unit {0})
check_paths [] = ok tt
check_paths (p ∷ ps) =
    let rest = check_paths ps in if bad_path p then err (invalid_related_path p) else rest

module _ {Time : Type 0} where
  unfoldable pub validate : Claim Time → Result (Unit {0})
  validate c =
      if not (is_one c.schema)
      then err (unsupported_schema c.schema)
      else if not (valid_id c.id)
      then err (invalid_id c.id)
      else if not (is_kind c.kind)
      then err (invalid_kind c.kind)
      else if is_empty (trim c.title)
      then err title_required
      else if has_line_break c.title
      then err title_lines
      else if not (is_visibility c.visibility)
      then err (invalid_visibility c.visibility)
      else if not (is_empty c.supersedes) && not (valid_id c.supersedes)
      then err (invalid_supersedes c.supersedes)
      else if not (is_some c.created)
      then err created_required
      else if has_line_break c.redacted
      then err redacted_lines
      else check_paths c.related_paths

-- where the file of a claim is
unfoldable pub path : Text → Result Text
path id =
    if not (valid_id id) then err (invalid_id id) else ok (claims_dir ++ (b'/' ∷ (id ++ str ".md")))
