-- ===== src/Git/Notes.antt =====
-- crates/ibis-git/src/notes.rs: the notes that point from commits to claims, besides listing them.
-- The runner of git commands is a parameter.
mod Tests
use ibis_assistant.Prelude.{
  [], ◌≡◌, refl, sym, ap, ◌∙◌, inl, inr, Bool-cases, true, Option, none, some, List, ◌∷◌, ◌++◌, map,
  ◌||◌, if◌then◌else◌, arith,
}
use ibis_assistant.Effect.{ok, err, Action, ◌>>=◌, pure}
use ibis_assistant.Text.{Text, str, text_eq, text_eq_iff}
use ibis_assistant.Text.Split.{contains_text, join}
use ibis_assistant.Text.Order.{sort, dedup, member}
use ibis_assistant.Text.Order.Unique.{dedup-sort_same}
use ibis_assistant.Git.{GitError, command, context, Result}

-- `GitError::command_output`
unfoldable pub command_output : GitError → Option Text
command_output (command _ output) = some output
command_output (context _ source) = command_output source
command_output _ = none

-- `GitRunner::run`, with the bytes of its output as a text
abbrev pub GitRunner : Type 0 → Type 0
GitRunner S = Text → List Text → Action S (Result Text)

abbrev pub note_args : Text → List Text → List Text
note_args reference args = str "notes" ∷ (str "--ref=" ++ reference) ∷ args

abbrev or_context : Text → Result Text → Result (Unit {0})
or_context message (ok _) = ok tt
or_context message (err e) = err (context message e)

-- in lower case, and empty where there is none
abbrev lowered_or_empty : (Text → Text) → Option Text → Text
lowered_or_empty to_lowercase none = []
lowered_or_empty to_lowercase (some output) = to_lowercase output

-- an error that says that there is no note is none
unfoldable pub removed : (Text → Text) → Text → Result Text → Result (Unit {0})
removed to_lowercase oid (ok _) = ok tt
removed to_lowercase oid (err e) =
    let lowered = lowered_or_empty to_lowercase (command_output e) in
    if contains_text (str "no note") lowered || contains_text (str "does not exist") lowered
    then ok tt
    else err (context (str "git notes remove " ++ oid) e)

module _ {S : Type 0} (run : GitRunner S) where
  unfoldable pub notes_add : Text → Text → Text → Text → Action S (Result (Unit {0}))
  notes_add repo_path reference oid message = (do
    out ← run repo_path (note_args reference (str "add" ∷ str "-f" ∷ str "-m" ∷ message ∷ oid ∷ []))
    pure (or_context (str "git notes add " ++ oid) out))

  unfoldable pub notes_remove : (Text → Text) → Text → Text → Text → Action S (Result (Unit {0}))
  notes_remove to_lowercase repo_path reference oid = (do
    out ← run repo_path (note_args reference (str "remove" ∷ oid ∷ []))
    pure (removed to_lowercase oid out))

abbrev pub claim_line : Text → Text
claim_line id = str "claim=" ++ id

unfoldable pub claim_note_message : List Text → Text
claim_note_message ids = join b'\n' (dedup (sort (map claim_line ids)))

member-map :
    (k : Text) (ids : List Text) → member (claim_line k) (map claim_line ids) ≡ member k ids
unfolding text_eq
member-map k [] = refl
member-map k (id ∷ ids) = ap (◌||◌ (text_eq k id)) (member-map k ids)

-- a member is the line of an id
line_found :
    (line : Text) (ids : List Text)
    → member line (map claim_line ids) ≡ true
    → (id : Text) × (line ≡ claim_line id)
line_found line [] h = cc
line_found line (id ∷ ids) h = elim (Bool-cases (text_eq line (claim_line id))) [
  | inl e ↦ (id, (text_eq_iff line (claim_line id)).0 e)
  | inr e ↦ line_found line ids (ground arith)
]

module _ (a b : List Text) (same : (id : Text) → member id a ≡ member id b) where
  line-same :
      (line : Text)
      → (id : Text) × (line ≡ claim_line id)
      → member line (map claim_line a) ≡ member line (map claim_line b)
  line-same line (id, e) = rw e (member-map id a ∙ same id ∙ sym (member-map id b))

  lines-same : (line : Text) → member line (map claim_line a) ≡ member line (map claim_line b)
  lines-same line = elim (Bool-cases (member line (map claim_line a))) [
    | inl e ↦ line-same line (line_found line a e)
    | inr e ↦ elim (Bool-cases (member line (map claim_line b))) [
      | inl f ↦ line-same line (line_found line b f)
      | inr f ↦ e ∙ sym f
    ]
  ]

  -- The note of a commit depends on nothing but which claims it points to: lists with the same ids,
  -- in any order and however often, give the same text.
  pub claim_note_message_same : claim_note_message a ≡ claim_note_message b
  unfolding claim_note_message
  claim_note_message_same =
      ap (join b'\n') (dedup-sort_same (map claim_line a) (map claim_line b) lines-same)

-- Removing a note that is not there is no error, under whatever contexts git's message comes.
pub notes_remove_absent :
    {S : Type 0} (run : GitRunner S) (to_lowercase : Text → Text)
    (repo_path reference oid output : Text) (e : GitError) (s s' : S)
    → run repo_path (note_args reference (str "remove" ∷ oid ∷ [])) s ≡ (err e, s')
    → command_output e ≡ some output
    → contains_text (str "no note") (to_lowercase output) ≡ true
    → notes_remove run to_lowercase repo_path reference oid s ≡ (ok tt, s')
unfolding notes_remove removed
notes_remove_absent run to_lowercase repo_path reference oid output e s s' h o n = rw (h, o, n)
