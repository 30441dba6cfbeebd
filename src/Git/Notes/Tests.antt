-- ===== src/Git/Notes/Tests.antt =====
-- Notes of commits.
use ibis_assistant.Prelude.{[], ◌≡◌, refl, ◌∷◌, ◌++◌, arith}
use ibis_assistant.Text.{Text, str}
use ibis_assistant.Text.Run.{text_runs}
use ibis_assistant.Text.Order.{text_le, insert_sorted, sort, dedup, member}
use ibis_assistant.Git.Notes.{claim_note_message, claim_note_message_same}

run_message :
    claim_note_message (str "b" ∷ str "a" ∷ str "b" ∷ []) ≡ str "claim=a" ++ b'\n' ∷ str "claim=b"
unfolding claim_note_message text_le insert_sorted sort dedup text_runs
run_message = refl

-- `a` and `b`, in two orders
same_ids :
    (id : Text) → member id (str "b" ∷ str "a" ∷ str "b" ∷ []) ≡ member id (str "a" ∷ str "b" ∷ [])
same_ids id = ground arith

claim_note_message_same_example :
    claim_note_message (str "b" ∷ str "a" ∷ str "b" ∷ [])
    ≡ claim_note_message (str "a" ∷ str "b" ∷ [])
claim_note_message_same_example =
    claim_note_message_same (str "b" ∷ str "a" ∷ str "b" ∷ []) (str "a" ∷ str "b" ∷ []) same_ids
