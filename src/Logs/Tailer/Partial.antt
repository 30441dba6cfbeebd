-- ===== src/Logs/Tailer/Partial.antt =====
-- A line that is not complete when it is read (tailer.rs, `read_new_lines`).
use ibis_assistant.Prelude.{
  ℕ, ◌+◌, ◌≤◌, ◌≡◌, ◌≢◌, refl, List, [], ◌∷◌, ◌++◌, length, length-append, take, take_all,
  drop-append, arith,
}
use mathlib.Core.List.{append-nil, append_assoc}
use ibis_assistant.Text.{Text}
use ibis_assistant.Logs.Tailer.{
  Tail, lines, cut, texts, take_lines, after_read, read_file, restart, read_new_lines,
  max_read_per_poll, budget, polls,
}
use ibis_assistant.Logs.Tailer.Polls.{IsLine, cut-line, cut-rest, shows, read_up_to, read-appended}

-- the tailer in the middle of a line
abbrev in_line : List ℕ → List ℕ → List Text → Tail
in_line old a batch = record { offset = length old; partial = a; batch = batch }

restart-in_line :
    (old a b : List ℕ) (batch : List Text)
    → restart (length (old ++ (a ++ b))) (in_line old a batch) ≡ in_line old a batch
unfolding restart
restart-in_line old a b batch = ground (arith, length-append old (a ++ b), length-append a b)

IsLine-append : (a b : List ℕ) → IsLine a → IsLine b → IsLine (a ++ b)
IsLine-append [] b h k = k
IsLine-append (c ∷ a) b h k = ground (arith, IsLine-append a b)

budget_left :
    (a added : List ℕ) → length a + length added ≤ max_read_per_poll → take (budget a) added ≡ added
unfolding budget
budget_left a added h = take_all _ added (ground arith)

-- the line as it is put together
doubled : (a b : List ℕ) → a ++ (a ++ (b ++ b'\n' ∷ [])) ≡ (a ++ (a ++ b)) ++ b'\n' ∷ []
doubled a b = simp append_assoc

-- a line is complete with its second part
abbrev pub ended : List ℕ → List ℕ → List ℕ
ended a b = a ++ (b ++ b'\n' ∷ [])

module _ (decode : List ℕ → Text) (max_line_bytes : ℕ) where
  after_read_some :
      (t : Tail) (added : List ℕ)
      → added ≢ []
      → after_read decode max_line_bytes t added
        ≡ take_lines decode max_line_bytes t (t.partial ++ added)
  unfolding after_read
  after_read_some t [] h = absurd (h refl)
  after_read_some t (c ∷ added) h = refl

  first_part :
      (old a : List ℕ) (batch : List Text)
      → IsLine a
      → take_lines decode max_line_bytes (read_up_to old batch) a ≡ (lines [], in_line old a batch)
  unfolding take_lines texts
  first_part old a batch h = rw (cut-rest [] a h) (ground arith)

  second_part :
      (old a b : List ℕ) (batch : List Text)
      → IsLine a
      → IsLine b
      → take_lines decode max_line_bytes (in_line old a batch) (a ++ ended a b) ≡ (
        lines (texts decode max_line_bytes ((a ++ (a ++ b)) ∷ [])),
        record { offset = length (old ++ ended a b) + length a; partial = []; batch = batch },
      )
  unfolding take_lines cut
  second_part old a b batch h k =
      rw
        (
          doubled a b,
          cut-line [] (a ++ (a ++ b)) [] (IsLine-append a (a ++ b) h (IsLine-append a b h k)),
        )
        (ground (
          arith,
          length-append a (a ++ b),
          length-append a b,
          length-append old (ended a b),
          length-append a (b ++ b'\n' ∷ []),
          length-append b (b'\n' ∷ []),
        ))

  ended-ne-nil : (a b : List ℕ) → a ≢ [] → ended a b ≢ []
  ended-ne-nil [] b h e = h refl
  ended-ne-nil (c ∷ a) b h e = cc

  second_read :
      (old a b : List ℕ) (batch : List Text)
      → a ≢ []
      → IsLine a
      → IsLine b
      → length a + length (ended a b) ≤ max_read_per_poll
      → read_new_lines decode max_line_bytes (shows (old ++ ended a b)) (in_line old a batch) ≡ (
        lines (texts decode max_line_bytes ((a ++ (a ++ b)) ∷ [])),
        record { offset = length (old ++ ended a b) + length a; partial = []; batch = batch },
      )
  unfolding read_new_lines read_file
  second_read old a b batch n h k m =
      rw
        (
          restart-in_line old a (b ++ b'\n' ∷ []) batch,
          drop-append old (ended a b),
          take_all max_read_per_poll (ended a b) (omega arith),
          budget_left a (ended a b) m,
          after_read_some (in_line old a batch) (ended a b) (ended-ne-nil a b n),
        )
        (second_part old a b batch h k)

  -- A line of which one poll reads a first part and the next poll sees the whole is given with
  -- that part twice, and the offset is then as much past the end of the file: the file is within
  -- what one poll reads, and the first part is not empty.
  pub partial_line_doubled :
      (old a b : List ℕ) (batch : List Text)
      → a ≢ []
      → IsLine a
      → IsLine b
      → length a + length (ended a b) ≤ max_read_per_poll
      → polls decode max_line_bytes
          (shows (old ++ a) ∷ shows (old ++ ended a b) ∷ [])
          (read_up_to old batch)
        ≡ (
          texts decode max_line_bytes ((a ++ (a ++ b)) ∷ []),
          record { offset = length (old ++ ended a b) + length a; partial = []; batch = batch },
        )
  unfolding polls
  partial_line_doubled old a b batch n h k m =
      rw
        (
          read-appended decode max_line_bytes max_read_per_poll old a batch (omega arith)
              (omega arith),
          after_read_some (read_up_to old batch) a n,
          first_part old a batch h,
          second_read old a b batch n h k m,
        )
        (ground (arith, append-nil (texts decode max_line_bytes ((a ++ (a ++ b)) ∷ []))))
