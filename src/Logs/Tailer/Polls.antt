-- ===== src/Logs/Tailer/Polls.antt =====
-- Polls of a file that grows by whole lines (tailer.rs, `read_new_lines`).
pub mod Given
use ibis_assistant.Prelude.{
  ℕ, ◌≤◌, ◌≡◌, refl, false, some, List, [], ◌∷◌, ◌++◌, length, length-append, take_all, drop-append,
  All, arith,
}
use mathlib.Core.List.{append-nil, append_assoc}
use ibis_assistant.Text.{Text}
use ibis_assistant.Text.Split.{contains}
use ibis_assistant.Logs.Tailer.{
  Seen, Tail, ReadOutcome, lines, idle, cut, consumed, texts, take_lines, after_read, read_file,
  restart, read_new_lines, max_read_per_poll, budget, given,
}

-- a line, by its bytes
abbrev pub IsLine : List ℕ → Type 0
IsLine line = contains b'\n' line ≡ false

-- lines as they stand in a file
unfoldable pub whole : List (List ℕ) → List ℕ
whole [] = []
whole (line ∷ rest) = line ++ (b'\n' ∷ whole rest)

pub cut-rest : (line l : List ℕ) → IsLine l → cut line l ≡ ([], line ++ l)
unfolding cut
cut-rest line [] h = rw (append-nil line)
cut-rest line (b ∷ l) h = ground (arith, cut-rest (line ++ b ∷ []) l, append_assoc line (b ∷ []) l)

pub cut-line :
    (line l rest : List ℕ)
    → IsLine l
    → cut line (l ++ (b'\n' ∷ rest)) ≡ ((line ++ l) ∷ (cut [] rest).0, (cut [] rest).1)
unfolding cut
cut-line line [] rest h = rw (append-nil line)
cut-line line (b ∷ l) rest h =
    ground (arith, cut-line (line ++ b ∷ []) l rest, append_assoc line (b ∷ []) l)

pub cut-whole : (ls : List (List ℕ)) → All IsLine ls → cut [] (whole ls) ≡ (ls, [])
unfolding whole
cut-whole [] h = unfold cut in refl
cut-whole (l ∷ ls) h = rw (cut-line [] l (whole ls) h.0, cut-whole ls h.1)

pub consumed-whole : (ls : List (List ℕ)) → consumed ls ≡ length (whole ls)
unfolding whole
consumed-whole [] = refl
consumed-whole (l ∷ ls) = omega (arith, length-append l (b'\n' ∷ whole ls), consumed-whole ls)

-- what the file system shows of a file, of which one read gives so many bytes at most
abbrev pub shows_up_to : ℕ → List ℕ → Seen
shows_up_to amount bytes = record {
  size = some (length bytes);
  bytes = some bytes;
  amount = amount;
}

-- of a file that is read at once
abbrev pub shows : List ℕ → Seen
shows bytes = shows_up_to max_read_per_poll bytes

-- everything up to here was read, in whole lines
abbrev pub read_up_to : List ℕ → List Text → Tail
read_up_to old batch = record { offset = length old; partial = []; batch = batch }

restart_grown :
    (old added : List ℕ) (batch : List Text)
    → restart (length (old ++ added)) (read_up_to old batch) ≡ read_up_to old batch
unfolding restart
restart_grown old added batch = ground (arith, length-append old added)

module _ (decode : List ℕ → Text) (max_line_bytes : ℕ) where
  -- what was appended to the file is what one read gives
  pub read-appended :
      (amount : ℕ) (old added : List ℕ) (batch : List Text)
      → length added ≤ amount
      → length added ≤ max_read_per_poll
      → read_new_lines decode max_line_bytes
          (shows_up_to amount (old ++ added))
          (read_up_to old batch)
        ≡ after_read decode max_line_bytes (read_up_to old batch) added
  unfolding read_new_lines read_file budget
  read-appended amount old added batch a h = rw (
    restart_grown old added batch,
    drop-append old added,
    take_all amount added a,
    take_all max_read_per_poll added h,
  )

  pub outcome : List (List ℕ) → ReadOutcome
  outcome [] = idle
  outcome (l ∷ ls) = lines (texts decode max_line_bytes (l ∷ ls))

  pub given-outcome : (ls : List (List ℕ)) → given (outcome ls) ≡ texts decode max_line_bytes ls
  unfolding outcome texts
  given-outcome [] = refl
  given-outcome (l ∷ ls) = refl

  take_lines-whole :
      (old : List ℕ) (ls : List (List ℕ)) (batch : List Text)
      → All IsLine ls
      → take_lines decode max_line_bytes (read_up_to old batch) (whole ls)
        ≡ (lines (texts decode max_line_bytes ls), read_up_to (old ++ whole ls) batch)
  unfolding take_lines
  take_lines-whole old ls batch h =
      rw (cut-whole ls h, consumed-whole ls, length-append old (whole ls))

  pub after_read-whole :
      (old : List ℕ) (ls : List (List ℕ)) (batch : List Text)
      → All IsLine ls
      → after_read decode max_line_bytes (read_up_to old batch) (whole ls)
        ≡ (outcome ls, read_up_to (old ++ whole ls) batch)
  unfolding after_read outcome
  after_read-whole old [] batch h = unfold whole in rw (append-nil old)
  after_read-whole old ([] ∷ ls) batch h = unfold whole in take_lines-whole old ([] ∷ ls) batch h
  after_read-whole old ((b ∷ l) ∷ ls) batch h =
      unfold whole in take_lines-whole old ((b ∷ l) ∷ ls) batch h
