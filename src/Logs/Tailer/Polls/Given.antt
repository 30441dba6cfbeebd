-- ===== src/Logs/Tailer/Polls/Given.antt =====
-- Which texts a file that grows by whole lines gives (tailer.rs, `read_new_lines`).
use ibis_assistant.Prelude.{
  ℕ, ◌≤◌, ◌≡◌, refl, ap, Bool, true, false, take, map, leb, ◌==◌, any-append-false, if◌then◌else◌,
  List, [], ◌∷◌, ◌++◌, length, All, arith,
}
use ibis_assistant.Text.{Text, is_empty}
use ibis_assistant.Text.Split.{contains, ends_with}
use ibis_assistant.Text.Trim.{trim}
use ibis_assistant.Logs.Tailer.{Seen, texts, max_read_per_poll, polls, push_line, strip_return}
use ibis_assistant.Logs.Tailer.Polls.{
  IsLine, whole, shows_up_to, read_up_to, read-appended, after_read-whole, given-outcome,
}

-- a line without its end, and whether a carriage return belongs to the end
abbrev pub FileLine : Type 0
FileLine = List ℕ × Bool

-- a text line holds no line feed, and ends with no carriage return of its own
abbrev pub IsFileLine : FileLine → Type 0
IsFileLine (text, _) = (contains b'\n' text ≡ false) × (ends_with b'\r' text ≡ false)

abbrev pub bytes_of : FileLine → List ℕ
bytes_of (text, crlf) = if crlf then text ++ b'\r' ∷ [] else text

-- Groups of lines that are appended to a file, each with the number of bytes that the next read
-- gives at most.
abbrev pub Appended : Type 0
Appended = ℕ × List FileLine

abbrev pub group_bytes : List FileLine → List ℕ
group_bytes group = whole (map bytes_of group)

-- each group is no larger than what one read, and one poll, gives
abbrev pub AreAppended : List Appended → Type 0
AreAppended [] = Unit
AreAppended ((amount, group) ∷ later) =
    All IsFileLine group
    × (length (group_bytes group) ≤ amount)
    × (length (group_bytes group) ≤ max_read_per_poll)
    × AreAppended later

-- what is seen of it: the file once after each group
abbrev pub growing : List ℕ → List Appended → List Seen
growing old [] = []
growing old ((amount, group) ∷ later) =
    shows_up_to amount (old ++ group_bytes group) ∷ growing (old ++ group_bytes group) later

abbrev pub grown : List ℕ → List Appended → List ℕ
grown old [] = old
grown old ((_, group) ∷ later) = grown (old ++ group_bytes group) later

abbrev pub all_lines : List Appended → List FileLine
all_lines [] = []
all_lines ((_, group) ∷ later) = group ++ all_lines later

ends_return : (text : List ℕ) → strip_return (text ++ b'\r' ∷ []) ≡ text
unfolding strip_return
ends_return [] = refl
ends_return (b ∷ []) = refl
ends_return (b ∷ c ∷ text) = ap (◌∷◌ b) (ends_return (c ∷ text))

no_return : (text : List ℕ) → ends_with b'\r' text ≡ false → strip_return text ≡ text
unfolding strip_return ends_with
no_return [] h = refl
no_return (b ∷ []) h = rw h
no_return (b ∷ c ∷ text) h = ap (◌∷◌ b) (no_return (c ∷ text) h)

strip_return-bytes_of : (line : FileLine) → IsFileLine line → strip_return (bytes_of line) ≡ line.0
strip_return-bytes_of (text, true) h = ends_return text
strip_return-bytes_of (text, false) h = no_return text h.1

contains_return : (text : List ℕ) → contains b'\n' text ≡ false → IsLine (text ++ b'\r' ∷ [])
contains_return text h = any-append-false (λ c. c == b'\n') text (b'\r' ∷ []) h refl

bytes_of-IsLine : (line : FileLine) → IsFileLine line → IsLine (bytes_of line)
bytes_of-IsLine (text, true) h = contains_return text h.0
bytes_of-IsLine (text, false) h = h.0

group-IsLine : (group : List FileLine) → All IsFileLine group → All IsLine (map bytes_of group)
group-IsLine [] h = tt
group-IsLine (line ∷ group) h = (bytes_of-IsLine line h.0, group-IsLine group h.1)

module _ (decode : List ℕ → Text) (max_line_bytes : ℕ) where
  -- The texts that are promised of a file's lines: of each line that is not blank its text, trimmed,
  -- and of a line with more bytes than allowed what the allowed ones say.
  abbrev pub line_text : FileLine → Text
  line_text (text, _) =
      if leb (length text) max_line_bytes
      then trim (decode text)
      else trim (decode (take max_line_bytes text))

  abbrev pub is_blank_line : FileLine → Bool
  is_blank_line (text, _) = is_empty (trim (decode text))

  abbrev pub without_blank : List FileLine → List FileLine
  without_blank [] = []
  without_blank (line ∷ rest) =
      let later = without_blank rest in if is_blank_line line then later else line ∷ later

  abbrev pub promised : List FileLine → List Text
  promised file_lines = map line_text (without_blank file_lines)

  push_line-text :
      (line : FileLine) (rest : List FileLine)
      → push_line decode max_line_bytes line.0 (promised rest) ≡ promised (line ∷ rest)
  unfolding push_line
  push_line-text (text, crlf) rest = ground arith

  texts-promised :
      (file_lines : List FileLine)
      → All IsFileLine file_lines
      → texts decode max_line_bytes (map bytes_of file_lines) ≡ promised file_lines
  unfolding texts
  texts-promised [] h = refl
  texts-promised (line ∷ rest) h =
      rw (strip_return-bytes_of line h.0, texts-promised rest h.1) (push_line-text line rest)

  promised-append : (xs ys : List FileLine) → promised (xs ++ ys) ≡ promised xs ++ promised ys
  promised-append [] ys = refl
  promised-append (x ∷ xs) ys = ground (arith, promised-append xs ys)

  -- Each line that is appended to a file is given once and in order, with either line end; blank
  -- lines are left out, and lines with more bytes than allowed are cut; and the offset is the file's
  -- length. The file was read up to its end, in whole lines; whole lines are appended, that hold no
  -- line feed and end with no carriage return besides their ends, and between two polls no more
  -- than one read, and one poll, gives.
  pub lines_given_once :
      (old : List ℕ) (groups : List Appended) (batch : List Text)
      → AreAppended groups
      → polls decode max_line_bytes (growing old groups) (read_up_to old batch)
        ≡ (promised (all_lines groups), read_up_to (grown old groups) batch)
  unfolding polls
  lines_given_once old [] batch h = refl
  lines_given_once old ((amount, group) ∷ later) batch (ls, a, m, h) = rw (
    read-appended decode max_line_bytes amount old (group_bytes group) batch a m,
    after_read-whole decode max_line_bytes old (map bytes_of group) batch (group-IsLine group ls),
    lines_given_once (old ++ group_bytes group) later batch h,
    given-outcome decode max_line_bytes (map bytes_of group),
    texts-promised group ls,
    promised-append group (all_lines later),
  )
