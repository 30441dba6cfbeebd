-- ===== src/Logs/Tailer.antt =====
-- crates/ibis-ingest-logs/src/tailer.rs: what a poll reads of the file, and how the lines that it
-- gives are put into batches. The analyzer, the report and the file system are parameters.
pub mod Polls
pub mod Partial
pub mod Batches
use ibis_assistant.Prelude.{
  ℕ, ◌+◌, ◌-◌, Bool, true, false, Option, none, some, List, [], ◌∷◌, ◌++◌, length, take, drop, ltb,
  leb, ◌==◌, ◌&&◌, ◌||◌, not, if◌then◌else◌,
}
use ibis_assistant.Effect.{Action, ◌>>=◌, pure}
use ibis_assistant.Text.{Text, is_empty}
use ibis_assistant.Text.Trim.{trim}

abbrev pub max_read_per_poll : ℕ
max_read_per_poll = 8388608

-- What the file system shows to one poll: the size that the metadata gives, the bytes, if the file
-- opens and reads, and how many of them one read gives at most.
pub record Seen : Type 0 where
  pub size : Option ℕ
  pub bytes : Option (List ℕ)
  pub amount : ℕ

pub record Tail : Type 0 where
  pub offset : ℕ
  pub partial : List ℕ
  pub batch : List Text

pub data ReadOutcome : Type 0 where
  lines : List Text → ReadOutcome
  idle : ReadOutcome
  gone : ReadOutcome

-- the lines that the loop of `run` is given
abbrev pub given : ReadOutcome → List Text
given (lines ls) = ls
given idle = []
given gone = []

-- the complete lines of the bytes, and what is left behind the last line feed; `line` is the part
-- of a line that was read before
unfoldable pub cut : List ℕ → List ℕ → List (List ℕ) × List ℕ
cut line [] = ([], line)
cut line (b ∷ bs) =
    let ended = cut [] bs in
    let longer = cut (line ++ b ∷ []) bs in if b == b'\n' then (line ∷ ended.0, ended.1) else longer

-- the bytes of complete lines, each with its line feed
abbrev pub consumed : List (List ℕ) → ℕ
consumed [] = 0
consumed (line ∷ rest) = length line + 1 + consumed rest

unfoldable pub strip_return : List ℕ → List ℕ
strip_return [] = []
strip_return (b ∷ []) = if b == b'\r' then [] else b ∷ []
strip_return (b ∷ c ∷ bs) = b ∷ strip_return (c ∷ bs)

-- a file that is shorter than what was read is read from its beginning
unfoldable pub restart : ℕ → Tail → Tail
restart size t =
    if ltb size (t.offset + length t.partial)
    then record { offset = 0; partial = []; batch = [] }
    else t

-- what is left of the cap on one poll
unfoldable pub budget : List ℕ → ℕ
budget partial =
    max_read_per_poll
    - (if ltb max_read_per_poll (length partial) then max_read_per_poll else length partial)

-- `from_utf8_lossy` is `decode`, and `max_line_bytes` the field of the tailer
module _ (decode : List ℕ → Text) (max_line_bytes : ℕ) where
  unfoldable pub push_line : List ℕ → List Text → List Text
  push_line line_bytes rest =
      let text = trim (decode line_bytes) in
      if is_empty text
      then rest
      else if ltb max_line_bytes (length line_bytes)
      then trim (decode (take max_line_bytes line_bytes)) ∷ rest
      else text ∷ rest

  unfoldable pub texts : List (List ℕ) → List Text
  texts [] = []
  texts (line ∷ rest) = push_line (strip_return line) (texts rest)

  -- with the bytes that were read appended to those that were left
  unfoldable pub take_lines : Tail → List ℕ → ReadOutcome × Tail
  take_lines t bytes =
      let (complete, rest) = cut [] bytes in
      (lines (texts complete), record t { offset = t.offset + consumed complete; partial = rest })

  unfoldable pub after_read : Tail → List ℕ → ReadOutcome × Tail
  unfolding take_lines
  after_read t [] = (idle, t)
  after_read t (b ∷ read) = take_lines t (t.partial ++ (b ∷ read))

  unfoldable pub read_file : Seen → Tail → ReadOutcome × Tail
  unfolding after_read
  read_file seen t = elim (seen.bytes) [
    | none ↦ (gone, t)
    | some bytes ↦ after_read t (take (budget t.partial) (take seen.amount (drop t.offset bytes)))
  ]

  unfoldable pub read_new_lines : Seen → Tail → ReadOutcome × Tail
  unfolding read_file restart
  read_new_lines seen t = elim (seen.size) [
    | none ↦ (gone, t)
    | some size ↦ read_file seen (restart size t)
  ]

  -- one poll after another, with the lines that they give
  unfoldable pub polls : List Seen → Tail → List Text × Tail
  polls [] t = ([], t)
  polls (seen ∷ later) t =
      let (outcome, t1) = read_new_lines seen t in
      let (rest, t2) = polls later t1 in (given outcome ++ rest, t2)

-- The analyzer, the reporter and the notifier, over a world: a format that is not found, or is no
-- regular expression, is `none`; the flag of `process_batch_sync` says that it failed.
pub record Analyzer (S Regex Anomaly : Type 0) : Type 0 where
  pub discover_format : List Text → Action S (Option Regex)
  pub is_match : Regex → Text → Bool
  pub process_batch_sync : List Text → Action S (List Anomaly × Bool)
  pub emit_report : List Anomaly → Action S (Unit {0})
  pub update_offset : ℕ → Action S (Unit {0})

pub record Loop (Regex Anomaly : Type 0) : Type 0 where
  pub tail : Tail
  pub all_anomalies : List Anomaly
  pub discovery_done : Bool
  pub chunk_regex : Option Regex

-- all but the last of a batch
unfoldable pub head_of : List Text → List Text
head_of [] = []
head_of (x ∷ []) = []
head_of (x ∷ y ∷ xs) = x ∷ head_of (y ∷ xs)

abbrev pub with_batch :
    {Regex Anomaly : Type 0} → List Text → Loop Regex Anomaly → Loop Regex Anomaly
with_batch batch st = record st { tail = record (st.tail) { batch = batch } }

abbrev pub found_format :
    {Regex Anomaly : Type 0} → Option Regex → Loop Regex Anomaly → Loop Regex Anomaly
found_format none st = record st { discovery_done = true }
found_format (some re) st = record st { discovery_done = true; chunk_regex = some re }

module _ {S Regex Anomaly : Type 0} (analyzer : Analyzer S Regex Anomaly) where
  unfoldable pub matches : Option Regex → Text → Bool
  matches none text = false
  matches (some re) text = analyzer.is_match re text

  -- enough lines, and a new entry where entries are known
  unfoldable pub should_process : Option Regex → Text → List Text → Bool
  should_process none text batch = leb 100 (length batch)
  should_process (some re) text batch =
      leb 100 (length batch) && (analyzer.is_match re text || leb 500 (length batch))

  unfoldable pub discover : Loop Regex Anomaly → Action S (Loop Regex Anomaly)
  discover st =
      if st.discovery_done || not (leb 50 (length st.tail.batch))
      then pure st
      else (do found ← analyzer.discover_format (st.tail.batch); pure (found_format found st))

  -- what a batch that was analyzed leads to
  unfoldable pub after_analysis :
      Loop Regex Anomaly → List Anomaly × Bool → Action S (Loop Regex Anomaly)
  after_analysis st (anomalies, true) = pure st
  after_analysis st ([], false) = do _ ← analyzer.update_offset (st.tail.offset); pure st
  after_analysis st (a ∷ anomalies, false) = do
    let all = st.all_anomalies ++ (a ∷ anomalies)
    _ ← analyzer.emit_report all
    _ ← analyzer.update_offset (st.tail.offset)
    pure (record st { all_anomalies = all })

  unfoldable pub flush : List Text → Loop Regex Anomaly → Action S (Loop Regex Anomaly)
  unfolding after_analysis
  flush [] st = pure st
  flush (text ∷ batch) st = do
    analysis ← analyzer.process_batch_sync (text ∷ batch)
    after_analysis st analysis

  -- a line that begins an entry stays behind
  unfoldable pub process_batch : Text → Loop Regex Anomaly → Action S (Loop Regex Anomaly)
  unfolding flush head_of matches
  process_batch text st =
      if matches st.chunk_regex text
      then flush (head_of st.tail.batch) (with_batch (text ∷ []) st)
      else flush st.tail.batch (with_batch [] st)

  unfoldable pub decide : Text → Loop Regex Anomaly → Action S (Loop Regex Anomaly)
  unfolding process_batch should_process
  decide text st =
      if should_process st.chunk_regex text st.tail.batch then process_batch text st else pure st

  unfoldable pub on_line : Text → Loop Regex Anomaly → Action S (Loop Regex Anomaly)
  unfolding discover decide
  on_line text st = do
    known ← discover (with_batch (st.tail.batch ++ text ∷ []) st)
    decide text known

  unfoldable pub on_lines : List Text → Loop Regex Anomaly → Action S (Loop Regex Anomaly)
  unfolding on_line
  on_lines [] st = pure st
  on_lines (text ∷ rest) st = do next ← on_line text st; on_lines rest next

  -- the ticker, and the shutdown without its report
  unfoldable pub flush_pending : Loop Regex Anomaly → Action S (Loop Regex Anomaly)
  unfolding flush
  flush_pending st = flush st.tail.batch (with_batch [] st)
