-- ===== src/Logs/Tests.antt =====
-- Polls of small files and runs of the loop, and the theorems at concrete logs.
use ibis_assistant.Prelude.{ℕ, ◌≡◌, refl, true, false, none, some, List, [], ◌∷◌, ◌++◌, arith}
use ibis_assistant.Text.{Text, str}
use ibis_assistant.Text.Run.{text_runs}
use ibis_assistant.Text.Split.{starts_with}
use ibis_assistant.Logs.Tailer.{
  Analyzer, Loop, cut, texts, push_line, strip_return, polls, on_lines, read_new_lines, take_lines,
  after_read, read_file, restart, budget,
}
use ibis_assistant.Logs.Tailer.Polls.{shows, read_up_to, whole}
use ibis_assistant.Logs.Tailer.Polls.Given.{Appended, growing, grown, lines_given_once}
use ibis_assistant.Logs.Tailer.Partial.{partial_line_doubled}
use ibis_assistant.Logs.Tailer.Batches.{Records, lines_kept}

-- ASCII files
abbrev decode : List ℕ → Text
decode bytes = bytes

-- a line, a blank line, and a line with the other end; one read of the second group is short
abbrev two_groups : List Appended
two_groups = (100, (str "one", false) ∷ ([], false) ∷ []) ∷ (5, (str "two", true) ∷ []) ∷ []

lines_given_once_example :
    polls decode 100 (growing (str "old\n") two_groups) (read_up_to (str "old\n") [])
    ≡ (str "one" ∷ str "two" ∷ [], read_up_to (grown (str "old\n") two_groups) [])
unfolding whole text_runs
lines_given_once_example = lines_given_once decode 100 (str "old\n") two_groups [] (
  ((refl, refl), ((refl, refl), tt)),
  omega arith,
  omega arith,
  (((refl, refl), tt), omega arith, omega arith, tt),
)

doubled_line :
    polls decode 100 (shows (str "ab") ∷ shows (str "abc\n") ∷ []) (read_up_to [] [])
    ≡ (str "ababc" ∷ [], record { offset = 6; partial = []; batch = [] })
unfolding polls read_new_lines read_file after_read take_lines restart budget cut texts push_line
    strip_return text_runs
doubled_line = refl

partial_line_doubled_example :
    polls decode 100 (shows (str "ab") ∷ shows (str "abc\n") ∷ []) (read_up_to [] [])
    ≡ (texts decode 100 (str "ababc" ∷ []), record { offset = 6; partial = []; batch = [] })
partial_line_doubled_example =
    partial_line_doubled decode 100 [] (str "ab") (str "c") [] (λ h. cc) refl refl (omega arith)

-- an analyzer that writes down what it is given, and finds nothing
abbrev recorder : Analyzer (List Text) Text Text
recorder = record {
  discover_format = λ batch s. (some (str "#"), s);
  is_match = starts_with;
  process_batch_sync = λ batch s. (([], false), s ++ batch);
  emit_report = λ all s. (tt, s);
  update_offset = λ n s. (tt, s);
}

recorder-Records : Records recorder (λ s. s)
recorder-Records = record {
  analysis = λ batch s. refl;
  format = λ batch s. refl;
  report = λ all s. refl;
  offset = λ n s. refl;
}

abbrev fresh : Loop Text Text
fresh = record {
  tail = read_up_to [] [];
  all_anomalies = [];
  discovery_done = false;
  chunk_regex = none;
}

lines_kept_example :
    (on_lines recorder (str "a" ∷ str "b" ∷ []) fresh []).1
      ++ (on_lines recorder (str "a" ∷ str "b" ∷ []) fresh []).0.tail.batch
    ≡ str "a" ∷ str "b" ∷ []
lines_kept_example = lines_kept recorder (λ s. s) recorder-Records (str "a" ∷ str "b" ∷ []) fresh []
