-- ===== src/Logs/Tailer/Batches.antt =====
-- What becomes of the lines of a log (tailer.rs, the loop of `run`).
use ibis_assistant.Prelude.{
  ℕ, ◌<◌, ◌≡◌, refl, sym, ap, ◌∙◌, Bool, true, false, not, Option, none, some, List, [], ◌∷◌, ◌++◌,
  length, leb, ◌||◌, arith, inl, inr, Bool-cases,
}
use mathlib.Core.List.{append-nil, append_assoc}
use ibis_assistant.Text.{Text}
use ibis_assistant.Logs.Tailer.{
  Analyzer, Loop, head_of, matches, should_process, with_batch, found_format, discover,
  after_analysis, flush, process_batch, decide, on_line, on_lines,
}

head_of-concat : (batch : List Text) (text : Text) → head_of (batch ++ text ∷ []) ≡ batch
unfolding head_of
head_of-concat [] text = refl
head_of-concat (x ∷ []) text = refl
head_of-concat (x ∷ y ∷ batch) text = rw (head_of-concat (y ∷ batch) text)

module _ {S Regex Anomaly : Type 0} (analyzer : Analyzer S Regex Anomaly)
    (seen : S → List Text) where
  -- `seen` is what the analyzer was given up to now, in order.
  pub record Records : Type 0 where
    pub analysis :
        (batch : List Text) (s : S) → seen (analyzer.process_batch_sync batch s).1 ≡ seen s ++ batch
    pub format : (batch : List Text) (s : S) → seen (analyzer.discover_format batch s).1 ≡ seen s
    pub report : (all : List Anomaly) (s : S) → seen (analyzer.emit_report all s).1 ≡ seen s
    pub offset : (n : ℕ) (s : S) → seen (analyzer.update_offset n s).1 ≡ seen s

  module _ (r : Records) where
    after_analysis-seen :
        (st : Loop Regex Anomaly) (a : List Anomaly × Bool) (s : S)
        → (seen (after_analysis analyzer st a s).1 ≡ seen s)
          × ((after_analysis analyzer st a s).0.tail.batch ≡ st.tail.batch)
    unfolding after_analysis
    after_analysis-seen st (found, true) s = (refl, refl)
    after_analysis-seen st ([], false) s = (r.offset _ s, refl)
    after_analysis-seen st (a ∷ found, false) s = (r.offset _ _ ∙ r.report _ s, refl)

    flush-seen :
        (batch : List Text) (st : Loop Regex Anomaly) (s : S)
        → (seen (flush analyzer batch st s).1 ≡ seen s ++ batch)
          × ((flush analyzer batch st s).0.tail.batch ≡ st.tail.batch)
    unfolding flush
    flush-seen [] st s = (sym (append-nil (seen s)), refl)
    flush-seen (x ∷ batch) st s =
        let a = analyzer.process_batch_sync (x ∷ batch) s in
        let after = after_analysis-seen st a.0 a.1 in (after.0 ∙ r.analysis (x ∷ batch) s, after.1)

    -- nothing is lost, doubled or moved: `batch` is what the loop held, and what it was given
    abbrev Keeps : List Text → S → Loop Regex Anomaly × S → Type 0
    Keeps batch s after = seen after.1 ++ after.0.tail.batch ≡ seen s ++ batch

    flush-Keeps :
        (batch rest : List Text) (st : Loop Regex Anomaly) (s : S)
        → Keeps (batch ++ rest) s (flush analyzer batch (with_batch rest st) s)
    flush-Keeps batch rest st s =
        let f = flush-seen batch (with_batch rest st) s in
        rw (f.0, f.1) (append_assoc (seen s) batch rest)

    process_batch-Keeps :
        (batch : List Text) (text : Text) (st : Loop Regex Anomaly) (s : S)
        → st.tail.batch ≡ batch ++ text ∷ []
        → Keeps (batch ++ text ∷ []) s (process_batch analyzer text st s)
    unfolding process_batch
    process_batch-Keeps batch text st s b =
        elim (Bool-cases (matches analyzer st.chunk_regex text)) [
          | inl e ↦ rw (e, b, head_of-concat batch text) (flush-Keeps batch (text ∷ []) st s)
          | inr e ↦
              rw (e, b)
                (flush-Keeps (batch ++ text ∷ []) [] st s
                  ∙ ap (λ l. seen s ++ l) (append-nil (batch ++ text ∷ [])))
        ]

    decide-Keeps :
        (batch : List Text) (text : Text) (st : Loop Regex Anomaly) (s : S)
        → st.tail.batch ≡ batch ++ text ∷ []
        → Keeps (batch ++ text ∷ []) s (decide analyzer text st s)
    unfolding decide
    decide-Keeps batch text st s b =
        elim (Bool-cases (should_process analyzer st.chunk_regex text st.tail.batch)) [
          | inl e ↦ rw e (process_batch-Keeps batch text st s b)
          | inr e ↦ rw e (ap (λ l. seen s ++ l) b)
        ]

    found_format-batch :
        (found : Option Regex) (st : Loop Regex Anomaly)
        → (found_format found st).tail.batch ≡ st.tail.batch
    found_format-batch none st = refl
    found_format-batch (some re) st = refl

    discover-seen :
        (st : Loop Regex Anomaly) (s : S)
        → (seen (discover analyzer st s).1 ≡ seen s)
          × ((discover analyzer st s).0.tail.batch ≡ st.tail.batch)
    unfolding discover
    discover-seen st s =
        elim (Bool-cases (st.discovery_done || not (leb 50 (length st.tail.batch)))) [
          | inl e ↦ rw e (refl, refl)
          | inr e ↦ rw e (r.format st.tail.batch s, found_format-batch _ st)
        ]

    on_line-Keeps :
        (text : Text) (st : Loop Regex Anomaly) (s : S)
        → Keeps (st.tail.batch ++ text ∷ []) s (on_line analyzer text st s)
    unfolding on_line
    on_line-Keeps text st s =
        let st1 = with_batch (st.tail.batch ++ text ∷ []) st in
        let known = discover analyzer st1 s in
        let d = discover-seen st1 s in
        decide-Keeps st.tail.batch text known.0 known.1 d.1
        ∙ ap (λ l. l ++ (st.tail.batch ++ text ∷ [])) d.0

    -- Whatever the analyzer finds and whether it fails, each line is given to it once and in
    -- order, or stands in the batch.
    pub lines_kept :
        (ls : List Text) (st : Loop Regex Anomaly) (s : S)
        → seen (on_lines analyzer ls st s).1 ++ (on_lines analyzer ls st s).0.tail.batch
          ≡ seen s ++ (st.tail.batch ++ ls)
    unfolding on_lines
    lines_kept [] st s = ap (λ l. seen s ++ l) (sym (append-nil st.tail.batch))
    lines_kept (text ∷ ls) st s =
        let next = on_line analyzer text st s in
        lines_kept ls next.0 next.1
        ∙ sym (append_assoc (seen next.1) next.0.tail.batch ls)
        ∙ ap (λ l. l ++ ls) (on_line-Keeps text st s)
        ∙ regroup (seen s) st.tail.batch text ls
      where
        regroup :
            (a b : List Text) (t : Text) (c : List Text)
            → (a ++ (b ++ t ∷ [])) ++ c ≡ a ++ (b ++ (t ∷ c))
        regroup a b t c = simp append_assoc

module _ {S Regex Anomaly : Type 0} (analyzer : Analyzer S Regex Anomaly) where
  after_analysis-batch :
      (st : Loop Regex Anomaly) (a : List Anomaly × Bool) (s : S)
      → (after_analysis analyzer st a s).0.tail.batch ≡ st.tail.batch
  unfolding after_analysis
  after_analysis-batch st (found, true) s = refl
  after_analysis-batch st ([], false) s = refl
  after_analysis-batch st (a ∷ found, false) s = refl

  flush-batch :
      (batch : List Text) (st : Loop Regex Anomaly) (s : S)
      → (flush analyzer batch st s).0.tail.batch ≡ st.tail.batch
  unfolding flush
  flush-batch [] st s = refl
  flush-batch (x ∷ batch) st s = after_analysis-batch st _ _

  should_process-full :
      (re : Option Regex) (text : Text) (batch : List Text)
      → should_process analyzer re text batch ≡ false
      → length batch < 500
  unfolding should_process
  should_process-full none text batch h = ground arith
  should_process-full (some re) text batch h = ground arith

  decide-bound :
      (text : Text) (st : Loop Regex Anomaly) (s : S)
      → length (decide analyzer text st s).0.tail.batch < 500
  unfolding decide process_batch
  decide-bound text st s =
      elim (Bool-cases (should_process analyzer st.chunk_regex text st.tail.batch)) [
        | inr e ↦ rw e (should_process-full st.chunk_regex text st.tail.batch e)
        | inl e ↦ elim (Bool-cases (matches analyzer st.chunk_regex text)) [
          | inl m ↦
              rw (e, m, flush-batch (head_of st.tail.batch) (with_batch (text ∷ []) st) s)
                (omega arith)
          | inr m ↦ rw (e, m, flush-batch st.tail.batch (with_batch [] st) s) (omega arith)
        ]
      ]

  -- Once a line was taken, fewer than 500 lines wait, however many did before and whatever the
  -- format of the log is.
  line_bounds_batch :
      (text : Text) (st : Loop Regex Anomaly) (s : S)
      → length (on_line analyzer text st s).0.tail.batch < 500
  unfolding on_line
  line_bounds_batch text st s =
      let known = discover analyzer (with_batch (st.tail.batch ++ text ∷ []) st) s in
      decide-bound text known.0 known.1
