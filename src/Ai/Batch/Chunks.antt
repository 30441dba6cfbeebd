-- ===== src/Ai/Batch/Chunks.antt =====
-- The chunks that a text is cut into (batch_manager.rs, `chunk_string`).
use ibis_assistant.Prelude.{
  ℕ, ◌+◌, ◌≤◌, ◌≡◌, ◌⊎◌, inl, inr, refl, sym, ap, ◌∙◌, false, List, [], ◌∷◌, ◌++◌, map, concat, All,
  leb, arith, if◌then◌else◌, Bool-cases, leb→le,
}
use mathlib.Core.List.{append-nil, append_assoc}
use ibis_assistant.Text.{Text, is_empty}
use ibis_assistant.Text.Bytes.{byte_len, len_utf8, byte_len-append}
use ibis_assistant.Text.Split.{contains, split, split_none}
use ibis_assistant.Text.Lines.{IsPart, split-parts, split-join, kept, kept-append}
use ibis_assistant.Ai.Batch.{is_full, extend, fill, chunk_string}

module _ (max_len : ℕ) where
  -- a chunk that fits, or is one line
  abbrev pub IsFitting : Text → Type 0
  IsFitting chunk = (byte_len chunk ≤ max_len) ⊎ (contains b'\n' chunk ≡ false)

  extend-IsFitting :
      (current line : Text)
      → is_full max_len current line ≡ false
      → contains b'\n' line ≡ false
      → IsFitting (extend current line)
  unfolding is_full extend is_empty
  extend-IsFitting [] line f h = inr h
  extend-IsFitting (c ∷ current) line f h =
      inl (ground (arith, byte_len-append (c ∷ current) (b'\n' ∷ line), newline line))
    where
      newline : (line : Text) → byte_len (b'\n' ∷ line) ≡ 1 + byte_len line
      newline line = unfold byte_len len_utf8 in refl

  fill-IsFitting :
      (current : Text) (lines : List Text)
      → IsFitting current
      → All (IsPart b'\n') lines
      → All IsFitting (fill max_len current lines)
  unfolding fill
  fill-IsFitting current [] f h = elim (Bool-cases (is_empty current)) [
    | inl e ↦ rw e tt
    | inr e ↦ rw e (f, tt)
  ]
  fill-IsFitting current (line ∷ lines) f h = elim (Bool-cases (is_full max_len current line)) [
    | inl e ↦ rw e (f, fill-IsFitting line lines (inr h.0) h.1)
    | inr e ↦
        rw e (fill-IsFitting (extend current line) lines (extend-IsFitting current line e h.0) h.1)
  ]

  -- A chunk takes at most the bytes that are allowed, or is a single line.
  pub chunk_string-IsFitting : (text : Text) → All IsFitting (chunk_string text max_len)
  unfolding chunk_string
  chunk_string-IsFitting text = elim (Bool-cases (leb (byte_len text) max_len)) [
    | inl e ↦ rw e (inl (leb→le _ _ e), tt)
    | inr e ↦ rw e (fill-IsFitting [] (split b'\n' text) (inr refl) (split-parts b'\n' text))
  ]

-- the lines of the chunks that are not blank
unfoldable pub lines_of : List Text → List Text
lines_of chunks = kept (concat (map (split b'\n') chunks))

lines_of-cons :
    (chunk : Text) (chunks : List Text)
    → lines_of (chunk ∷ chunks) ≡ kept (split b'\n' chunk) ++ lines_of chunks
unfolding lines_of
lines_of-cons chunk chunks = kept-append (split b'\n' chunk) (concat (map (split b'\n') chunks))

extend-lines :
    (current line : Text)
    → contains b'\n' line ≡ false
    → kept (split b'\n' (extend current line)) ≡ kept (split b'\n' current) ++ kept (line ∷ [])
unfolding extend is_empty
extend-lines [] line h = rw (split_none b'\n' line h) (unfold kept split in refl)
extend-lines (c ∷ current) line h =
    rw (split-join b'\n' (c ∷ current) line, split_none b'\n' line h)
      (kept-append (split b'\n' (c ∷ current)) (line ∷ []))

fill_end :
    (current : Text)
    → lines_of (if is_empty current then [] else current ∷ []) ≡ kept (split b'\n' current)
unfolding lines_of
fill_end [] = unfold is_empty kept split in refl
fill_end (c ∷ current) = unfold is_empty in ap kept (append-nil (split b'\n' (c ∷ current)))

module _ (max_len : ℕ) where
  fill-lines :
      (current : Text) (lines : List Text)
      → All (IsPart b'\n') lines
      → lines_of (fill max_len current lines) ≡ kept (split b'\n' current) ++ kept lines
  unfolding fill kept
  fill-lines current [] h = fill_end current ∙ sym (append-nil (kept (split b'\n' current)))
  fill-lines current (line ∷ lines) h = elim (Bool-cases (is_full max_len current line)) [
    | inl e ↦ rw e (
        lines_of-cons current (fill max_len line lines)
        ∙ ap (λ l. kept (split b'\n' current) ++ l)
            (fill-lines line lines h.1
              ∙ ap (λ l. kept l ++ kept lines) (split_none b'\n' line h.0)
              ∙ sym (kept-append (line ∷ []) lines)))
    | inr e ↦ rw e (
        fill-lines (extend current line) lines h.1
        ∙ ap (λ l. l ++ kept lines) (extend-lines current line h.0)
        ∙ append_assoc (kept (split b'\n' current)) (kept (line ∷ [])) (kept lines)
        ∙ ap (λ l. kept (split b'\n' current) ++ l) (sym (kept-append (line ∷ []) lines)))
  ]

  -- The chunks hold the lines of the text, each once and in order, blank lines aside.
  pub chunk_string-lines :
      (text : Text) → lines_of (chunk_string text max_len) ≡ kept (split b'\n' text)
  unfolding chunk_string is_empty
  chunk_string-lines text = elim (Bool-cases (leb (byte_len text) max_len)) [
    | inl e ↦ rw e (unfold lines_of in ap kept (append-nil (split b'\n' text)))
    | inr e ↦ rw e (fill-lines [] (split b'\n' text) (split-parts b'\n' text) ∙ blank_start text)
  ]
    where
      blank_start :
          (text : Text) → kept (split b'\n' []) ++ kept (split b'\n' text) ≡ kept (split b'\n' text)
      blank_start text = unfold kept split in refl
