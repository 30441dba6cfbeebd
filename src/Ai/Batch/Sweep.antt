-- ===== src/Ai/Batch/Sweep.antt =====
-- The sweep over the pending chunks (batch_manager.rs, `process_pending_chunks`).
use ibis_assistant.Prelude.{
  ℕ, zero, suc, ◌≤◌, ◌≡◌, refl, sym, ap, ◌∙◌, Bool, true, false, not, ◌&&◌, Option, none, some,
  take, take_all, if◌then◌else◌, List, [], ◌∷◌, ◌++◌, map, length, length-take-le, leb, ◌==◌, arith,
  inl, inr, Bool-cases,
}
use ibis_assistant.Ai.{ok}
use ibis_assistant.Text.{Text, str, is_empty}
use ibis_assistant.Ai.Batch.{
  BatchManager, process_pending_chunks, sweep_chunks, PendingChunkRow, ChunkStore, Embedder,
  batch_size, fetch, found_rows, filled, usable_row, usable, save, embed, zip,
}

length-map : {A B : Type 0} (f : A → B) (xs : List A) → length (map f xs) ≡ length xs
length-map f [] = refl
length-map f (x ∷ xs) = ap suc (length-map f xs)

zip-map :
    {A B C : Type 0} (f : A → B) (g : A → C) (xs : List A)
    → zip (map f xs) (map g xs) ≡ map (λ x. (f x, g x)) xs
zip-map f g [] = refl
zip-map f g (x ∷ xs) = rw (zip-map f g xs)

leb_long : (n m : ℕ) → leb n m ≡ true → n ≤ m
leb_long n m h = ground arith

leb_short : (n m : ℕ) → leb n m ≡ false → m ≤ n
leb_short n m h = ground arith

==_refl : (n : ℕ) → (n == n) ≡ true
==_refl n = ground arith

-- texts that are there and not empty
abbrev is_filled : Option Text → Bool
is_filled none = false
is_filled (some text) = not (is_empty text)

abbrev text_or_empty : Option Text → Text
text_or_empty none = []
text_or_empty (some text) = text

abbrev pub id_of : PendingChunkRow → Text
id_of row = text_or_empty row.id

abbrev pub content_text : PendingChunkRow → Text
content_text row = text_or_empty row.content

-- the rows with an id and a content
abbrev pub complete : List PendingChunkRow → List PendingChunkRow
complete [] = []
complete (row ∷ rows) =
    let rest = complete rows in
    if is_filled row.id && is_filled row.content then row ∷ rest else rest

usable_row_complete :
    (id content : Option Text) (rest : List Text × List Text)
    → usable_row (filled id) (filled content) rest ≡ (
        if is_filled id && is_filled content
        then (text_or_empty id ∷ rest.0, text_or_empty content ∷ rest.1)
        else rest)
unfolding usable_row is_empty
usable_row_complete none content rest = refl
usable_row_complete (some []) content rest = refl
usable_row_complete (some (c ∷ id)) none rest = refl
usable_row_complete (some (c ∷ id)) (some []) rest = refl
usable_row_complete (some (c ∷ id)) (some (d ∷ content)) rest = refl

usable-complete :
    (rows : List PendingChunkRow)
    → usable rows ≡ (map id_of (complete rows), map content_text (complete rows))
unfolding usable
usable-complete [] = refl
usable-complete (row ∷ rows) =
    usable_row_complete row.id row.content (usable rows)
    ∙ elim (Bool-cases (is_filled row.id && is_filled row.content)) [
      | inl e ↦ rw (e, usable-complete rows)
      | inr e ↦ rw (e, usable-complete rows)
    ]

module _ {A : Type 0} where
  take-append_long : (n : ℕ) (xs ys : List A) → n ≤ length xs → take n (xs ++ ys) ≡ take n xs
  take-append_long zero xs ys h = refl
  take-append_long (suc n) [] ys h = absurd (omega arith)
  take-append_long (suc n) (x ∷ xs) ys h = ap (◌∷◌ x) (take-append_long n xs ys (omega arith))

  take-append_take : (n : ℕ) (xs ys : List A) → take n (take n xs ++ ys) ≡ take n (xs ++ ys)
  take-append_take zero xs ys = refl
  take-append_take (suc n) [] ys = refl
  take-append_take (suc n) (x ∷ xs) ys = ap (◌∷◌ x) (take-append_take n xs ys)

  take-take : (n m : ℕ) (xs : List A) → n ≤ m → take n (take m xs) ≡ take n xs
  take-take zero m xs h = refl
  take-take (suc n) zero xs h = absurd (omega arith)
  take-take (suc n) (suc m) [] h = refl
  take-take (suc n) (suc m) (x ∷ xs) h = ap (◌∷◌ x) (take-take n m xs (omega arith))

  append-take-take :
      (n m : ℕ) (xs ys : List A) → n ≤ m → take n (xs ++ take m ys) ≡ take n (xs ++ ys)
  append-take-take n m [] ys h = take-take n m ys h
  append-take-take zero m (x ∷ xs) ys h = refl
  append-take-take (suc n) m (x ∷ xs) ys h = ap (◌∷◌ x) (append-take-take n m xs ys (omega arith))

  take_both : (n : ℕ) (xs ys : List A) → take n (take n xs ++ take n ys) ≡ take n (xs ++ ys)
  take_both n xs ys = append-take-take n n (take n xs) ys (omega arith) ∙ take-append_take n xs ys

module _ {S Vector : Type 0} where
  -- However many rows the store gives for a table, at most a batch of them is taken in one sweep.
  fetch-bounded :
      (store : ChunkStore S Vector) (tables : List Text) (found : List PendingChunkRow) (s : S)
      → length found ≤ batch_size
      → length (fetch store tables found s).0 ≤ batch_size
  unfolding fetch
  fetch-bounded store [] found s h = h
  fetch-bounded store (t ∷ tables) found s h =
      let more = store.pending_chunks t batch_size s in
      let rows = found ++ found_rows more.0 in
      elim (Bool-cases (leb batch_size (length rows))) [
        | inl e ↦ rw e (length-take-le batch_size rows)
        | inr e ↦ rw e (fetch-bounded store tables rows more.1 (ground arith))
      ]

  save-own :
      (store : ChunkStore S Vector) (vector : Text → Vector) (rows : List PendingChunkRow) (s : S)
      → save store (map id_of rows) (ok (map vector (map content_text rows))) s ≡ (
        tt,
        (store.save_chunk_embeddings (map (λ r. (id_of r, vector (content_text r))) rows) s).1,
      )
  unfolding save
  save-own store vector rows s =
      rw
        (
          length-map vector (map content_text rows),
          length-map content_text rows,
          length-map id_of rows,
          ==_refl (length rows),
        )
        (rw (map-map vector rows, zip-map id_of (λ r. vector (content_text r)) rows))
    where
      map-map :
          (vector : Text → Vector) (rows : List PendingChunkRow)
          → map vector (map content_text rows) ≡ map (λ r. vector (content_text r)) rows
      map-map vector [] = refl
      map-map vector (r ∷ rows) = rw (map-map vector rows)

  -- A provider that works, and gives for each text a vector of its own; `after` is the world that
  -- it leaves.
  abbrev pub one_by_one : (Text → Vector) → (List Text → S → S) → Embedder S Vector
  one_by_one vector after = record {
    is_functional = λ s. (true, s);
    batch_embed_text = λ texts s. (ok (map vector texts), after texts s);
  }

  -- what is saved for rows, if there are any
  abbrev pub save_own :
      ChunkStore S Vector → (Text → Vector) → (List Text → S → S) → List PendingChunkRow → S → S
  save_own store vector after [] s = s
  save_own store vector after (row ∷ rows) s =
      (store.save_chunk_embeddings (map (λ r. (id_of r, vector (content_text r))) (row ∷ rows))
        (after (map content_text (row ∷ rows)) s)).1

  embed-own :
      (store : ChunkStore S Vector) (vector : Text → Vector) (after : List Text → S → S)
      (rows : List PendingChunkRow) (s : S)
      → embed store (one_by_one vector after) (map id_of rows, map content_text rows) s
        ≡ (tt, save_own store vector after rows s)
  unfolding embed
  embed-own store vector after [] s = refl
  embed-own store vector after (row ∷ rows) s =
      save-own store vector (row ∷ rows) (after (map content_text (row ∷ rows)) s)

  module _ (store : ChunkStore S Vector) (pending : Text → List PendingChunkRow)
      -- the store gives the rows of a table that are pending, as many as it is asked for
      (lists : (table : Text) (n : ℕ) (s : S)
        → store.pending_chunks table n s ≡ (ok (take n (pending table)), s)) where
    fetch-rows :
        (first second : Text) (s : S)
        → fetch store (first ∷ second ∷ []) [] s
          ≡ (take batch_size (pending first ++ pending second), s)
    unfolding fetch
    fetch-rows first second s =
        let xs = take batch_size (pending first) in
        let ys = take batch_size (pending second) in
        elim (Bool-cases (leb batch_size (length xs))) [
          | inl e ↦
              rw (lists first batch_size s, e)
                (ap (λ l. (l, s))
                  (sym (
                      take-append_long batch_size xs (pending second)
                        (leb_long batch_size (length xs) e))
                    ∙ take-append_take batch_size (pending first) (pending second)))
          | inr e ↦ elim (Bool-cases (leb batch_size (length (xs ++ ys)))) [
            | inl f ↦
                rw (lists first batch_size s, e, lists second batch_size s, f)
                  (ap (λ l. (l, s)) (take_both batch_size (pending first) (pending second)))
            | inr f ↦
                rw (lists first batch_size s, e, lists second batch_size s, f)
                  (ap (λ l. (l, s))
                    (sym (
                        take_all batch_size (xs ++ ys) (leb_short batch_size (length (xs ++ ys)) f))
                      ∙ take_both batch_size (pending first) (pending second)))
          ]
        ]

    -- Each pending chunk with an id and a content is saved with the vector of its own content, those
    -- of files in front of those of commits and in their order, of the first hundred that are
    -- pending; rows whose id or content is missing or empty are left out, and where none is left
    -- nothing is saved. The store lists what is pending, and the provider works and gives one vector
    -- for each text.
    pub chunks_get_own_vector :
        {Dir : Type 0} (m : BatchManager S Vector Dir) (vector : Text → Vector)
        (after : List Text → S → S) (s : S)
        → m.store ≡ some store
        → m.ai ≡ some (one_by_one vector after)
        → (process_pending_chunks m s).1
          ≡ save_own store vector after
              (complete (take 100 (pending (str "file_chunk") ++ pending (str "commit_chunk"))))
              s
    unfolding process_pending_chunks sweep_chunks
    chunks_get_own_vector m vector after s h k =
        let rows = take 100 (pending (str "file_chunk") ++ pending (str "commit_chunk")) in
        rw (h, k, fetch-rows (str "file_chunk") (str "commit_chunk") s, usable-complete rows)
          (ap (λ r. r.1) (embed-own store vector after (complete rows) s))
