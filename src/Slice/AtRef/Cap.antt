-- ===== src/Slice/AtRef/Cap.antt =====
-- How many answers at a ref are kept, and of which kind (claim_tree.rs, `cap_at_ref_results`).
use ibis_assistant.Prelude.{
  ℕ, suc, zero, ◌+◌, ◌-◌, ◌≤◌, ◌<◌, ◌≡◌, refl, ◌∙◌, Bool, true, false, List, [], ◌∷◌, ◌++◌, length,
  length-append, take, leb, All, arith, inl, inr, Bool-cases,
}
use ibis_assistant.Text.{str, text_eq}
use ibis_assistant.Slice.AtRef.{
  SearchResult, at_ref_result_cap, claim_file_reserved_slots, smaller, insert_by_score, sort_onto,
  part, cap_at_ref_results,
}

length-take : {A : Type 0} (n : ℕ) (xs : List A) → length (take n xs) ≡ smaller n (length xs)
length-take zero xs = ground arith
length-take (suc n) [] = ground arith
length-take (suc n) (x ∷ xs) = ground (arith, length-take n xs)

All-take : {A : Type 0} (P : A → Type 0) (n : ℕ) (xs : List A) → All P xs → All P (take n xs)
All-take P zero xs h = tt
All-take P (suc n) [] h = tt
All-take P (suc n) (x ∷ xs) h = (h.0, All-take P n xs h.1)

module _ {Float : Type 0} where
  abbrev pub is_claim_file : SearchResult Float → Bool
  is_claim_file r = text_eq r.source_kind (str "claim_file")

  length-part :
      (rs : List (SearchResult Float)) → length (part true rs) + length (part false rs) ≡ length rs
  unfolding part
  length-part [] = refl
  length-part (r ∷ rs) = ground (arith, length-part rs)

  part-All : (rs : List (SearchResult Float)) → All (λ r. is_claim_file r ≡ true) (part true rs)
  unfolding part
  part-All [] = tt
  part-All (r ∷ rs) = elim (Bool-cases (is_claim_file r)) [
    | inl e ↦ rw e (e, part-All rs)
    | inr e ↦ rw e (part-All rs)
  ]

  -- what is kept of more
  pub record IsCapped (results kept : List (SearchResult Float)) : Type 0 where
    pub ranked : List (SearchResult Float)
    pub files : List (SearchResult Float)
    pub parts : kept ≡ ranked ++ files
    pub full : length kept ≡ at_ref_result_cap
    pub are_files : All (λ r. is_claim_file r ≡ true) files
    pub floor : smaller claim_file_reserved_slots (length (part true results)) ≤ length files

slots :
    (tree ranked : ℕ)
    → at_ref_result_cap < tree + ranked
    → let floor = smaller claim_file_reserved_slots tree in
      let keep = smaller ranked (at_ref_result_cap - floor) in
      let keep_tree = smaller tree (at_ref_result_cap - keep) in
      (smaller keep ranked + smaller keep_tree tree ≡ at_ref_result_cap)
      × (floor ≤ smaller keep_tree tree)
slots tree ranked h = ground arith

module _ {Float : Type 0} (less : Float → Float → Bool) where
  length-insert_by_score :
      (r : SearchResult Float) (xs : List (SearchResult Float))
      → length (insert_by_score less r xs) ≡ 1 + length xs
  unfolding insert_by_score
  length-insert_by_score r [] = refl
  length-insert_by_score r (x ∷ xs) = ground (arith, length-insert_by_score r xs)

  length-sort_onto :
      (sorted rs : List (SearchResult Float))
      → length (sort_onto less sorted rs) ≡ length sorted + length rs
  unfolding sort_onto
  length-sort_onto sorted [] = omega arith
  length-sort_onto sorted (r ∷ rs) =
      omega (
        arith,
        length-sort_onto (insert_by_score less r sorted) rs,
        length-insert_by_score r sorted,
      )

  -- Up to fifteen answers all stay.
  few_stay :
      (results : List (SearchResult Float))
      → length results ≤ at_ref_result_cap
      → length (cap_at_ref_results less results) ≡ length results
  unfolding cap_at_ref_results
  few_stay results h = elim (Bool-cases (leb (length results) at_ref_result_cap)) [
    | inl e ↦ rw e (omega (arith, length-sort_onto [] results))
    | inr e ↦ absurd (ground arith)
  ]

  -- Of more than fifteen answers fifteen stay. Those from claim files come last, and there are
  -- three of them, or all if there were fewer: a floor, which more may exceed.
  cap_at_ref_results-IsCapped :
      (results : List (SearchResult Float))
      → at_ref_result_cap < length results
      → IsCapped results (cap_at_ref_results less results)
  unfolding cap_at_ref_results
  cap_at_ref_results-IsCapped results h =
      let tree = part true results in
      let ranked = sort_onto less [] (part false results) in
      let tree_floor = smaller claim_file_reserved_slots (length tree) in
      let keep_ranked = smaller (length ranked) (at_ref_result_cap - tree_floor) in
      let keep_tree = smaller (length tree) (at_ref_result_cap - keep_ranked) in
      let many : leb (length results) at_ref_result_cap ≡ false = ground arith in
      let split =
        slots (length tree) (length ranked)
          (omega (arith, length-sort_onto [] (part false results), length-part results)) in
      rw many (record {
        ranked = take keep_ranked ranked;
        files = take keep_tree tree;
        parts = refl;
        full =
            length-append (take keep_ranked ranked) (take keep_tree tree)
            ∙ rw (length-take keep_ranked ranked, length-take keep_tree tree) (split.0);
        are_files = All-take (λ r. is_claim_file r ≡ true) keep_tree tree (part-All results);
        floor = rw (length-take keep_tree tree) (split.1);
      })
