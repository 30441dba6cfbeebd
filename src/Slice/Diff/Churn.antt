-- ===== src/Slice/Diff/Churn.antt =====
-- The caps on a difference (kdiff.rs).
use ibis_assistant.Prelude.{
  ℕ, ◌+◌, ◌-◌, ◌≤◌, ◌≡◌, refl, false, length, length-take-le, ltb, if◌then◌else◌, arith, inl, inr,
  Bool-cases,
}
use ibis_assistant.Slice.Diff.{KnowledgeDiff, cap_claims, cap_paths, knowledge_diff_max_paths}

-- what the caps make of a difference
pub record IsCapped (max_claims : ℕ) (diff capped : KnowledgeDiff) : Type 0 where
  pub claims : length capped.added_claims + length capped.removed_claims ≤ max_claims
  pub paths : length capped.changed_paths ≤ knowledge_diff_max_paths
  pub honest : capped.truncated ≡ false → capped ≡ diff

cap_claims-le :
    (max_claims : ℕ) (diff : KnowledgeDiff)
    → (length (cap_claims max_claims diff).added_claims
          + length (cap_claims max_claims diff).removed_claims
        ≤ max_claims)
      × ((cap_claims max_claims diff).truncated ≡ false → cap_claims max_claims diff ≡ diff)
unfolding cap_claims
cap_claims-le max_claims diff =
    let keep =
      if ltb max_claims (length diff.added_claims) then max_claims else length diff.added_claims in
    let added = length-take-le keep diff.added_claims in
    let removed = length-take-le (max_claims - keep) diff.removed_claims in
    elim (Bool-cases (ltb max_claims (length diff.added_claims + length diff.removed_claims))) [
      | inl e ↦ rw e (ground (arith, added, removed), λ h. cc)
      | inr e ↦ rw e (ground arith, λ h. refl)
    ]

-- At most so many claims and paths are left, and if the difference does not say that it was cut,
-- nothing of it was.
caps-IsCapped :
    (max_claims : ℕ) (diff : KnowledgeDiff)
    → IsCapped max_claims diff (cap_paths (cap_claims max_claims diff))
unfolding cap_paths
caps-IsCapped max_claims diff =
    let capped = cap_claims max_claims diff in
    let h = cap_claims-le max_claims diff in
    elim (Bool-cases (ltb knowledge_diff_max_paths (length capped.changed_paths))) [
      | inl e ↦ rw e (record {
        claims = h.0;
        paths = length-take-le knowledge_diff_max_paths capped.changed_paths;
        honest = λ t. cc;
      })
      | inr e ↦ rw e (record { claims = h.0; paths = ground arith; honest = λ t. h.1 t })
    ]
