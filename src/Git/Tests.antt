-- ===== src/Git/Tests.antt =====
-- A history of three commits, and runs of the ancestor engine on it.
use ibis_assistant.Prelude.{
  ℕ, ◌+◌, inl, inr, Bool-cases, if◌then◌else◌, ◌≡◌, refl, false, some, List, [], ◌∷◌, arith,
}
use ibis_assistant.Effect.{ok}
use ibis_assistant.Text.{Text, str, text_eq}
use ibis_assistant.Text.Trim.{trim}
use ibis_assistant.Text.Run.{text_runs}
use ibis_assistant.Git.{AncestorSet, Anchors, hold_at}
use ibis_assistant.Git.History.{unknown, is_valid, replay, hold_at-replay}
use ibis_assistant.Git.Cache.Calls.{Call, ask, forget, meanwhile, AreAnswered, ancestor_set_exact}

abbrev oid_set : Text → List Text → AncestorSet
oid_set oid oids = record { ref_oid = oid; oids = oids }

abbrev c1 : AncestorSet
c1 = oid_set (str "c1") (str "c1" ∷ [])

abbrev c2 : AncestorSet
c2 = oid_set (str "c2") (str "c2" ∷ str "c1" ∷ [])

abbrev c3 : AncestorSet
c3 = oid_set (str "c3") (str "c3" ∷ str "c2" ∷ str "c1" ∷ [])

-- introduced by the first commit, and withdrawn by the third
hold_at-replay_example :
    hold_at (str "c1") (str " c3") (some c3)
    ≡ is_valid (replay (str "c1") (str "c3") (str "c3" ∷ str "c2" ∷ str "c1" ∷ []) unknown)
unfolding text_runs
hold_at-replay_example =
    hold_at-replay (str "c1") (str " c3") (str "c3") (str "c3" ∷ str "c2" ∷ str "c1" ∷ [])
      (refl, (refl, (refl, tt)))

abbrev history : Text → Text → List Text
history r o = if text_eq o (str "c2") then str "c2" ∷ str "c1" ∷ [] else o ∷ []

-- a repository with two commits, whose clock is the world
abbrev anchors : Anchors ℕ
anchors = record {
  resolve_ref =
      λ r reference s. (ok (if text_eq reference (str "HEAD") then str "c2" else str "c1"), s);
  is_shallow = λ r s. (ok false, s);
  list_ancestors = λ r o s. (ok (history r o), s);
  now = λ s. s;
}

immutable :
    (r o : Text) (s : ℕ) (oids : List Text)
    → (anchors.list_ancestors r o s).0 ≡ ok oids
    → oids ≡ history r o
immutable r o s oids h = cc

bare :
    (r reference : Text) (s : ℕ) (o : Text)
    → (anchors.resolve_ref r reference s).0 ≡ ok o
    → trim o ≡ o
unfolding text_runs
bare r reference s o h = elim (Bool-cases (text_eq reference (str "HEAD"))) [
  | inl e ↦ let same : str "c2" ≡ o = ground arith in rw (← same)
  | inr e ↦ let same : str "c1" ≡ o = ground arith in rw (← same)
]

-- two commits are asked for, one of them twice, with other things between
abbrev asked : List (Call ℕ)
asked =
    ask (str "/r") (str "HEAD")
    ∷ ask (str "/r") (str "HEAD~1")
    ∷ meanwhile (λ s. s + 60)
    ∷ ask (str "/r") (str "HEAD")
    ∷ forget (str "/r")
    ∷ []

ancestor_set_exact_example : AreAnswered history anchors asked (5, [])
unfolding text_runs
ancestor_set_exact_example =
    ancestor_set_exact history anchors immutable bare asked 5
      (refl, refl, (refl, refl, (refl, refl, tt)))
