-- ===== src/Queue/Lanes.antt =====
-- The lanes of a manager, one at a time and in total; and what the channel promises (queue.rs).
use ibis_assistant.Prelude.{
  ℕ, ◌+◌, ◌≡◌, sym, ◌<◌, Option, none, some, List, [], ◌∷◌, ◌++◌, length, arith, if◌then◌else◌, inl,
  inr, Bool-cases,
}
use ibis_assistant.Text.{Text, text_eq, text_eq_iff}
use ibis_assistant.Text.Map.{lookup}
use ibis_assistant.Queue.{IngestionJob, Channel, sent, put}

-- What tokio documents of its bounded channel: jobs come out in the order in which they went in,
-- never more than its capacity wait, and the receiver's drop drops what waits.
pub record ChannelLaws {C : Type 0} (ops : Channel C) : Type 0 where
  pub view : C → List IngestionJob
  pub capacity : C → ℕ
  pub channel-view : (n : ℕ) → view (ops.channel n) ≡ []
  pub channel-capacity : (n : ℕ) → capacity (ops.channel n) ≡ n
  pub sent-view :
      (job : IngestionJob) (c c' : C) → ops.try_send job c ≡ sent c' → view c' ≡ view c ++ job ∷ []
  pub sent-capacity :
      (job : IngestionJob) (c c' : C) → ops.try_send job c ≡ sent c' → capacity c' ≡ capacity c
  pub sent-room :
      (job : IngestionJob) (c c' : C) → ops.try_send job c ≡ sent c' → length (view c) < capacity c
  pub recv-view :
      (job : IngestionJob) (c c' : C) → ops.recv c ≡ some (job, c') → view c ≡ job ∷ view c'
  pub recv-capacity :
      (job : IngestionJob) (c c' : C) → ops.recv c ≡ some (job, c') → capacity c' ≡ capacity c
  pub recv-some :
      (job : IngestionJob) (js : List IngestionJob) (c : C)
      → view c ≡ job ∷ js
      → (c' : C) × (ops.recv c ≡ some (job, c'))
  pub close-view : (c : C) → view (ops.close c) ≡ []
  pub close-capacity : (c : C) → capacity (ops.close c) ≡ capacity c

module _ {V : Type 0} where
  pub lookup-put :
      (k j : Text) (v : V) (m : List (Text × V))
      → lookup j (put k v m) ≡ (if text_eq k j then some v else lookup j m)
  unfolding lookup put
  lookup-put k j v [] = ground arith
  lookup-put k j v ((i, w) ∷ m) =
      ground (arith, lookup-put k j v m, text_eq_iff i k, text_eq_iff i j, text_eq_iff k j)

  -- A property of every lane is kept by a lane that has it.
  pub put-keeps :
      (P : V → Type 0) (k : Text) (v : V) (m : List (Text × V))
      → ((j : Text) (w : V) → lookup j m ≡ some w → P w)
      → P v
      → (j : Text) (w : V) → lookup j (put k v m) ≡ some w
      → P w
  put-keeps P k v m all pv j w h = elim (Bool-cases (text_eq k j)) [
    | inl e ↦ transport-P v w (ground (arith, lookup-put k j v m)) pv
    | inr e ↦ all j w (ground (arith, lookup-put k j v m))
  ]
    where
      transport-P : (v w : V) → v ≡ w → P v → P w
      transport-P v w e p = rw (sym e) p

  unfoldable pub total : (V → ℕ) → List (Text × V) → ℕ
  total f [] = 0
  total f ((_, v) ∷ m) = f v + total f m

  abbrev pub or_zero : (V → ℕ) → Option V → ℕ
  or_zero f none = 0
  or_zero f (some v) = f v

  pub total-put :
      (f : V → ℕ) (k : Text) (v : V) (m : List (Text × V))
      → total f (put k v m) + or_zero f (lookup k m) ≡ total f m + f v
  unfolding total put lookup
  total-put f k v [] = omega arith
  total-put f k v ((j, w) ∷ m) = ground (arith, total-put f k v m)
