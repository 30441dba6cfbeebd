-- ===== src/Git/History.antt =====
-- `hold_at` against a replay of the history, commit by commit, and along a line of refs.
use ibis_assistant.Prelude.{
  ◌≡◌, refl, Bool, true, false, not, ◌&&◌, some, List, [], ◌∷◌, any, arith, if◌then◌else◌,
}
use ibis_assistant.Text.{Text, text_eq, is_empty}
use ibis_assistant.Text.Trim.{trim, trim_idem}
use ibis_assistant.Git.{AncestorSet, contains, hold_at}

-- what the commits so far made of a claim
pub data Standing : Type 0 where
  unknown : Standing
  valid : Standing
  withdrawn : Standing

abbrev pub is_valid : Standing → Bool
is_valid valid = true
is_valid _ = false

-- a commit may introduce a claim that is unknown, and may withdraw it for good
abbrev pub replayed : Text → Text → Text → Standing → Standing
replayed introduced invalidated commit withdrawn = withdrawn
replayed introduced invalidated commit valid =
    if text_eq commit invalidated then withdrawn else valid
replayed introduced invalidated commit unknown =
    if text_eq commit invalidated
    then withdrawn
    else if text_eq commit introduced
    then valid
    else unknown

-- one commit after another
abbrev pub replay : Text → Text → List Text → Standing → Standing
replay introduced invalidated [] standing = standing
replay introduced invalidated (commit ∷ later) standing =
    replay introduced invalidated later (replayed introduced invalidated commit standing)

-- no commit has an empty name
abbrev pub AreNamed : List Text → Type 0
AreNamed [] = Unit
AreNamed (commit ∷ later) = (is_empty commit ≡ false) × AreNamed later

abbrev holds : Text → Text → List Text → Bool
holds introduced invalidated commits =
    any (λ o. text_eq o introduced) commits && not (any (λ o. text_eq o invalidated) commits)

module _ (introduced invalidated : Text) where
  replay-withdrawn :
      (commits : List Text) → replay introduced invalidated commits withdrawn ≡ withdrawn
  replay-withdrawn [] = refl
  replay-withdrawn (commit ∷ later) = replay-withdrawn later

  replay-valid :
      (commits : List Text)
      → is_valid (replay introduced invalidated commits valid)
        ≡ not (any (λ o. text_eq o invalidated) commits)
  replay-valid [] = refl
  replay-valid (commit ∷ later) = ground (arith, replay-valid later, replay-withdrawn later)

  replay-unknown :
      (commits : List Text)
      → is_valid (replay introduced invalidated commits unknown)
        ≡ holds introduced invalidated commits
  replay-unknown [] = refl
  replay-unknown (commit ∷ later) =
      ground (arith, replay-unknown later, replay-valid later, replay-withdrawn later)

any-named :
    (name : Text) (commits : List Text)
    → AreNamed commits
    → is_empty name ≡ true
    → any (λ o. text_eq o name) commits ≡ false
unfolding text_eq is_empty
any-named [] [] h e = refl
any-named [] ([] ∷ later) h e = cc
any-named [] ((c ∷ o) ∷ later) h e = any-named [] later h.1 e
any-named (c ∷ name) commits h e = cc

-- A claim holds at a ref just if replaying the commits of the ref, in whatever order they are
-- listed, leaves it valid: one of them introduced it, and none withdrew it, neither that one nor one
-- listed before or behind it. No commit has an empty name.
pub hold_at-replay :
    (introduced_in_oid invalidated_at_oid ref_oid : Text) (commits : List Text)
    → AreNamed commits
    → hold_at introduced_in_oid invalidated_at_oid
        (some (record { ref_oid = ref_oid; oids = commits }))
      ≡ is_valid (replay (trim introduced_in_oid) (trim invalidated_at_oid) commits unknown)
unfolding hold_at contains
hold_at-replay introduced_in_oid invalidated_at_oid ref_oid commits h =
    let introduced = trim introduced_in_oid in
    let invalidated = trim invalidated_at_oid in
    ground (
      arith,
      trim_idem introduced_in_oid,
      trim_idem invalidated_at_oid,
      replay-unknown introduced invalidated commits,
      any-named introduced commits h,
      any-named invalidated commits h,
    )

-- every ancestor of the one ref is an ancestor of the other: the other is a descendant
abbrev IsBefore : AncestorSet → AncestorSet → Type 0
IsBefore a b = (oid : Text) → contains a oid ≡ true → contains b oid ≡ true

module _ (introduced_in_oid invalidated_at_oid : Text) where
  -- A claim holds on an interval of history: if it holds at a ref and at a descendant of it, it
  -- holds at every ref between the two.
  hold_at_interval :
      (a b c : AncestorSet)
      → IsBefore a b
      → IsBefore b c
      → hold_at introduced_in_oid invalidated_at_oid (some a) ≡ true
      → hold_at introduced_in_oid invalidated_at_oid (some c) ≡ true
      → hold_at introduced_in_oid invalidated_at_oid (some b) ≡ true
  unfolding hold_at
  hold_at_interval a b c ab bc ha hc =
      ground (arith, ab (trim introduced_in_oid), bc (trim invalidated_at_oid))

  -- A claim that has been introduced and does not hold at a ref holds at no descendant of that ref.
  hold_at_final :
      (a b : AncestorSet)
      → IsBefore a b
      → contains a (trim introduced_in_oid) ≡ true
      → hold_at introduced_in_oid invalidated_at_oid (some a) ≡ false
      → hold_at introduced_in_oid invalidated_at_oid (some b) ≡ false
  unfolding hold_at
  hold_at_final a b ab h ha = ground (arith, ab (trim invalidated_at_oid))
