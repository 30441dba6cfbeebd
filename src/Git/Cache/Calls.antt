-- ===== src/Git/Cache/Calls.antt =====
-- Calls of the ancestor engine with one cache, one after another (ancestry.rs, `ancestor_set_for`).
use ibis_assistant.Prelude.{
  ◌≡◌, ◌≢◌, refl, Bool, true, false, Option, none, some, List, [], ◌∷◌, ◌||◌,
}
use ibis_assistant.Effect.{ok, err}
use ibis_assistant.Text.{Text, is_empty}
use ibis_assistant.Text.Trim.{trim}
use ibis_assistant.Git.{
  Result, AncestorSet, AncestorCache, Anchors, State, invalidate, get, cached, build, after_lookup,
  after_shallow, after_resolve, ancestor_set_for,
}
use ibis_assistant.Git.Cache.Keys.{IsPath}
use ibis_assistant.Git.Cache.Exact.{
  IsExact, nothing-IsExact, invalidate-IsExact, IsAnswer, ancestor_set_for-Promise,
}

-- a call of the engine, one of `invalidate`, or what happens to the world between them
pub data Call (S : Type 0) : Type 0 where
  ask : Text → Text → Call S
  forget : Text → Call S
  meanwhile : (S → S) → Call S

-- repositories are asked for by trimmed paths
abbrev pub ArePaths : {S : Type 0} → List (Call S) → Type 0
ArePaths [] = Unit
ArePaths (ask r _ ∷ calls) = (trim r ≡ r) × IsPath r × ArePaths calls
ArePaths (forget _ ∷ calls) = ArePaths calls
ArePaths (meanwhile _ ∷ calls) = ArePaths calls

module _ {S : Type 0} (anchors : Anchors S) where
  build-answers :
      (r oid : Text) (oids : Result (List Text)) (l : List Text) (st : State S)
      → oids ≡ ok l
      → (set : AncestorSet) × ((build anchors r oid oids st).0 ≡ ok set)
  unfolding build
  build-answers r oid (err e) l st h = cc
  build-answers r oid (ok oids) l st h = (record { ref_oid = oid; oids = oids }, refl)

  after_lookup-answers :
      (r oid : Text) (found : Option AncestorSet) (st : State S)
      → ((s : S) → (l : List Text) × ((anchors.list_ancestors r oid s).0 ≡ ok l))
      → (set : AncestorSet) × ((after_lookup anchors r oid found st).0 ≡ ok set)
  unfolding after_lookup
  after_lookup-answers r oid (some set) st h = (set, refl)
  after_lookup-answers r oid none (s, entries) h =
      let listed = anchors.list_ancestors r oid s in
      let (l, e) = h s in build-answers r oid listed.0 l (listed.1, entries) e

  after_shallow-answers :
      (r oid : Text) (shallow : Result Bool) (st : State S)
      → shallow ≢ ok true
      → ((s : S) → (l : List Text) × ((anchors.list_ancestors r oid s).0 ≡ ok l))
      → (set : AncestorSet) × ((after_shallow anchors r oid shallow st).0 ≡ ok set)
  unfolding after_shallow cached
  after_shallow-answers r oid (ok true) st n h = absurd (n refl)
  after_shallow-answers r oid (ok false) (s, entries) n h =
      let found = get (anchors.now s) r oid entries in
      after_lookup-answers r oid found.0 (s, found.1) h
  after_shallow-answers r oid (err e) (s, entries) n h =
      let found = get (anchors.now s) r oid entries in
      after_lookup-answers r oid found.0 (s, found.1) h

  -- there is an answer where git resolves the ref, knows of no shallow clone and lists ancestors
  abbrev pub IsAnswered : Text → Text → S → Result AncestorSet → Type 0
  IsAnswered r reference s answer =
      (oid : Text)
      → (is_empty (trim r) || is_empty (trim reference)) ≡ false
      → (anchors.resolve_ref r reference s).0 ≡ ok oid
      → (anchors.is_shallow r (anchors.resolve_ref r reference s).1).0 ≢ ok true
      → ((s' : S) → (l : List Text) × ((anchors.list_ancestors r oid s').0 ≡ ok l))
      → (set : AncestorSet) × (answer ≡ ok set)

  ancestor_set_for-IsAnswered :
      (r reference : Text) (s : S) (entries : AncestorCache)
      → IsAnswered r reference s (ancestor_set_for anchors r reference (s, entries)).0
  unfolding ancestor_set_for after_resolve
  ancestor_set_for-IsAnswered r reference s entries oid plain resolved n h =
      let s' = (anchors.resolve_ref r reference s).1 in
      let shallow = anchors.is_shallow r s' in
      rw (plain, resolved) (after_shallow-answers r oid shallow.0 (shallow.1, entries) n h)

module _ (history : Text → Text → List Text) {S : Type 0} (anchors : Anchors S) where
  -- each answer of a sequence of calls is right, and is given where it can be
  abbrev pub AreAnswered : List (Call S) → State S → Type 0
  AreAnswered [] st = Unit
  AreAnswered (ask r reference ∷ calls) (s, entries) =
      let (answer, st) = ancestor_set_for anchors r reference (s, entries) in
      ((set : AncestorSet) → answer ≡ ok set → IsAnswer history anchors r reference s set)
      × IsAnswered anchors r reference s answer
      × AreAnswered calls st
  AreAnswered (forget r ∷ calls) (s, entries) = AreAnswered calls (s, invalidate r entries)
  AreAnswered (meanwhile f ∷ calls) (s, entries) = AreAnswered calls (f s, entries)

  module _
      (immutable : (r o : Text) (s : S) (oids : List Text)
        → (anchors.list_ancestors r o s).0 ≡ ok oids
        → oids ≡ history r o)
      (bare : (r reference : Text) (s : S) (o : Text)
        → (anchors.resolve_ref r reference s).0 ≡ ok o
        → trim o ≡ o) where
    calls_answered :
        (calls : List (Call S)) (s : S) (entries : AncestorCache)
        → ArePaths calls
        → IsExact history entries
        → AreAnswered calls (s, entries)
    calls_answered [] s entries h v = tt
    calls_answered (ask r reference ∷ calls) s entries h v =
        let kept =
          ancestor_set_for-Promise history anchors immutable bare r reference s entries h.0 h.1 v in
        let st = (ancestor_set_for anchors r reference (s, entries)).1 in
        (
          kept.1,
          ancestor_set_for-IsAnswered anchors r reference s entries,
          calls_answered calls st.0 st.1 h.2 kept.0,
        )
    calls_answered (forget r ∷ calls) s entries h v =
        calls_answered calls s (invalidate r entries) h (invalidate-IsExact history r entries v)
    calls_answered (meanwhile f ∷ calls) s entries h v = calls_answered calls (f s) entries h v

    -- The cache is transparent and the engine fails closed, over any sequence of calls that starts
    -- with an empty cache: every set that is returned is exactly the ancestors of the commit that
    -- the ref resolves to at that call, also if other commits and repositories were asked for or
    -- dropped before, and only where git did not say that the clone is shallow; and there is one
    -- where the path and the ref are not blank, and git resolves the ref, does not say so, and lists
    -- ancestors. Git always lists the same ancestors of a commit, and the names of commits that it
    -- gives are trimmed; the paths of the repositories that are asked for are trimmed too, and have
    -- no null character in them.
    pub ancestor_set_exact :
        (calls : List (Call S)) (s : S) → ArePaths calls → AreAnswered calls (s, [])
    ancestor_set_exact calls s h = calls_answered calls s [] h (nothing-IsExact history)
