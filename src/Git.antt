-- ===== src/Git.antt =====
-- crates/ibis-git/src/ancestry.rs: ancestor sets, the predicate `hold_at` and the ancestor cache;
-- the errors of src/error.rs; the loop of `as_of_claims` in crates/ibis-search/src/memory/asof.rs.
pub mod History
pub mod Cache
pub mod AsOf
pub mod Credentials
pub mod Notes
mod Tests
use ibis_assistant.Prelude.{
  ℕ, ◌+◌, Bool, true, false, not, Option, none, some, List, [], ◌∷◌, ◌++◌, any, ◌||◌, ◌&&◌, ltb,
  leb, if◌then◌else◌,
}
use ibis_assistant.Effect.{Fallible, ok, err, Action, ◌>>=◌, pure}
use ibis_assistant.Text.{Text, str, text_eq, is_empty}
use ibis_assistant.Text.Trim.{trim}
use ibis_assistant.Text.Split.{starts_with}
use ibis_assistant.Text.Map.{lookup, insert, remove, retain}

-- `Spawn` holds an `std::io::Error`, here its message
pub data GitError : Type 0 where
  command : Text → Text → GitError
  spawn : Text → GitError
  context : Text → GitError → GitError
  shallow_history : Text → GitError
  credentials_required : Text → Text → Text → GitError
  other : Text → GitError

abbrev pub Result : Type 0 → Type 0
Result A = Fallible GitError A

-- `oids` is a `HashSet`: only membership is read, and its size
pub record AncestorSet : Type 0 where
  pub ref_oid : Text
  pub oids : List Text

unfoldable pub contains : AncestorSet → Text → Bool
contains set oid = any (λ o. text_eq o (trim oid)) set.oids

-- the part of `hold_at` for a claim with an ancestor set
unfoldable pub hold_in : Text → Text → AncestorSet → Bool
hold_in introduced_in_oid invalidated_at_oid ancestors =
    let introduced = trim introduced_in_oid in
    let invalidated = trim invalidated_at_oid in
    if is_empty introduced
    then false
    else if not (contains ancestors introduced)
    then false
    else if is_empty invalidated
    then true
    else not (contains ancestors invalidated)

unfoldable pub hold_at : Text → Text → Option AncestorSet → Bool
unfolding hold_in
hold_at introduced_in_oid invalidated_at_oid none = false
hold_at introduced_in_oid invalidated_at_oid (some ancestors) =
    hold_in introduced_in_oid invalidated_at_oid ancestors

-- seconds
abbrev pub ancestor_cache_ttl : ℕ
ancestor_cache_ttl = 300

pub record CacheEntry : Type 0 where
  pub set : AncestorSet
  pub expires : ℕ

-- `AncestorCache`: the map behind the mutex. Every operation takes the time that the clock gives it.
abbrev pub AncestorCache : Type 0
AncestorCache = List (Text × CacheEntry)

unfoldable pub cache_key : Text → Text → Text
cache_key repo_path oid = trim repo_path ++ (0 ∷ trim oid)

unfoldable pub get_entry :
    ℕ → Text → Option CacheEntry → AncestorCache → Option AncestorSet × AncestorCache
get_entry now key none entries = (none, entries)
get_entry now key (some entry) entries =
    if leb now entry.expires then (some entry.set, entries) else (none, remove key entries)

unfoldable pub get : ℕ → Text → Text → AncestorCache → Option AncestorSet × AncestorCache
unfolding get_entry
get now repo_path oid entries =
    let key = cache_key repo_path oid in get_entry now key (lookup key entries) entries

unfoldable pub put : ℕ → Text → Text → AncestorSet → AncestorCache → AncestorCache
put now repo_path oid set entries =
    insert (cache_key repo_path oid) (record { set = set; expires = now + ancestor_cache_ttl })
      entries

unfoldable pub invalidate : Text → AncestorCache → AncestorCache
invalidate repo_path entries =
    if is_empty (trim repo_path)
    then []
    else retain (λ key. not (starts_with (trim repo_path ++ 0 ∷ []) key)) entries

-- What the trait `GitAnchorSource` gives (git itself, over a world `S`), and the clock.
pub record Anchors (S : Type 0) : Type 0 where
  pub resolve_ref : Text → Text → Action S (Result Text)
  pub is_shallow : Text → Action S (Result Bool)
  pub list_ancestors : Text → Text → Action S (Result (List Text))
  pub now : S → ℕ

-- the world and the cache that the service holds
abbrev pub State : Type 0 → Type 0
State S = S × AncestorCache

abbrev pub outside : {S A : Type 0} → Action S A → Action (State S) A
outside m (s, entries) = let (a, s') = m s in (a, (s', entries))

module _ {S : Type 0} (anchors : Anchors S) where
  unfoldable pub cached : Text → Text → Action (State S) (Option AncestorSet)
  cached repo_path oid (s, entries) =
      let (found, entries') = get (anchors.now s) repo_path oid entries in (found, (s, entries'))

  unfoldable pub store : Text → Text → AncestorSet → Action (State S) (Unit {0})
  store repo_path oid set (s, entries) = (tt, (s, put (anchors.now s) repo_path oid set entries))

  -- after a cache miss
  unfoldable pub build : Text → Text → Result (List Text) → Action (State S) (Result AncestorSet)
  build repo_path oid (err e) = pure (err (context (str "build ancestor set for " ++ oid) e))
  build repo_path oid (ok oids) = do
    let set : AncestorSet = record { ref_oid = oid; oids = oids }
    _ ← store repo_path oid set
    pure (ok set)

  unfoldable pub after_lookup :
      Text → Text → Option AncestorSet → Action (State S) (Result AncestorSet)
  after_lookup repo_path oid (some set) = pure (ok set)
  after_lookup repo_path oid none = do
    oids ← outside (anchors.list_ancestors repo_path oid)
    build repo_path oid oids

  -- an error of `is_shallow` counts as no
  unfoldable pub after_shallow : Text → Text → Result Bool → Action (State S) (Result AncestorSet)
  after_shallow repo_path oid (ok true) = pure (err (shallow_history repo_path))
  after_shallow repo_path oid _ = do found ← cached repo_path oid; after_lookup repo_path oid found

  unfoldable pub after_resolve : Text → Result Text → Action (State S) (Result AncestorSet)
  after_resolve repo_path (err e) = pure (err e)
  after_resolve repo_path (ok oid) = do
    shallow ← outside (anchors.is_shallow repo_path)
    after_shallow repo_path oid shallow

  unfoldable pub ancestor_set_for : Text → Text → Action (State S) (Result AncestorSet)
  ancestor_set_for repo_path reference =
      if is_empty (trim repo_path) || is_empty (trim reference)
      then pure (err (other (str "ancestor set requires a git anchor source, repo path, and ref")))
      else (do oid ← outside (anchors.resolve_ref repo_path reference); after_resolve repo_path oid)
