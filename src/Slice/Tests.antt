-- ===== src/Slice/Tests.antt =====
-- A repository with one commit and one claim file, and the theorems on its claims.
use ibis_assistant.Prelude.{[], ℕ, ◌≡◌, refl, true, false, none, some, length, List, ◌∷◌}
use ibis_assistant.Effect.{ok}
use ibis_assistant.Text.{Text, str}
use ibis_assistant.Text.Run.{text_runs}
use ibis_assistant.Text.Number.{pos}
use ibis_assistant.Claims.Render.{Chrono}
use ibis_assistant.Git.{AncestorSet}
use ibis_assistant.Git.AsOf.{ClaimRow, AsOfClaim, select_claims}
use ibis_assistant.Records.{
  is_safe_record_id, format_record_id, is_numeric_id, table_matches, key_matches, key_body,
  key_rest,
}
use ibis_assistant.Slice.{Service}
use ibis_assistant.Slice.Tree.{
  TreeClaim, merge_claims, is_claim_path, add_unseen, tree_claim_as_of, shown_claim,
  claim_row_by_id, tree_claim_record_id, is_withheld,
}
use ibis_assistant.Slice.Diff.{since_divergence, parse_mode, diff_rows}
use ibis_assistant.Slice.Diff.Delta.{without_held, diff_rows-eq-select_claims}

abbrev chrono : Chrono Text
chrono = record { to_rfc3339 = λ t. t; parse_from_rfc3339 = some; now = str "2026" }

abbrev decode : Text → Text
decode bytes = bytes

abbrev c1 : AncestorSet
c1 = record { ref_oid = str "c1"; oids = str "c1" ∷ [] }

abbrev c2 : AncestorSet
c2 = record { ref_oid = str "c2"; oids = str "c2" ∷ str "c1" ∷ [] }

abbrev row : Text → Text → ClaimRow
row owner introduced = record {
  id = str "memory:1";
  kind = str "decision";
  title = str "t";
  status = str "current";
  visibility = str "personal";
  owner = owner;
  introduced_in_oid = introduced;
  invalidated_at_oid = [];
}

abbrev two_rows : List ClaimRow
two_rows = row (str "ann") (str "c1") ∷ row (str "bob") (str "c2") ∷ []

abbrev service : Service ℕ Text
service = record {
  anchors = record {
    resolve_ref = λ r reference s. (ok (str "c1"), s);
    is_shallow = λ r s. (ok false, s);
    list_ancestors = λ r o s. (ok (str "c1" ∷ []), s);
    now = λ s. s;
  };
  trees = record {
    list_tree = λ r reference s. (ok (str ".ibis/claims/a.md" ∷ []), s);
    file_at_ref = λ r reference path s. (ok (some []), s);
    file_history = λ r path s. (ok (str "c1" ∷ []), s);
    diff_paths = λ r a b s. (ok (str "src/a.rs" ∷ []), s);
    merge_base = λ r a b s. (ok (str "c1"), s);
  };
  db = some (record {
    git_bound_rows = λ repo limit s. (ok two_rows, s);
    memory_row = λ id s.
        (some (record { owner = str "bob"; status = str "current"; visibility = str "team" }), s);
  });
}

abbrev tree_claim : TreeClaim Text
tree_claim = record {
  path = str ".ibis/claims/a.md";
  claim = record {
    schema = pos 1;
    id = str "a";
    kind = str "rule";
    title = str "A";
    visibility = str "team";
    related_paths = [];
    supersedes = [];
    created = none;
    redacted = [];
    body = [];
  };
}

claim_path : is_claim_path (str ".ibis/claims/a.md") ≡ true
unfolding is_claim_path text_runs
claim_path = refl

other_path : is_claim_path (str ".ibis/claims/a.txt") ≡ false
unfolding is_claim_path text_runs
other_path = refl

modes_read : parse_mode (str " since_divergence") ≡ some since_divergence
unfolding parse_mode text_runs
modes_read = refl

abbrev merged_files : List AsOfClaim
merged_files =
    (merge_claims service chrono decode (str "/r") (str "ann") (tree_claim ∷ tree_claim ∷ []) []
      5).0

-- there is a database, without rows
abbrev without_rows : Service ℕ Text
without_rows = record service {
  db =
      some (record { git_bound_rows = λ repo limit s. (ok [], s); memory_row = λ id s. (none, s) });
}

abbrev personal_file : TreeClaim Text
personal_file = record tree_claim {
  claim = record (tree_claim.claim) { visibility = str "personal" };
}

-- a personal file that nobody owns is shown to the actor without a name, and to no other
unowned_file_shown :
    (length (merge_claims without_rows chrono decode (str "/r") [] (personal_file ∷ []) [] 5).0 ≡ 1)
    × (length
          (merge_claims without_rows chrono decode
            (str "/r")
            (str "ann")
            (personal_file ∷ [])
            []
            5).0
        ≡ 0)
unfolding merge_claims add_unseen tree_claim_as_of shown_claim claim_row_by_id tree_claim_record_id
    is_withheld text_runs is_safe_record_id format_record_id is_numeric_id table_matches key_matches
    key_body key_rest
unowned_file_shown = (refl, refl)

abbrev lower : Text → Text
lower s = s

diff_rows-eq-select_claims_example : diff_rows c1 c2 (str "bob") two_rows ≡ (
  without_held c1 (select_claims c2 (str "bob") two_rows),
  without_held c2 (select_claims c1 (str "bob") two_rows),
)
unfolding text_runs
diff_rows-eq-select_claims_example = diff_rows-eq-select_claims c1 c2 (str "bob") two_rows
