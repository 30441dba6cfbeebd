-- ===== src/Migrate/Log.antt =====
-- Which statements a migration run sends (migrate.rs). An executor that keeps a log stands in front
-- of any other: a statement is logged, then sent.
use ibis_assistant.Prelude.{
  ◌<◌, ◌≡◌, refl, sym, ap, ◌∙◌, true, false, Option, List, [], ◌∷◌, ◌++◌, inl, inr, Bool-cases,
  arith,
}
use mathlib.Core.List.{append-nil, append_assoc}
use ibis_assistant.Effect.{Fallible, ok, err}
use ibis_assistant.Text.Number.{ℤ, pos, negsuc}
use ibis_assistant.Migrate.{
  gt, Migration, Statement, define_migration_table, select_current, run_sql, upsert_current,
  VersionRow, DbError, Executor, on_ok, failed_with, version_of, pending, send, current_version,
  record_version, apply, migrate_with,
}

module _ {S E : Type 0} (exec : Executor S E) where
  -- the log, and what the executor says to the statement
  abbrev pub logged : Executor (List Statement × S) E
  logged = record {
    execute = λ statement (log, s).
        let (r, s') = exec.execute statement s in (r, (log ++ statement ∷ [], s'));
  }

-- what applying migrations sends: each, then its version
abbrev pub statements : List Migration → List Statement
statements [] = []
statements (m ∷ ms) = run_sql m.sql ∷ upsert_current m.id ∷ statements ms

-- the version that is left when all are applied
abbrev pub last_id : ℤ → List Migration → ℤ
last_id last [] = last
last_id last (m ∷ ms) = last_id m.id ms

-- the order of the integers
abbrev pub IsBelow : ℤ → ℤ → Type 0
IsBelow (pos a) (pos b) = a < b
IsBelow (pos a) (negsuc b) = ⊥
IsBelow (negsuc a) (pos b) = Unit
IsBelow (negsuc a) (negsuc b) = b < a

-- those of a list whose version is above the current one, in the order of the list
pub data AreNewer (current : ℤ) : List Migration → List Migration → Type 0 where
  none_left : AreNewer current [] []
  newer :
      {m : Migration} {ms chosen : List Migration}
      → IsBelow current m.id
      → AreNewer current ms chosen
      → AreNewer current (m ∷ ms) (m ∷ chosen)
  applied :
      {m : Migration} {ms chosen : List Migration}
      → (IsBelow current m.id → ⊥)
      → AreNewer current ms chosen
      → AreNewer current (m ∷ ms) chosen

gt-IsBelow : (a b : ℤ) → gt a b ≡ true → IsBelow b a
gt-IsBelow (pos a) (pos b) h = ground arith
gt-IsBelow (pos a) (negsuc b) h = tt
gt-IsBelow (negsuc a) (pos b) h = cc
gt-IsBelow (negsuc a) (negsuc b) h = ground arith

gt-not_IsBelow : (a b : ℤ) → gt a b ≡ false → IsBelow b a → ⊥
gt-not_IsBelow (pos a) (pos b) h k = ground arith
gt-not_IsBelow (pos a) (negsuc b) h k = cc
gt-not_IsBelow (negsuc a) (pos b) h k = k
gt-not_IsBelow (negsuc a) (negsuc b) h k = ground arith

pending-AreNewer : (current : ℤ) (ms : List Migration) → AreNewer current ms (pending current ms)
unfolding pending
pending-AreNewer current [] = none_left
pending-AreNewer current (m ∷ ms) = elim (Bool-cases (gt m.id current)) [
  | inl e ↦ rw e (newer (gt-IsBelow m.id current e) (pending-AreNewer current ms))
  | inr e ↦ rw e (applied (gt-not_IsBelow m.id current e) (pending-AreNewer current ms))
]

on_ok-ok :
    {S E A B : Type 0} (f : A → S → Fallible (DbError E) B × S) (p : Fallible (DbError E) A × S)
    (b : B) (w : S)
    → on_ok f p ≡ (ok b, w)
    → (a : A) × (w1 : S) × (p ≡ (ok a, w1)) × (f a w1 ≡ (ok b, w))
on_ok-ok f (ok a, w1) b w h = (a, w1, refl, h)
on_ok-ok f (err e, w1) b w h = cc

ok-injective : {E A : Type 0} (a b : A) → ◌≡◌ {A = Fallible E A} (ok a) (ok b) → a ≡ b
ok-injective a b h = ground arith

failed_with-ok :
    {S E A : Type 0} (p : Fallible E A × S) (a : A) (w : S) → failed_with p ≡ (ok a, w) → p.0 ≡ ok a
failed_with-ok (ok b, s) a w h = ap ok (ok-injective b a (ap (λ q. q.0) h))
failed_with-ok (err e, s) a w h = cc

two_appends :
    (log : List Statement) (x y : Statement) (rest : List Statement)
    → ((log ++ x ∷ []) ++ y ∷ []) ++ rest ≡ log ++ (x ∷ y ∷ rest)
two_appends log x y rest =
    append_assoc (log ++ x ∷ []) (y ∷ []) rest ∙ append_assoc log (x ∷ []) (y ∷ rest)

failed_with-world : {S E A : Type 0} (p : Fallible E A × S) → (failed_with p).1 ≡ p.1
failed_with-world (ok a, s) = refl
failed_with-world (err e, s) = refl

module _ {S E : Type 0} (exec : Executor S E) where
  send-log :
      (st : Statement) (log : List Statement) (s : S)
      → (send (logged exec) st (log, s)).1.0 ≡ log ++ st ∷ []
  unfolding send
  send-log st log s = ap (λ w. w.0) (failed_with-world ((logged exec).execute st (log, s)))

  sent-log :
      (st : Statement) (log log1 : List Statement) (s s1 : S)
      (r : Fallible (DbError E) (Option (List VersionRow)))
      → send (logged exec) st (log, s) ≡ (r, (log1, s1))
      → log1 ≡ log ++ st ∷ []
  sent-log st log log1 s s1 r h = sym (ap (λ p. p.1.0) h) ∙ send-log st log s

  record-log :
      (v : ℤ) (log log1 : List Statement) (s s1 : S)
      → record_version (logged exec) v (log, s) ≡ (ok tt, (log1, s1))
      → log1 ≡ log ++ upsert_current v ∷ []
  unfolding record_version
  record-log v log log1 s s1 h =
      let (a, (log2, s2), e, k) =
        on_ok-ok (λ _ s'. (ok tt, s')) (send (logged exec) (upsert_current v) (log, s)) tt
          (log1, s1) h in
      sym (ap (λ p. p.1.0) k) ∙ sent-log (upsert_current v) log log2 s s2 (ok a) e

  apply-log :
      (ms : List Migration) (last v : ℤ) (log log' : List Statement) (s s' : S)
      → apply (logged exec) ms last (log, s) ≡ (ok v, (log', s'))
      → (log' ≡ log ++ statements ms) × (v ≡ last_id last ms)
  unfolding apply
  apply-log [] last v log log' s s' h =
      (sym (ap (λ p. p.1.0) h) ∙ sym (append-nil log), ok-injective v last (sym (ap (λ p. p.0) h)))
  apply-log (m ∷ ms) last v log log' s s' h =
      let (a, (log1, s1), e1, h1) =
        on_ok-ok _ (send (logged exec) (run_sql m.sql) (log, s)) v (log', s') h in
      let (u, (log2, s2), e2, h2) =
        on_ok-ok _ (record_version (logged exec) m.id (log1, s1)) v (log', s') h1 in
      let (p, q) = apply-log ms m.id v log2 log' s2 s' h2 in
      (
        p
            ∙ (rw
                (
                  record-log m.id log1 log2 s1 s2 e2,
                  sent-log (run_sql m.sql) log log1 s s1 (ok a) e1,
                )
                (two_appends log (run_sql m.sql) (upsert_current m.id) (statements ms))),
        q,
      )

  version-log :
      (log log1 : List Statement) (s s1 : S) (current : ℤ)
      → current_version (logged exec) (log, s) ≡ (ok current, (log1, s1))
      → (log1 ≡ log ++ select_current ∷ [])
        × (rows : Option (List VersionRow)) × ((exec.execute select_current s).0 ≡ ok rows)
        × (version_of {E = E} rows ≡ ok current)
  unfolding current_version
  version-log log log1 s s1 current h =
      let (rows, (log2, s2), e, k) =
        on_ok-ok (λ rows s'. (version_of rows, s')) (send (logged exec) select_current (log, s))
          current (log1, s1) h in
      (
        sym (ap (λ p. p.1.0) k) ∙ sent-log select_current log log2 s s2 (ok rows) e,
        rows,
        failed_with-ok ((logged exec).execute select_current (log, s)) rows (log2, s2)
            (unfold send in e),
        ap (λ p. p.0) k,
      )

  -- the world that a statement leaves
  sent-world :
      (st : Statement) (log log1 : List Statement) (s s1 : S)
      (r : Fallible (DbError E) (Option (List VersionRow)))
      → send (logged exec) st (log, s) ≡ (r, (log1, s1))
      → s1 ≡ (exec.execute st s).1
  unfolding send
  sent-world st log log1 s s1 r h =
      sym (ap (λ p. p.1.1) h)
      ∙ ap (λ w. w.1) (failed_with-world ((logged exec).execute st (log, s)))

  -- A migration run that succeeds has sent, in this order: the definition of the table, the query
  -- for the version, and each migration of the list that is newer than the version that the query
  -- reported, in the order of the list, with its version record right behind it; it has sent no
  -- other. It returns the version of the last of them, or else the reported one.
  pub migrate_with-log :
      (ms : List Migration) (v : ℤ) (log log' : List Statement) (s s' : S)
      → migrate_with (logged exec) ms (log, s) ≡ (ok v, (log', s'))
      → (current : ℤ) × (rows : Option (List VersionRow)) × (newer : List Migration)
        × ((exec.execute select_current (exec.execute define_migration_table s).1).0 ≡ ok rows)
        × (version_of {E = E} rows ≡ ok current)
        × AreNewer current ms newer
        × (log' ≡ log ++ (define_migration_table ∷ select_current ∷ statements newer))
        × (v ≡ last_id current newer)
  unfolding migrate_with
  migrate_with-log ms v log log' s s' h =
      let (a, (log1, s1), e1, h1) =
        on_ok-ok _ (send (logged exec) define_migration_table (log, s)) v (log', s') h in
      let (current, (log2, s2), e2, h2) =
        on_ok-ok _ (current_version (logged exec) (log1, s1)) v (log', s') h1 in
      let (p, rows, x, y) = version-log log1 log2 s1 s2 current e2 in
      let (q, r) = apply-log (pending current ms) current v log2 log' s2 s' h2 in
      (
        current,
        rows,
        pending current ms,
        ap (λ w. (exec.execute select_current w).0)
              (sym (sent-world define_migration_table log log1 s s1 (ok a) e1))
            ∙ x,
        y,
        pending-AreNewer current ms,
        q
            ∙ (ap (λ l. l ++ statements (pending current ms))
                  (p
                    ∙ ap (λ l. l ++ select_current ∷ [])
                        (sent-log define_migration_table log log1 s s1 (ok a) e1))
                ∙ two_appends log define_migration_table select_current
                    (statements (pending current ms))),
        r,
      )
