-- ===== src/Repository/SyncConnections/Rejection.antt =====
-- libs/modules/src/repository/mongodb/repositories/syncConnection.repository.ts, `delete`: the
-- entries of a connection, one of which is rejected, and those after it, which run on.
use starion_sync.Base.{
  ◌≡◌, refl, ap, sym, ◌∙◌, inl, inr, true, false, List, Outcome, [], ◌∷◌, ◌++◌, ok, throw, plain,
  property_of_undefined, for_each, for_each_ok, for_each_throw, catch_ok, catch_throw, modify, pure,
  ◌==◌, arith,
}
use starion_sync.Base.Effects.Keeps.{Keeps, keeps_rules, Keeps-modify, Keeps-for_each}
use starion_sync.Driver.{Driver}
use starion_sync.Driver.Laws.{is_some-find_one-update_one}
use starion_sync.Entities.{Syncflow, Trigger, SyncflowRef, SyncConnection}
use starion_sync.Repository.{Db}
use starion_sync.Repository.Syncflows
use starion_sync.Repository.Triggers
use starion_sync.Repository.SyncConnections.{delete_syncflow, after_missing, run_on}
use starion_sync.Repository.SyncConnections.Entries.{
  has_documents, all_have_documents, marked, delete_syncflow_lem, all_have_documents-marked,
  and-right,
}

module _ (m : Driver) where
  has_documents-marked :
      (x s : SyncflowRef) (t : Trigger) (db : Db m)
      → has_documents m (marked m s t db) x ≡ has_documents m db x
  has_documents-marked x s t db =
      simp
        (
          is_some-find_one-update_one m (λ d. d.id == x.id) (λ d. d.id == s.id)
              Syncflows.mark_deleted db.syncflows (λ d. refl),
          is_some-find_one-update_one m (λ d. d.workflow.id == x.id) (λ d. d.id == t.id)
              Triggers.mark_deleted db.triggers (λ d. refl),
        )
        refl

  after_step :
      (s : SyncflowRef) (ss : List SyncflowRef) (db : Db m) (r : Outcome (Unit {0}) × Db m)
      → delete_syncflow m s db ≡ r
      → after_missing m (s ∷ ss) db
        ≡ elim (r.0) as (λ _. List SyncflowRef) [ ok a ↦ after_missing m ss r.1 | throw e ↦ ss ]
  unfolding after_missing
  after_step s ss db r h =
      ap
        (λ (r : Outcome (Unit {0}) × Db m). elim (r.0) as (λ _. List SyncflowRef) [
          | ok a ↦ after_missing m ss r.1
          | throw e ↦ ss
        ])
        h

  -- The entry `x` is the first whose documents are missing: its call throws, and those of `after`
  -- are left.
  pub after_missing_lem :
      (before after : List SyncflowRef) (x : SyncflowRef) (db : Db m)
      → all_have_documents m db before ≡ true
      → has_documents m db x ≡ false
      → ((for_each (before ++ x ∷ after) (delete_syncflow m) db).0
          ≡ throw (plain property_of_undefined))
        × (after_missing m (before ++ x ∷ after) db ≡ after)
  unfolding for_each
  after_missing_lem [] after x db all missing = elim (delete_syncflow_lem m x db) [
    | inl (no', (t, h)) ↦
        (rw (for_each_throw x after (delete_syncflow m) db t _ h) refl, after_step x after db _ h)
    | inr (yes', (t, g, h)) ↦ ground (arith, yes', missing)
  ]
  after_missing_lem (s ∷ before) after x db all missing = elim (delete_syncflow_lem m s db) [
    | inl (no', (t, h)) ↦ ground (arith, no', all)
    | inr (yes', (t, g, h)) ↦
        let (thrown, left) =
          after_missing_lem before after x (marked m s t db)
            (all_have_documents-marked m before s t db ∙ and-right m _ _ all)
            (has_documents-marked x s t db ∙ missing) in
        (
          rw (for_each_ok s (before ++ x ∷ after) (delete_syncflow m) db _ h) thrown,
          after_step s (before ++ x ∷ after) db _ h ∙ left,
        )
  ]

  run_on_lem : (s : SyncflowRef) (db : Db m) → run_on m s db ≡ (ok tt, (delete_syncflow m s db).1)
  unfolding run_on
  run_on_lem s db = elim (delete_syncflow_lem m s db) [
    | inl (no', (t, h)) ↦
        catch_throw (delete_syncflow m s) (λ e. pure tt) db t _ h ∙ ap (λ r. (ok tt, r.1)) (sym h)
    | inr (yes', (t, g, h)) ↦
        catch_ok (delete_syncflow m s) (λ e. pure tt) db _ tt h ∙ ap (λ r. (ok tt, r.1)) (sym h)
  ]

  pub for_each-run_on :
      (ss : List SyncflowRef) (db : Db m)
      → for_each ss (run_on m) db ≡ (ok tt, (for_each ss (run_on m) db).1)
  unfolding for_each
  for_each-run_on [] db = refl
  for_each-run_on (s ∷ ss) db =
      let step = for_each_ok s ss (run_on m) db _ (run_on_lem s db) in
      rw step (for_each-run_on ss (delete_syncflow m s db).1)

  abbrev Same : m.Coll SyncConnection → Db m → Type 0
  Same cs db = db.connections ≡ cs

  syncflows_kept :
      (cs : m.Coll SyncConnection) (f : Db m → m.Coll Syncflow)
      → Keeps (Same cs) (modify (λ db. record db { syncflows = f db }))
  syncflows_kept cs f = Keeps-modify _ (λ db h. h)

  triggers_kept :
      (cs : m.Coll SyncConnection) (f : Db m → m.Coll Trigger)
      → Keeps (Same cs) (modify (λ db. record db { triggers = f db }))
  triggers_kept cs f = Keeps-modify _ (λ db h. h)

  delete_syncflow-Same :
      (cs : m.Coll SyncConnection) (s : SyncflowRef) → Keeps (Same cs) (delete_syncflow m s)
  unfolding delete_syncflow
  delete_syncflow-Same cs s = search (keeps_rules, syncflows_kept, triggers_kept) depth 12

  run_on-Same : (cs : m.Coll SyncConnection) (s : SyncflowRef) → Keeps (Same cs) (run_on m s)
  unfolding run_on
  run_on-Same cs s = search (keeps_rules, delete_syncflow-Same)

  pub connections-run_on :
      (ss : List SyncflowRef) (db : Db m)
      → (for_each ss (run_on m) db).1.connections ≡ db.connections
  connections-run_on ss db = (Keeps-for_each ss (run_on m) (run_on-Same db.connections)).at db refl
