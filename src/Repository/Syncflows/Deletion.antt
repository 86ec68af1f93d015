-- ===== src/Repository/Syncflows/Deletion.antt =====
-- libs/modules/src/repository/mongodb/repositories/syncflow.repository.ts: a delete marks the document and
-- leaves it in the collection.
use starion_sync.Base.{
  ◌≡◌, refl, ap, inl, inr, none, some, ok, throw, plain, ◌==◌, trigger_not_found, Option-cases,
}
use starion_sync.Driver.{Driver}
use starion_sync.Driver.Laws.{IsKeyed, find_one-update_key, find_one-update_key_gone}
use starion_sync.Entities.{ObjectId, Syncflow}
use starion_sync.Repository.{Db, QueryOptions, no_options, deleted_too}
use starion_sync.Repository.Transactions.{run_process_commits, run_process_unchanged}
use starion_sync.Repository.Syncflows.{live, mark_deleted, get_by_id, delete, delete_found}

module _ (m : Driver) where
  -- What `delete` gives and leaves, by what it finds.
  pub delete_missing :
      (id : ObjectId) (o : QueryOptions) (db : Db m)
      → m.find_one (live id) db.syncflows ≡ none
      → delete m id o db ≡ (throw (plain trigger_not_found), db)
  unfolding delete delete_found
  delete_missing id o db h = run_process_unchanged m o (delete_found m id) db _ (rw h refl)

  pub delete_present :
      (id : ObjectId) (o : QueryOptions) (db : Db m) (d : Syncflow)
      → m.find_one (live id) db.syncflows ≡ some d
      → delete m id o db ≡ (
        ok tt,
        record db { syncflows = m.update_one (λ e. e.id == id) mark_deleted db.syncflows },
      )
  unfolding delete delete_found
  delete_present id o db d h = run_process_commits m o (delete_found m id) db _ tt (rw h refl)

  -- Where ids are unique, `delete` of a syncflow returns exactly when a syncflow of that id is not deleted
  -- yet, and throws otherwise. Afterwards no lookup sees it; one that includes deleted syncflows
  -- finds it marked, and after a throw finds what it found before.
  pub get_by_id-delete :
      (id : ObjectId) (o : QueryOptions) (db : Db m)
      → IsKeyed m (λ d. d.id) db.syncflows
      → ((delete m id o db).0 ≡ elim (m.find_one (live id) db.syncflows) [
        | none ↦ throw (plain trigger_not_found)
        | some d ↦ ok tt
      ])
        × ((get_by_id m id no_options (delete m id o db).1).0 ≡ ok none)
        × ((get_by_id m id deleted_too (delete m id o db).1).0
            ≡ elim (m.find_one (live id) db.syncflows) [
              | none ↦ (get_by_id m id deleted_too db).0
              | some d ↦ ok (some (mark_deleted d))
            ])
  unfolding get_by_id
  get_by_id-delete id o db u = elim (Option-cases (m.find_one (live id) db.syncflows)) [
    | inl h ↦ rw (delete_missing id o db h, h) (refl, refl, refl)
    | inr (d, h) ↦
        rw (delete_present id o db d h, h)
          (
            refl,
            ap ok (
                find_one-update_key_gone m (λ e. e.id) id _ mark_deleted db.syncflows u
                  (λ e. refl)),
            ap ok (
                find_one-update_key m (λ e. e.id) id _ _ mark_deleted db.syncflows d u (λ e. refl)
                  (λ e _. refl) h),
          )
  ]
