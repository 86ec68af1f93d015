-- ===== src/Repository/Syncflows/State.antt =====
-- libs/modules/src/repository/mongodb/repositories/syncflow.repository.ts: what the updates of a
-- syncflow's state write, and what they leave alone.
use starion_sync.Base.{
  ◌+◌, ◌≡◌, refl, ap, ◌≢◌, inl, inr, overwrite, overwrite_opt, Bool, true, false, ◌&&◌, Option,
  none, some, ok, ◌==◌, if◌then◌else◌, arith, Bool-cases,
}
use starion_sync.Driver.{Driver}
use starion_sync.Driver.Laws.{find_one-update_one, find_one-update_one_other}
use starion_sync.Entities.{ObjectId, Syncflow, SyncflowStateUpdate, WorkflowStatus, no_state_update}
use starion_sync.Repository.{Db, QueryOptions, no_options}
use starion_sync.Repository.Syncflows.{
  declared_state, set_state, by_id, live, get_by_id, update_live, update_state, update_status,
  increase_version, return_new,
}

-- What a lookup finds, rewritten.
abbrev pub rewritten : (Syncflow → Syncflow) → Option Syncflow → Option Syncflow
rewritten f none = none
rewritten f (some d) = some (f d)

-- The rewriting that `increaseVersion` does.
abbrev pub next_version : Syncflow → Syncflow
next_version d = record d { state = record (d.state) { version = d.state.version + 1 } }

-- A syncflow with the keys written that an update gives, of those that the schema of a stored
-- state has: the status, the versions, and the times of download and ingestion.
abbrev pub written : SyncflowStateUpdate → Syncflow → Syncflow
written u d = record d {
  state = record {
    status = overwrite u.status d.state.status;
    version = overwrite u.version d.state.version;
    prev_version = overwrite u.prev_version d.state.prev_version;
    cursor = d.state.cursor;
    downloaded_at = overwrite_opt u.downloaded_at d.state.downloaded_at;
    ingested_at = overwrite_opt u.ingested_at d.state.ingested_at;
  };
}

other_live :
    (k id : ObjectId) (b c : Bool) (d : Syncflow)
    → k ≢ id
    → ((d.id == id) && b) ≡ true
    → ((d.id == k) && c) ≡ false
other_live k id b c d ne h = ground arith

module _ (m : Driver) where
  pub find_one-update_live :
      (id : ObjectId) (f : Syncflow → Syncflow) (db : Db m)
      → ((d : Syncflow) → live id (f d) ≡ live id d)
      → m.find_one (live id) (update_live m id f db).syncflows
        ≡ rewritten f (m.find_one (live id) db.syncflows)
  find_one-update_live id f db keep = find_one-update_one m (live id) f db.syncflows keep

  pub find_one-update_live_other :
      (k id : ObjectId) (o : QueryOptions) (f : Syncflow → Syncflow) (db : Db m)
      → k ≢ id
      → ((d : Syncflow) → (f d).id ≡ d.id)
      → m.find_one (by_id k o) (update_live m id f db).syncflows
        ≡ m.find_one (by_id k o) db.syncflows
  find_one-update_live_other k id o f db ne keep =
      find_one-update_one_other m (by_id k o) (live id) f db.syncflows
        (λ d h. other_live k id _ _ d ne h) (λ d h. rw keep (other_live k id _ _ d ne h))

  update_live_lem :
      (id : ObjectId) (f : Syncflow → Syncflow) (o : QueryOptions) (db : Db m)
      → ((d : Syncflow) → live id (f d) ≡ live id d)
      → let after = rewritten f (m.find_one (live id) db.syncflows) in
        ((return_new m id o (update_live m id f db)).0 ≡ ok (if o.new then after else none))
        × ((get_by_id m id no_options (return_new m id o (update_live m id f db)).1).0 ≡ ok after)
  unfolding get_by_id
  update_live_lem id f o db keep = elim (Bool-cases (o.new)) [
    | inl yes' ↦
        rw yes'
          (ap ok (find_one-update_live id f db keep), ap ok (find_one-update_live id f db keep))
    | inr no' ↦ rw no' (refl, ap ok (find_one-update_live id f db keep))
  ]

  update_live_other :
      (k id : ObjectId) (f : Syncflow → Syncflow) (o p : QueryOptions) (db : Db m)
      → k ≢ id
      → ((d : Syncflow) → (f d).id ≡ d.id)
      → (get_by_id m k p (return_new m id o (update_live m id f db)).1).0 ≡ (get_by_id m k p db).0
  unfolding get_by_id
  update_live_other k id f o p db ne keep = elim (Bool-cases (o.new)) [
    | inl yes' ↦ rw yes' (ap ok (find_one-update_live_other k id p f db ne keep))
    | inr no' ↦ rw no' (ap ok (find_one-update_live_other k id p f db ne keep))
  ]

  -- `updateState` never throws. A later `getById` finds what it found before with the given keys
  -- written, those that the stored schema has, and the cursor as it was; that is also its result under `new`, and without
  -- `new` the result is undefined.
  pub get_by_id-update_state :
      (id : ObjectId) (u : SyncflowStateUpdate) (o : QueryOptions) (db : Db m)
      → let after = rewritten (written u) (m.find_one (live id) db.syncflows) in
        ((update_state m id u o db).0 ≡ ok (if o.new then after else none))
        × ((get_by_id m id no_options (update_state m id u o db).1).0 ≡ ok after)
  unfolding update_state set_state declared_state
  get_by_id-update_state id u o db = update_live_lem id (written u) o db (λ d. refl)

  -- `updateStatus` writes the status and `increaseVersion` adds one to the version: a later
  -- `getById` finds what it found before with that rewritten, and nothing if it found nothing.
  pub get_by_id-update_status :
      (id : ObjectId) (status : WorkflowStatus) (o : QueryOptions) (db : Db m)
      → ((get_by_id m id no_options (update_status m id status o db).1).0
          ≡ ok (
              rewritten
                (set_state (record no_state_update { status = some status }))
                (m.find_one (live id) db.syncflows)))
        × ((get_by_id m id no_options (increase_version m id o db).1).0
            ≡ ok (rewritten next_version (m.find_one (live id) db.syncflows)))
  unfolding update_status increase_version set_state
  get_by_id-update_status id status o db = (
    (update_live_lem id (set_state (record no_state_update { status = some status })) o db
        (λ d. refl)).1,
    (update_live_lem id next_version o db (λ d. refl)).1,
  )

  -- None of the three updates of a syncflow's state changes what a lookup of another id gives,
  -- whatever the options of either, deleted syncflows included.
  pub get_by_id-update_other :
      (k id : ObjectId) (u : SyncflowStateUpdate) (status : WorkflowStatus) (o p : QueryOptions)
      (db : Db m)
      → k ≢ id
      → ((get_by_id m k p (update_state m id u o db).1).0 ≡ (get_by_id m k p db).0)
        × ((get_by_id m k p (update_status m id status o db).1).0 ≡ (get_by_id m k p db).0)
        × ((get_by_id m k p (increase_version m id o db).1).0 ≡ (get_by_id m k p db).0)
  unfolding update_state update_status increase_version set_state
  get_by_id-update_other k id u status o p db ne = (
    update_live_other k id _ o p db ne (λ d. refl),
    update_live_other k id _ o p db ne (λ d. refl),
    update_live_other k id _ o p db ne (λ d. refl),
  )
