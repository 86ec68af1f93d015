-- ===== src/Worker/Excel/Runs.antt =====
-- apps/worker/src/workflows/microsoft-excel/index.ts: how a run of an Excel syncflow ends.
use starion_sync.Base.{
  ◌+◌, ◌≡◌, refl, ap, ◌∙◌, false, Option, some, ◌∷◌, ok, String, bind_ok, catch_ok, catch, pure,
  ◌>>=◌,
}
use starion_sync.Driver.{Driver}
use starion_sync.Entities.{
  ObjectId, Syncflow, DataSource, idling, running, is_running, no_state_update,
}
use starion_sync.Repository.{no_options}
use starion_sync.Repository.Syncflows
use starion_sync.Repository.Syncflows.{set_state, declared_state, live, update_live}
use starion_sync.Repository.Syncflows.State.{find_one-update_live, rewritten}
use starion_sync.Repository.DataSources
use starion_sync.Events.{SyncflowScheduledPayload, LoadStatistics, syncflow_succeed, World}
use starion_sync.Worker.{
  Services, replied, ExcelDownloadRequest, completed, activity_wrapper, text_or,
}
use starion_sync.Worker.Activities.{
  ExcelSyncData, check_and_update_status_before_start_syncflow, start_syncflow, get_sync_data_excel,
  download_excel, compare_data, load_data, update_syncflow_state, first_metadata,
}
use starion_sync.Worker.Errors.{
  load_data_lem, reported, wrapped_call, activity_wrapper_ok, workflow_wrapper_lem,
}
use starion_sync.Worker.Excel.{
  download_request, compare_request, load_request, finished, succeed_payload, finish,
  compare_and_load, transfer, run_sync, handle_error, excel_full_sync,
}

-- What `checkAndUpdateStatusBeforeStartSyncflow` writes.
unfoldable pub start : Syncflow → Syncflow
unfolding set_state
start = set_state (record no_state_update { status = some running })

-- What a run that succeeds writes at its end.
unfoldable pub stop : SyncflowScheduledPayload → Syncflow → Syncflow
unfolding set_state declared_state finished
stop p = set_state (declared_state (finished p))

module _ (m : Driver) (ext : Services) where
  abbrev pub with_syncflow : ObjectId → (Syncflow → Syncflow) → World m → World m
  with_syncflow id f w = record w { db = update_live m id f w.db }

  start_syncflow_lem :
      (id : ObjectId) (s : Syncflow) (w : World m)
      → m.find_one (live id) w.db.syncflows ≡ some s
      → is_running s.state.status ≡ false
      → (r : Option Syncflow) × (start_syncflow m ext id w ≡ (ok r, with_syncflow id start w))
  unfolding start_syncflow start Syncflows.get_by_id Syncflows.update_status
  start_syncflow_lem id s w h k = rw (h, k) (_, refl)

  check_lem :
      (id : ObjectId) (s : Syncflow) (w : World m)
      → m.find_one (live id) w.db.syncflows ≡ some s
      → is_running s.state.status ≡ false
      → check_and_update_status_before_start_syncflow m ext id w ≡ (ok tt, with_syncflow id start w)
  unfolding check_and_update_status_before_start_syncflow
  check_lem id s w h k =
      let (r, e) = start_syncflow_lem id s w h k in
      bind_ok (activity_wrapper (start_syncflow m ext id)) (λ _. pure tt) w
        (with_syncflow id start w) (some r)
        (activity_wrapper_ok (start_syncflow m ext id) w (with_syncflow id start w) r e)

  -- What the activities send on, of a data source that was found.
  abbrev pub excel_data : Syncflow → DataSource → ExcelSyncData
  excel_data s d = record {
    data_source_id = s.source_id;
    workbook_id = d.config.workbook_id;
    worksheet_id = d.config.worksheet_id;
    timezone = d.config.timezone;
    refresh_token = d.config.refresh_token;
    dest_table_name = text_or d.config.table_name (ext.id_table_name d.id);
    metadata = first_metadata s d;
  }

  get_sync_data_lem :
      (s : Syncflow) (d : DataSource) (w : World m)
      → m.find_one (DataSources.by_id s.source_id no_options) w.db.sources ≡ some d
      → get_sync_data_excel m ext s w ≡ (ok (excel_data s d), w)
  unfolding get_sync_data_excel DataSources.get_by_id
  get_sync_data_lem s d w h = rw h refl

  download_lem :
      (token access : String) (r : ExcelDownloadRequest) (w : World m)
      → ext.access_token token ≡ ok access
      → ext.download_excel r access ≡ replied tt
      → download_excel m ext token r w ≡ (ok tt, w)
  unfolding download_excel
  download_lem token access r w h g =
      wrapped_call m ext (ext.access_token token) access (ext.download_excel r) w h
      ∙ ap (λ x. (reported x, w)) g

  -- The processors' answers to what a run sends them, when all is well.
  abbrev pub Succeeds : SyncflowScheduledPayload → DataSource → LoadStatistics → Type 0
  Succeeds p d statistics =
      let e = excel_data p.syncflow d in
      ((access : String) × (ext.access_token e.refresh_token ≡ ok access)
        × (ext.download_excel (download_request p e) access ≡ replied tt))
      × (ext.compare_data (compare_request p e) ≡ replied tt)
      × (ext.load_data (load_request p e) ≡ replied statistics)

  abbrev pub succeeded : SyncflowScheduledPayload → LoadStatistics → World m → World m
  succeeded p statistics w = record {
    db = update_live m p.syncflow.id (stop p) w.db;
    events = syncflow_succeed (succeed_payload p statistics) ∷ w.events;
  }

  transfer_lem :
      (p : SyncflowScheduledPayload) (d : DataSource) (statistics : LoadStatistics) (w : World m)
      → Succeeds p d statistics
      → transfer m ext p (excel_data p.syncflow d) w ≡ (ok tt, succeeded p statistics w)
  unfolding transfer compare_and_load finish update_syncflow_state Syncflows.update_state stop
  transfer_lem p d statistics w ((access, ha, hd), hc, hl) =
      let e = excel_data p.syncflow d in
      let load = load_data m ext (load_request p e) in
      bind_ok (download_excel m ext e.refresh_token (download_request p e))
        (λ _. compare_and_load m ext p e) w w tt
        (download_lem e.refresh_token access (download_request p e) w ha hd)
      ∙ bind_ok (compare_data m ext (compare_request p e)) (λ _. load >>= finish m ext p e) w w tt
          ((load_data_lem m ext (load_request p e) (compare_request p e) w).1
            ∙ ap (λ x. (reported x, w)) hc)
      ∙ bind_ok load (finish m ext p e) w w statistics (
          (load_data_lem m ext (load_request p e) (compare_request p e) w).0
          ∙ ap (λ x. (reported x, w)) hl)

  run_sync_lem :
      (p : SyncflowScheduledPayload) (s : Syncflow) (d : DataSource) (statistics : LoadStatistics)
      (w : World m)
      → m.find_one (live p.syncflow.id) w.db.syncflows ≡ some s
      → is_running s.state.status ≡ false
      → m.find_one (DataSources.by_id p.syncflow.source_id no_options) w.db.sources ≡ some d
      → Succeeds p d statistics
      → run_sync m ext p w ≡ (ok tt, succeeded p statistics (with_syncflow p.syncflow.id start w))
  unfolding run_sync
  run_sync_lem p s d statistics w hs hr hd good =
      let v = with_syncflow p.syncflow.id start w in
      bind_ok (check_and_update_status_before_start_syncflow m ext p.syncflow.id)
        (λ _. get_sync_data_excel m ext p.syncflow >>= transfer m ext p) w v tt
        (check_lem p.syncflow.id s w hs hr)
      ∙ bind_ok (get_sync_data_excel m ext p.syncflow) (transfer m ext p) v v
          (excel_data p.syncflow d) (get_sync_data_lem p.syncflow d v hd)
      ∙ transfer_lem p d statistics v good

  -- A run of a syncflow that exists and is not running, whose data source exists and whose
  -- processors answer, completes. It emits one event, that the syncflow succeeded with the version
  -- that was scheduled and the loader's counts; and the syncflow is then found idling, at the next
  -- version, with the version that was scheduled as its previous one.
  pub excel_full_sync-Succeeds :
      (p : SyncflowScheduledPayload) (s : Syncflow) (d : DataSource) (statistics : LoadStatistics)
      (w : World m)
      → m.find_one (live p.syncflow.id) w.db.syncflows ≡ some s
      → is_running s.state.status ≡ false
      → m.find_one (DataSources.by_id p.syncflow.source_id no_options) w.db.sources ≡ some d
      → Succeeds p d statistics
      → let r = excel_full_sync m ext p w in
        (r.0 ≡ ok completed)
        × (r.1.events ≡ syncflow_succeed (succeed_payload p statistics) ∷ w.events)
        × (m.find_one (live p.syncflow.id) r.1.db.syncflows
            ≡ some (record s {
              state = record (s.state) {
                status = idling;
                version = p.version + 1;
                prev_version = p.version;
              };
            }))
  unfolding excel_full_sync start stop set_state declared_state finished
  excel_full_sync-Succeeds p s d statistics w hs hr hd good =
      let v = with_syncflow p.syncflow.id start w in
      rw
        (workflow_wrapper_lem (catch (run_sync m ext p) (handle_error m ext p)) w
          (succeeded p statistics v) (ok tt)
          (catch_ok (run_sync m ext p) (handle_error m ext p) w (succeeded p statistics v) tt
            (run_sync_lem p s d statistics w hs hr hd good)))
        (
          refl,
          refl,
          find_one-update_live m p.syncflow.id (stop p) v.db (λ x. refl)
              ∙ ap (rewritten (stop p)) (
                  find_one-update_live m p.syncflow.id start w.db (λ x. refl)
                  ∙ ap (rewritten start) hs),
        )
