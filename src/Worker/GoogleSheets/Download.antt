-- ===== src/Worker/GoogleSheets/Download.antt =====
-- apps/worker/src/workflows/google-sheets/index.ts, `googleSheetsDownload`: when one download of a
-- spreadsheet serves several of its sheets.
use starion_sync.Base.{
  ℕ, ◌+◌, ◌≤◌, ◌<◌, ◌≡◌, refl, ap, ◌∙◌, true, Option, none, some, ◌∷◌, ok, catch, catch_ok, bind_ok,
  ◌>>◌, ◌>>=◌, arith,
}
use starion_sync.Driver.{Driver}
use starion_sync.Entities.{Syncflow, no_state_update}
use starion_sync.Repository.Syncflows
use starion_sync.Repository.Syncflows.{set_state, declared_state, update_live}
use starion_sync.Events.{SyncflowScheduledPayload, sheets_proceed_sync, World, emit_event}
use starion_sync.Worker.{Services, completed, is_within_one_minute_range}
use starion_sync.Worker.Activities.{
  SheetsDownloadData, get_download_data_google_sheets, update_syncflow_state,
}
use starion_sync.Worker.Errors.{workflow_wrapper_lem}
use starion_sync.Worker.GoogleSheets.{
  already_downloaded, reuse_download, fetch, handle_error, google_sheets_download,
}

-- What a run that reuses the provider's download writes.
unfoldable pub reuse : Option ℕ → Syncflow → Syncflow
unfolding set_state declared_state
reuse at = set_state (declared_state (record no_state_update { downloaded_at = at }))

-- A download at `at` serves a syncflow that ingested an earlier one, or none while `at` is within a
-- minute of now.
abbrev pub IsFresh : ℕ → ℕ → Option ℕ → Type 0
IsFresh now at none = (now ≤ at + 60000) × (at ≤ now + 60000)
IsFresh now at (some ingested_at) = ingested_at < at

module _ (m : Driver) (ext : Services) where
  abbrev pub reused : SyncflowScheduledPayload → Option ℕ → World m → World m
  reused p at w = record w { db = update_live m p.syncflow.id (reuse at) w.db }

  fetch_reuses :
      (p : SyncflowScheduledPayload) (d : SheetsDownloadData) (w : World m)
      → already_downloaded ext.now d.ingested_at d.provider_downloaded_at ≡ true
      → fetch m ext p d w ≡ (ok tt, reused p d.provider_downloaded_at w)
  unfolding fetch reuse_download update_syncflow_state Syncflows.update_state reuse
  fetch_reuses p d w h = simp h refl

  already_downloaded-IsFresh :
      (now at : ℕ) (ingested_at : Option ℕ)
      → IsFresh now at ingested_at
      → already_downloaded now ingested_at (some at) ≡ true
  unfolding already_downloaded is_within_one_minute_range
  already_downloaded-IsFresh now at none (h, g) = ground arith
  already_downloaded-IsFresh now at (some i) h = ground arith

  -- Where the provider was downloaded at `at` and that is fresh for the syncflow, the workflow completes without a
  -- download, whatever the processors would answer: it writes `at` as the syncflow's download and
  -- emits the event that starts the last part.
  pub google_sheets_download_reuses :
      (p : SyncflowScheduledPayload) (d : SheetsDownloadData) (at : ℕ) (w : World m)
      → get_download_data_google_sheets m ext p.syncflow w ≡ (ok d, w)
      → d.provider_downloaded_at ≡ some at
      → IsFresh ext.now at d.ingested_at
      → google_sheets_download m ext p w ≡ (
        ok completed,
        record (reused p (some at) w) { events = sheets_proceed_sync p ∷ w.events },
      )
  unfolding google_sheets_download
  google_sheets_download_reuses p d at w h g c =
      let v = reused p (some at) w in
      let end = record v { events = sheets_proceed_sync p ∷ w.events } in
      let rest =
        λ (x : SheetsDownloadData). fetch m ext p x >> emit_event (sheets_proceed_sync p) in
      let body = get_download_data_google_sheets m ext p.syncflow >>= rest in
      workflow_wrapper_lem (catch body (handle_error m ext p)) w end (ok tt) (
        catch_ok body (handle_error m ext p) w end tt (
          bind_ok (get_download_data_google_sheets m ext p.syncflow) rest w w d h
          ∙ bind_ok (fetch m ext p d) (λ _. emit_event (sheets_proceed_sync p)) w v tt
              (fetch_reuses p d w (
                  ap (already_downloaded ext.now d.ingested_at) g
                  ∙ already_downloaded-IsFresh ext.now at d.ingested_at c)
                ∙ ap (λ x. (ok tt, reused p x w)) g)))
