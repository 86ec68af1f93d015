-- ===== src/FormSync/Excel/Service.antt =====
-- form-sync/main/src/modules/formsync/excel/index.ts: `run`, `runRespectMetadata` and
-- `updateMetadata` of `ExcelFormSyncService`.
use text.Mathlib.Text.{◌==◌ as str_eq}
use starion_sync.Base.{
  Bool, true, false, true, false, Option, none, some, String, Action, Failure, plain, api,
  metadata_does_not_exist, metadata_does_not_match, can_not_be_done, still_running,
  data_source_not_found, pure, raise, gets, modify, or_raise, catch, ◌>>=◌, ◌>>◌, ◌==◌,
  if◌then◌else◌, is_some,
}
use starion_sync.Driver.{Driver}
use starion_sync.Entities.{ObjectId}
use starion_sync.FormSync.{Store, Graph, FormSync, ExcelDataSource, Sheet, no_data_exists}
use starion_sync.FormSync.Metadata.{get_excel_c_tag, update_excel_c_tag}
use starion_sync.FormSync.Excel.{perform, from_outcome}

-- `error instanceof CanNotBeDoneError`, and `error instanceof MetadataError`, which is true of both
-- of its kinds.
abbrev pub is_can_not_be_done : Failure → Bool
is_can_not_be_done (plain can_not_be_done) = true
is_can_not_be_done _ = false

abbrev pub is_metadata_error : Failure → Bool
is_metadata_error (plain metadata_does_not_exist) = true
is_metadata_error (plain metadata_does_not_match) = true
is_metadata_error _ = false

-- The mark of a call whose loop is still running. It is not an error: no handler gets it, and
-- nothing after the call is done.
abbrev pub is_still_running : Failure → Bool
is_still_running (plain still_running) = true
is_still_running _ = false

abbrev pub when_ended : {S A : Type 0} → (Failure → Action S A) → Failure → Action S A
when_ended handler e = if is_still_running e then raise e else handler e

module _ (m : Driver) (g : Graph) where
  -- `formsyncRepository.delete(id)`; a delayed form sync goes with the one that it refers to.
  unfoldable pub delete_form_sync : ObjectId → Action (Store m) (Unit {0})
  delete_form_sync id = modify (λ s. record s {
    form_syncs = m.delete_one (λ d. d.id == id) s.form_syncs;
    delayed = m.delete_one (λ d. d.form_sync_id == id) s.delayed;
  })

  -- `delayedFormsyncRepository.save(...)`: a row that is there already is kept.
  unfoldable pub save_delayed : ObjectId → Action (Store m) (Unit {0})
  save_delayed id = modify (λ s.
      if is_some (m.find_one (λ d. d.form_sync_id == id) s.delayed)
      then s
      else record s { delayed = m.save (record { form_sync_id = id }) s.delayed })

  unfoldable pub run_failed : FormSync → Failure → Action (Store m) (Unit {0})
  run_failed f e =
      if is_can_not_be_done e
      then delete_form_sync f.id
      else (if is_metadata_error e then save_delayed f.id else raise e)

  unfoldable pub respectful_failed : FormSync → Failure → Action (Store m) (Unit {0})
  respectful_failed f e =
      if is_can_not_be_done e
      then delete_form_sync f.id
      else (if is_metadata_error e then delete_form_sync f.id else raise e)

  -- The token and the session, and then the `try`.
  unfoldable pub run_on :
      (Failure → Action (Store m) (Unit {0}))
      → FormSync
      → ExcelDataSource
      → Action (Store m) (Unit {0})
  run_on failed f source = do
    token ← from_outcome (g.access_token source.refresh_token)
    from_outcome (g.session source.workbook_id token)
    catch
        (perform m g f.type f
            (record { workbook_id = source.workbook_id; worksheet_id = source.worksheet_id })
          >> delete_form_sync f.id)
        (when_ended failed)

  -- `run`.
  unfoldable pub run : FormSync → Action (Store m) (Unit {0})
  run f = do
    found ← gets (λ s. m.find_one (λ d. d.id == f.data_source_id) s.excel_sources)
    source ← or_raise found (api no_data_exists data_source_not_found)
    run_on (run_failed f) f source

  -- `runRespectMetadata`.
  unfoldable pub run_respect_metadata : FormSync → Action (Store m) (Unit {0})
  run_respect_metadata f = do
    found ← gets (λ s. m.find_one (λ d. d.id == f.data_source_id) s.excel_sources)
    source ← or_raise found (plain can_not_be_done)
    run_on (respectful_failed f) f source

  abbrev same_tag : Option String → Option String → Bool
  same_tag none none = true
  same_tag (some a) (some b) = str_eq a b
  same_tag _ _ = false

  -- The part of `updateMetadata` after the tags are known. An error of the rebuilding is logged.
  unfoldable pub rebuild_metadata : ObjectId → Sheet → Option String → Action (Store m) (Unit {0})
  rebuild_metadata id sheet tag =
      catch (from_outcome (g.rebuild id sheet)) (λ e. pure tt)
      >> modify (λ s. record s {
        excel_sources =
            m.update_one (λ d. d.id == id) (λ d. record d { metadata_synced_at = some (g.now) })
              s.excel_sources;
      })
      >> update_excel_c_tag m id tag

  unfoldable pub update_metadata_known :
      ObjectId → Sheet → Option String → Option String → Action (Store m) (Unit {0})
  update_metadata_known id sheet tag known =
      if same_tag tag known then pure tt else rebuild_metadata id sheet tag

  unfoldable pub update_metadata_of :
      ObjectId → Option ExcelDataSource → Action (Store m) (Unit {0})
  update_metadata_of id none = pure tt
  update_metadata_of id (some source) = do
    token ← from_outcome (g.access_token source.refresh_token)
    tag ← from_outcome (g.file_c_tag source.workbook_id)
    known ← get_excel_c_tag m id
    update_metadata_known id
        (record { workbook_id = source.workbook_id; worksheet_id = source.worksheet_id }) tag known

  -- `updateMetadata`.
  unfoldable pub update_metadata : ObjectId → Action (Store m) (Unit {0})
  update_metadata id =
      gets (λ s. m.find_one (λ d. d.id == id) s.excel_sources) >>= update_metadata_of id
