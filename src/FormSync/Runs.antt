-- ===== src/FormSync/Runs.antt =====
-- How the run of a form sync ends, for Excel and for Google Sheets.
use starion_sync.Base.{
  ◌≡◌, ◌⊎◌, Option, none, some, Action, Outcome, ok, throw, Failure, true, ◌>>◌, ◌==◌, is_some,
  catch, plain, can_not_be_done, still_running, metadata_does_not_exist, metadata_does_not_match,
}
use starion_sync.Base.Effects.Keeps.{Keeps}
use starion_sync.Driver.{Driver}
use starion_sync.FormSync.{Store, Graph, Google, FormSync, ExcelDataSource}
use starion_sync.FormSync.Excel.{perform}
use starion_sync.FormSync.Excel.Frame.{perform-Keeps}
use starion_sync.FormSync.Excel.Service.{delete_form_sync, when_ended}
use starion_sync.FormSync.Excel.Service as ExcelService
use starion_sync.FormSync.GoogleSheets.{perform as google_perform}
use starion_sync.FormSync.GoogleSheets.Frame.{perform-Keeps as google_perform-Keeps}
use starion_sync.FormSync.GoogleSheets.Service as GoogleSheetsService

module _ (m : Driver) (g : Graph) (f : FormSync) (s : Store m) where
  abbrev Result : Type 0
  Result = Outcome (Unit {0}) × Store m

  -- The form sync is there no more.
  abbrev pub IsDone : Result → Type 0
  IsDone r = (r.0 ≡ ok tt) × (m.find_one (λ d. d.id == f.id) r.1.form_syncs ≡ none)

  -- It is kept, with the others, and is among the delayed ones.
  abbrev pub IsDelayed : Result → Type 0
  IsDelayed r =
      (r.0 ≡ ok tt)
      × (r.1.form_syncs ≡ s.form_syncs)
      × (is_some (m.find_one (λ d. d.form_sync_id == f.id) r.1.delayed) ≡ true)

  -- The form syncs and the delayed ones are as they were.
  abbrev pub Kept : Store m → Type 0
  Kept t = (t.form_syncs ≡ s.form_syncs) × (t.delayed ≡ s.delayed)

  -- How a run ends, by how its operation ended. Of one that is still running nothing is said but
  -- that nothing is lost so far.
  abbrev pub Ends : Outcome (Unit {0}) → Result → Type 0
  Ends (ok a) r = IsDone r
  Ends (throw (plain can_not_be_done)) r = IsDone r
  Ends (throw (plain metadata_does_not_exist)) r = IsDelayed r
  Ends (throw (plain metadata_does_not_match)) r = IsDelayed r
  Ends (throw (plain still_running)) r = Kept r.1
  Ends (throw e) r = (r.0 ≡ throw e) × Kept r.1

  -- The same of a run that respects the metadata.
  abbrev pub EndsForGood : Outcome (Unit {0}) → Result → Type 0
  EndsForGood (ok a) r = IsDone r
  EndsForGood (throw (plain can_not_be_done)) r = IsDone r
  EndsForGood (throw (plain metadata_does_not_exist)) r = IsDone r
  EndsForGood (throw (plain metadata_does_not_match)) r = IsDone r
  EndsForGood (throw (plain still_running)) r = Kept r.1
  EndsForGood (throw e) r = (r.0 ≡ throw e) × Kept r.1

  -- A run throws before its operation and changes nothing, or it ends by how the operation on the
  -- stored data source did.
  abbrev pub RunsBy :
      {D : Type 0}
      → Option D
      → (D → Outcome (Unit {0}))
      → (Outcome (Unit {0}) → Result → Type 0)
      → Result
      → Type 0
  RunsBy {D} source operation P r =
      ((e : Failure) × (r ≡ (throw e, s))) ⊎ ((d : D) × (source ≡ some d) × P (operation d) r)

  -- What holds of the ways in which a run ends holds of the run.
  module _ (failed : Failure → Action (Store m) (Unit {0}))
      (P : Outcome (Unit {0}) → Result → Type 0)
      (returned : (t : Store m) → Kept t → P (ok tt) (delete_form_sync m g f.id t))
      (handled : (e : Failure) (t : Store m) → Kept t → P (throw e) (when_ended failed e t)) where
    abbrev excel_work : ExcelDataSource → Action (Store m) (Unit {0})
    excel_work d =
        perform m g f.type f (record { workbook_id = d.workbook_id; worksheet_id = d.worksheet_id })

    abbrev attempt : ExcelDataSource → Action (Store m) (Unit {0})
    attempt d = catch (excel_work d >> delete_form_sync m g f.id) (when_ended failed)

    abbrev ByExcel : Option ExcelDataSource → Result → Type 0
    ByExcel source = RunsBy source (λ d. (excel_work d s).0) P

  -- The source of a form sync, and how its operation ends in it.
  abbrev pub ByExcelRun : (Outcome (Unit {0}) → Result → Type 0) → Result → Type 0
  ByExcelRun = RunsBy (m.find_one (λ d. d.id == f.data_source_id) s.excel_sources) (λ d.
      (perform m g f.type f (record { workbook_id = d.workbook_id; worksheet_id = d.worksheet_id })
        s).0)

  abbrev pub ByGoogleRun : Google → (Outcome (Unit {0}) → Result → Type 0) → Result → Type 0
  ByGoogleRun a =
      RunsBy (m.find_one (λ d. d.id == f.data_source_id) s.google_sources)
        (λ d. (google_perform m g a f.type f d s).0)
