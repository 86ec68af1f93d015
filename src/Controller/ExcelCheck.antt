-- ===== src/Controller/ExcelCheck.antt =====
-- apps/controller/src/modules/controller/microsoft-excel: the check that a workbook has
-- changed since the last run.
use starion_sync.Base.{
  false, Option, Outcome, ok, throw, unacceptable, data_source_not_changed, if◌then◌else◌, String,
}
use starion_sync.Driver.{Driver}
use starion_sync.Repository.Syncflows
use starion_sync.Controller.{same_text, workflow_fail, external_error}

-- How the check ends, by what Microsoft answers and the cursor of the syncflow.
abbrev pub check_result :
    Outcome String → Outcome (Option String) → Option String → Outcome (Unit {0})
check_result (throw e) ctag cursor = throw e
check_result (ok token) (throw e) cursor = throw (external_error e)
check_result (ok token) (ok ctag) cursor =
    if same_text ctag cursor
    then throw (unacceptable data_source_not_changed (workflow_fail false))
    else ok tt
