-- ===== src/Repository/Reachable/Tests.antt =====
-- A sequence of calls on a concrete database.
use starion_sync.Base.{refl}
use starion_sync.Driver.Memory.{memory}
use starion_sync.Repository.{Db, no_options}
use starion_sync.Repository.Keyed.{HasIds}
use starion_sync.Repository.Syncflows
use starion_sync.Repository.DataSources
use starion_sync.Repository.Reachable.{
  here, next, syncflow_version_increased, source_removed, Reach-HasIds,
}
use starion_sync.Scenario.{db}

db-HasIds : HasIds memory db
unfolding starion_sync.Base.first
db-HasIds = ((refl, tt), (refl, tt), (refl, tt), (refl, tt), (refl, tt), tt, tt)

-- A syncflow gets its next version, and then its source is deleted.
abbrev reached : Db memory
reached =
    (DataSources.delete memory 1 no_options (Syncflows.increase_version memory 3 no_options db).1).1

Reach-HasIds_example : HasIds memory reached
Reach-HasIds_example =
    Reach-HasIds memory
      (next (next here (syncflow_version_increased 3 no_options)) (source_removed 1 no_options))
      db-HasIds
