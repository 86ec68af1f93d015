-- ===== src/Repository/Transactions.antt =====
-- libs/modules/src/repository/mongodb: a repository's work inside the caller's transaction, or in
-- one of its own.
use starion_sync.Base.{◌≡◌, inl, inr, false, Action, ok, throw, Failure, Bool-cases}
use starion_sync.Driver.{Driver}
use starion_sync.Repository.{Db, QueryOptions, run_process}

module _ (m : Driver) {A : Type 0} where
  -- Work that returns is kept either way.
  pub run_process_commits :
      (o : QueryOptions) (f : Action (Db m) A) (db after : Db m) (a : A)
      → f db ≡ (ok a, after)
      → run_process m o f db ≡ (ok a, after)
  run_process_commits o f db after a h = elim (Bool-cases (o.session)) [
    | inl yes' ↦ rw yes' h
    | inr no' ↦ rw no' (m.transaction_commits f db after a h)
  ]

  -- Work that throws before it writes leaves no trace either way.
  pub run_process_unchanged :
      (o : QueryOptions) (f : Action (Db m) A) (db : Db m) (e : Failure)
      → f db ≡ (throw e, db)
      → run_process m o f db ≡ (throw e, db)
  run_process_unchanged o f db e h = elim (Bool-cases (o.session)) [
    | inl yes' ↦ rw yes' h
    | inr no' ↦ rw no' (m.transaction_aborts f db db e h)
  ]

  -- In a transaction of its own, work that throws is undone.
  pub run_process_aborts :
      (o : QueryOptions) (f : Action (Db m) A) (db after : Db m) (e : Failure)
      → o.session ≡ false
      → f db ≡ (throw e, after)
      → run_process m o f db ≡ (throw e, db)
  run_process_aborts o f db after e own h = rw own (m.transaction_aborts f db after e h)
