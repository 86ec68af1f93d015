-- ===== src/Driver/Memory.antt =====
-- A driver that keeps its collections in memory: the laws can be met, and the model can be run.
use Prim.Native.Nat.{max}
use starion_sync.Base.{
  ℕ, suc, ◌<◌, ◌≡◌, refl, ap, none, List, [], ◌∷◌, ◌++◌, ◌==◌, Action, Outcome, ok, throw, Failure,
  first, select, modify_first, modify_all, remove_first, arith,
}
use starion_sync.Driver.{Driver}

abbrev pub highest : {D : Type 0} → (D → ℕ) → List D → ℕ
highest key [] = 0
highest key (d ∷ ds) = max (key d) (highest key ds)

above_highest :
    {D : Type 0} (key : D → ℕ) (ds : List D) (k : ℕ)
    → highest key ds < k
    → first (λ d. key d == k) ds ≡ none
unfolding first
above_highest key [] k h = refl
above_highest key (d ∷ ds) k h = ground (arith, above_highest key ds k)

pub highest_fresh :
    {D : Type 0} (key : D → ℕ) (ds : List D) → first (λ d. key d == suc (highest key ds)) ds ≡ none
highest_fresh key ds = above_highest key ds (suc (highest key ds)) (omega arith)

-- What a transaction that began at `s` leaves.
abbrev pub settle : {S A : Type 0} → S → Outcome A × S → Outcome A × S
settle s (ok a, t) = (ok a, t)
settle s (throw e, t) = (throw e, s)

abbrev pub transact : {S A : Type 0} → Action S A → Action S A
transact m s = settle s (m s)

pub transact_commits :
    {S A : Type 0} (m : Action S A) (s t : S) (a : A) → m s ≡ (ok a, t) → transact m s ≡ (ok a, t)
transact_commits m s t a h = ap (settle s) h

pub transact_aborts :
    {S A : Type 0} (m : Action S A) (s t : S) (e : Failure)
    → m s ≡ (throw e, t)
    → transact m s ≡ (throw e, s)
transact_aborts m s t e h = ap (settle s) h

abbrev pub memory : Driver
memory = record {
  Coll = List;
  docs = λ ds. ds;
  find_one = first;
  find = select;
  save = λ d ds. ds ++ d ∷ [];
  update_one = modify_first;
  update_many = modify_all;
  delete_one = remove_first;
  new_id = λ key ds. suc (highest key ds);
  with_transaction = transact;
  find_one-docs = λ q c. refl;
  find-docs = λ q c. refl;
  docs-save = λ d c. refl;
  docs-update_one = λ q f c. refl;
  docs-update_many = λ q f c. refl;
  docs-delete_one = λ q c. refl;
  new_id_fresh = λ key c. highest_fresh key c;
  transaction_commits = λ m s t a h. transact_commits m s t a h;
  transaction_aborts = λ m s t e h. transact_aborts m s t e h;
}
