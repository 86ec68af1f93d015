-- ===== src/Driver.antt =====
-- What the services use of mongoose and MongoDB: collections of documents, queries by a
-- condition, updates, and transactions. None of this code is in the repository, so it is a
-- parameter; the laws state the documented behaviour, over the documents in natural order.
pub mod Memory
pub mod Laws
use starion_sync.Base.{
  ℕ, ◌≡◌, Bool, Option, none, List, [], ◌∷◌, ◌++◌, ◌==◌, Action, Outcome, ok, throw, Failure, first,
  select, modify_first, modify_all, remove_first,
}

pub record Driver : Type 1 where
  pub Coll : Type 0 → Type 0
  pub docs : {D : Type 0} → Coll D → List D
  pub find_one : {D : Type 0} → (D → Bool) → Coll D → Option D
  pub find : {D : Type 0} → (D → Bool) → Coll D → List D
  -- `document.save()` of a new document.
  pub save : {D : Type 0} → D → Coll D → Coll D
  pub update_one : {D : Type 0} → (D → Bool) → (D → D) → Coll D → Coll D
  pub update_many : {D : Type 0} → (D → Bool) → (D → D) → Coll D → Coll D
  pub delete_one : {D : Type 0} → (D → Bool) → Coll D → Coll D
  -- The `_id` that a new document is given.
  pub new_id : {D : Type 0} → (D → ℕ) → Coll D → ℕ
  -- `session.withTransaction(fn)`.
  pub with_transaction : {S A : Type 0} → Action S A → Action S A
  pub find_one-docs : {D : Type 0} (q : D → Bool) (c : Coll D) → find_one q c ≡ first q (docs c)
  pub find-docs : {D : Type 0} (q : D → Bool) (c : Coll D) → find q c ≡ select q (docs c)
  pub docs-save : {D : Type 0} (d : D) (c : Coll D) → docs (save d c) ≡ docs c ++ d ∷ []
  pub docs-update_one :
      {D : Type 0} (q : D → Bool) (f : D → D) (c : Coll D)
      → docs (update_one q f c) ≡ modify_first q f (docs c)
  pub docs-update_many :
      {D : Type 0} (q : D → Bool) (f : D → D) (c : Coll D)
      → docs (update_many q f c) ≡ modify_all q f (docs c)
  pub docs-delete_one :
      {D : Type 0} (q : D → Bool) (c : Coll D) → docs (delete_one q c) ≡ remove_first q (docs c)
  pub new_id_fresh :
      {D : Type 0} (key : D → ℕ) (c : Coll D) → first (λ d. key d == new_id key c) (docs c) ≡ none
  -- A callback that returns is committed, and one that throws is undone.
  pub transaction_commits :
      {S A : Type 0} (m : Action S A) (s t : S) (a : A)
      → m s ≡ (ok a, t)
      → with_transaction m s ≡ (ok a, t)
  pub transaction_aborts :
      {S A : Type 0} (m : Action S A) (s t : S) (e : Failure)
      → m s ≡ (throw e, t)
      → with_transaction m s ≡ (throw e, s)
