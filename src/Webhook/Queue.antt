-- ===== src/Webhook/Queue.antt =====
-- apps/webhook/src/modules/webhook/webhook.service.ts: the jobs that are added to the queue, and a
-- queue as a list, which is as Bull says.
use mathlib.Core.List.{Perm, perm_middle, append-nil, append_assoc}
use mathlib.Core.List.Perm
use starion_sync.Base.{
  ℕ, ◌≡◌, refl, ap, sym, ◌∙◌, inl, inr, Bool, true, false, not, ◌&&◌, ◌||◌, none, List, [], ◌∷◌,
  ◌++◌, map, first, select, IsUnique, ◌==◌, if◌then◌else◌, Bool-cases, arith,
}
use starion_sync.Entities.{Webhook}
use starion_sync.Webhook.{Job, job_of, WebhookPayload, is_queued, Bull}

-- A queue that is a list.
unfoldable pub enqueue : List Job → List Job → List Job
enqueue q [] = q
enqueue q (j ∷ js) = enqueue (if is_queued q j.job_id then q else q ++ j ∷ []) js

module _ {A : Type 0} where
  select-append : (p : A → Bool) (xs ys : List A) → select p (xs ++ ys) ≡ select p xs ++ select p ys
  unfolding select
  select-append p [] ys = refl
  select-append p (x ∷ xs) ys = ground (arith, select-append p xs ys)

  select-select :
      (n p : A → Bool) (xs : List A) → select n (select p xs) ≡ select (λ x. p x && n x) xs
  unfolding select
  select-select n p [] = refl
  select-select n p (x ∷ xs) = ground (arith, select-select n p xs)

  pub select-chosen :
      (n p q : A → Bool) (xs : List A)
      → select n (select p xs ++ select q xs)
        ≡ select (λ x. p x && n x) xs ++ select (λ x. q x && n x) xs
  select-chosen n p q xs =
      select-append n (select p xs) (select q xs)
      ∙ rw (select-select n p xs, select-select n q xs) refl

  first-append-none :
      (r : A → Bool) (xs ys : List A)
      → first r xs ≡ none
      → first r ys ≡ none
      → first r (xs ++ ys) ≡ none
  unfolding first
  first-append-none r [] ys h k = k
  first-append-none r (x ∷ xs) ys h k = ground (arith, h, k, first-append-none r xs ys)

  first-select-none :
      (r p : A → Bool) (xs : List A) → first r xs ≡ none → first r (select p xs) ≡ none
  unfolding first select
  first-select-none r p [] h = refl
  first-select-none r p (x ∷ xs) h = ground (arith, h, first-select-none r p xs)

  first-insert-none :
      (r : A → Bool) (x : A) (xs ys : List A)
      → first r (xs ++ ys) ≡ none
      → r x ≡ false
      → first r (xs ++ x ∷ ys) ≡ none
  unfolding first
  first-insert-none r x [] ys h k = rw k h
  first-insert-none r x (y ∷ xs) ys h k = ground (arith, h, k, first-insert-none r x xs ys)

  module _ (key : A → ℕ) where
    insert-IsUnique :
        (x : A) (xs ys : List A)
        → first (λ e. key e == key x) (xs ++ ys) ≡ none
        → IsUnique key (xs ++ ys)
        → IsUnique key (xs ++ x ∷ ys)
    unfolding first
    insert-IsUnique x [] ys fresh u = (fresh, u)
    insert-IsUnique x (y ∷ xs) ys fresh (new, u) = (
      first-insert-none (λ e. key e == key y) x xs ys new (ground (arith, fresh)),
      insert-IsUnique x xs ys (ground (arith, fresh)) u,
    )

    -- Two selections that share nothing have unique keys together.
    pub chosen-IsUnique :
        (p q : A → Bool) (xs : List A)
        → ((x : A) → p x && q x ≡ false)
        → IsUnique key xs
        → IsUnique key (select p xs ++ select q xs)
    unfolding select
    chosen-IsUnique p q [] apart u = tt
    chosen-IsUnique p q (x ∷ xs) apart (fresh, u) =
        add (p x) (q x) (apart x) (chosen-IsUnique p q xs apart u) (
          first-append-none (λ e. key e == key x) (select p xs) (select q xs)
            (first-select-none _ p xs fresh) (first-select-none _ q xs fresh))
      where
        add :
            (b c : Bool)
            → b && c ≡ false
            → IsUnique key (select p xs ++ select q xs)
            → first (λ e. key e == key x) (select p xs ++ select q xs) ≡ none
            → IsUnique key (
                (if b then x ∷ select p xs else select p xs)
                ++ (if c then x ∷ select q xs else select q xs))
        add true true d v new = cc
        add true false d v new = (new, v)
        add false true d v new = insert-IsUnique x (select p xs) (select q xs) new v
        add false false d v new = v

merge_perm :
    {A : Type 0} (x : A) (b c : Bool) (ps qs rs : List A)
    → b && c ≡ false
    → Perm (ps ++ qs) rs
    → Perm
        ((if b then x ∷ ps else ps) ++ (if c then x ∷ qs else qs))
        (if b || c then x ∷ rs else rs)
merge_perm x true true ps qs rs d h = cc
merge_perm x true false ps qs rs d h = Perm.cons x h
merge_perm x false true ps qs rs d h = Perm.trans (perm_middle ps qs) (Perm.cons x h)
merge_perm x false false ps qs rs d h = h

-- The items of two disjoint selections are those of their union.
pub select_perm :
    {A : Type 0} (p q r : A → Bool) (xs : List A)
    → ((x : A) → r x ≡ p x || q x)
    → ((x : A) → p x && q x ≡ false)
    → Perm (select p xs ++ select q xs) (select r xs)
unfolding select
select_perm p q r [] e d = Perm.refl []
select_perm p q r (x ∷ xs) e d = rw (e x) (
    merge_perm x (p x) (q x) (select p xs) (select q xs) (select r xs) (d x)
      (select_perm p q r xs e d))

-- The jobs of webhooks, without those whose ids are in a queue.
pub select-map :
    (q : List Job) (payload : WebhookPayload) (assure : Bool) (ws : List Webhook)
    → select (λ j. not (is_queued q j.job_id)) (map (job_of payload assure) ws)
      ≡ map (job_of payload assure) (select (λ w. not (is_queued q w.id)) ws)
unfolding select
select-map q payload assure [] = refl
select-map q payload assure (w ∷ ws) = elim (Bool-cases (is_queued q w.id)) [
  | inl there ↦ rw there (select-map q payload assure ws)
  | inr new ↦ rw new (ap (λ js. job_of payload assure w ∷ js) (select-map q payload assure ws))
]

first-map-none :
    (k : ℕ) (payload : WebhookPayload) (assure : Bool) (ws : List Webhook)
    → first (λ w. w.id == k) ws ≡ none
    → first (λ j. j.job_id == k) (map (job_of payload assure) ws) ≡ none
unfolding first
first-map-none k payload assure [] h = refl
first-map-none k payload assure (w ∷ ws) h = ground (arith, h, first-map-none k payload assure ws)

pub map-IsUnique :
    (payload : WebhookPayload) (assure : Bool) (ws : List Webhook)
    → IsUnique (λ w. w.id) ws
    → IsUnique (λ j. j.job_id) (map (job_of payload assure) ws)
map-IsUnique payload assure [] u = tt
map-IsUnique payload assure (w ∷ ws) (fresh, u) =
    (first-map-none w.id payload assure ws fresh, map-IsUnique payload assure ws u)

is_queued-append :
    (q : List Job) (j : Job) (id : ℕ)
    → is_queued (q ++ j ∷ []) id ≡ is_queued q id || (j.job_id == id)
unfolding is_queued
is_queued-append [] j id = ground arith
is_queued-append (i ∷ q) j id = ground (arith, is_queued-append q j id)

abbrev new_to : List Job → Job → Bool
new_to q j = not (is_queued q j.job_id)

-- A job of another id is as new to a queue with one job more.
select-new_to :
    (q : List Job) (j : Job) (js : List Job)
    → first (λ i. i.job_id == j.job_id) js ≡ none
    → select (new_to (q ++ j ∷ [])) js ≡ select (new_to q) js
unfolding select first
select-new_to q j [] fresh = refl
select-new_to q j (i ∷ js) fresh =
    ground (arith, fresh, is_queued-append q j i.job_id, select-new_to q j js)

-- Jobs of unique ids are added in order, but for those whose id is in the queue.
pub enqueue_lem :
    (q js : List Job)
    → IsUnique (λ j. j.job_id) js
    → enqueue q js ≡ q ++ select (λ j. not (is_queued q j.job_id)) js
unfolding enqueue select
enqueue_lem q [] u = sym (append-nil q)
enqueue_lem q (j ∷ js) (fresh, u) = elim (Bool-cases (is_queued q j.job_id)) [
  | inl there ↦ rw there (enqueue_lem q js u)
  | inr new ↦ rw new (
      enqueue_lem (q ++ j ∷ []) js u
      ∙ ap (λ is. (q ++ j ∷ []) ++ is) (select-new_to q j js fresh)
      ∙ append_assoc q (j ∷ []) (select (new_to q) js))
]

abbrev pub list_queue : Bull
list_queue = record { add_bulk = enqueue; add_bulk_new = enqueue_lem }
