-- ===== src/FormSync/Rows/Values.antt =====
-- Where the values of a form stand in the row that is written.
use starion_sync.Base.{
  ℕ, zero, suc, ◌≤◌, ◌<◌, ◌≡◌, refl, ap, ◌∙◌, Bool, false, Option, none, some, List, [], ◌∷◌, ◌==◌,
  arith, Bool-cases, inl, inr, IsUnique, first,
}
use starion_sync.FormSync.{Json, Fields}
use starion_sync.FormSync.Columns.{Text}
use starion_sync.FormSync.Headers.{Headers, entry, same_text}
use starion_sync.FormSync.Headers.Distinct.{same_text_sound}
use starion_sync.FormSync.Rows.{last_col_index, nulls, set_at, put_value, fill_values}

abbrev pub get_elem? : {A : Type 0} → List A → ℕ → Option A
get_elem? [] n = none
get_elem? (x ∷ xs) zero = some x
get_elem? (x ∷ xs) (suc n) = get_elem? xs n

abbrev pub length : {A : Type 0} → List A → ℕ
length [] = 0
length (x ∷ xs) = suc (length xs)

pub length-nulls : (n : ℕ) → length (nulls n) ≡ n
unfolding nulls
length-nulls zero = refl
length-nulls (suc n) = ap suc (length-nulls n)

length-set_at : (n : ℕ) (v : Json) (vs : List Json) → length (set_at n v vs) ≡ length vs
unfolding set_at
length-set_at n v [] = refl
length-set_at zero v (x ∷ vs) = refl
length-set_at (suc n) v (x ∷ vs) = ap suc (length-set_at n v vs)

get_elem?-set_at :
    (n : ℕ) (v : Json) (vs : List Json) → n < length vs → get_elem? (set_at n v vs) n ≡ some v
unfolding set_at
get_elem?-set_at n v [] h = absurd (omega (arith, h))
get_elem?-set_at zero v (x ∷ vs) h = refl
get_elem?-set_at (suc n) v (x ∷ vs) h = get_elem?-set_at n v vs (omega (arith, h))

get_elem?-set_at_other :
    (n i : ℕ) (v : Json) (vs : List Json)
    → (n == i) ≡ false
    → get_elem? (set_at n v vs) i ≡ get_elem? vs i
unfolding set_at
get_elem?-set_at_other n i v [] h = refl
get_elem?-set_at_other zero zero v (x ∷ vs) h = cc
get_elem?-set_at_other zero (suc i) v (x ∷ vs) h = refl
get_elem?-set_at_other (suc n) zero v (x ∷ vs) h = refl
get_elem?-set_at_other (suc n) (suc i) v (x ∷ vs) h =
    get_elem?-set_at_other n i v vs (ground (arith, h))

last_col_index-none :
    (name : Text) (headers : Headers) → last_col_index headers ≡ none → entry name headers ≡ none
unfolding entry last_col_index
last_col_index-none name [] h = refl
last_col_index-none name ((k, n) ∷ headers) h = absurd (by_rest (last_col_index headers) refl)
  where
    by_rest : (o : Option ℕ) → last_col_index headers ≡ o → ⊥
    by_rest none e = ground (arith, e, h)
    by_rest (some a) e = ground (arith, e, h)

-- The index of a header is at most that of the last column.
pub entry-le_last :
    (name : Text) (headers : Headers) (i last : ℕ)
    → entry name headers ≡ some i
    → last_col_index headers ≡ some last
    → i ≤ last
unfolding entry last_col_index
entry-le_last name [] i last h l = cc
entry-le_last name ((k, n) ∷ headers) i last h l =
    by_rest (last_col_index headers) refl (λ a b. entry-le_last name headers i a b)
  where
    by_rest :
        (o : Option ℕ)
        → last_col_index headers ≡ o
        → ((a : ℕ) → entry name headers ≡ some i → last_col_index headers ≡ some a → i ≤ a)
        → i ≤ last
    by_rest none e rest = ground (arith, e, h, l, last_col_index-none name headers e)
    by_rest (some a) e rest =
        ground (arith, e, h, l, λ (p : entry name headers ≡ some i). rest a p e)

abbrev has_index : ℕ → Text × ℕ → Bool
has_index i e = e.1 == i

module _ (choose : Text → Option Json → Option Json) (fields : Fields) where
  put_value_keeps :
      (i n : ℕ) (o : Option Json) (acc : List Json × ℕ)
      → (n == i) ≡ false
      → (get_elem? (put_value n o acc).0 i ≡ get_elem? acc.0 i) × (acc.1 ≤ (put_value n o acc).1)
  put_value_keeps i n none acc h = (refl, omega arith)
  put_value_keeps i n (some v) (values, count) h =
      (get_elem?-set_at_other n i v values h, omega arith)

  -- What stands at an index that no header has any more stays.
  fill_values_keeps :
      (i : ℕ) (headers : Headers) (acc : List Json × ℕ)
      → first (has_index i) headers ≡ none
      → (get_elem? (fill_values choose fields headers acc).0 i ≡ get_elem? acc.0 i)
        × (acc.1 ≤ (fill_values choose fields headers acc).1)
  unfolding fill_values first
  fill_values_keeps i [] acc h = (refl, omega arith)
  fill_values_keeps i ((k, n) ∷ headers) acc h =
      let (a, b) = put_value_keeps i n (choose k (entry k fields)) acc (ground (arith, h)) in
      let (c, d) =
        fill_values_keeps i headers (put_value n (choose k (entry k fields)) acc)
          (ground (arith, h)) in
      (c ∙ a, omega (arith, b, d))

  length-put_value :
      (n : ℕ) (o : Option Json) (acc : List Json × ℕ) → length (put_value n o acc).0 ≡ length acc.0
  length-put_value n none acc = refl
  length-put_value n (some v) (values, count) = length-set_at n v values

  fill_values_here :
      (i : ℕ) (v : Json) (o : Option Json) (headers : Headers) (acc : List Json × ℕ)
      → first (has_index i) headers ≡ none
      → i < length acc.0
      → o ≡ some v
      → (get_elem? (fill_values choose fields headers (put_value i o acc)).0 i ≡ some v)
        × (1 ≤ (fill_values choose fields headers (put_value i o acc)).1)
  fill_values_here i v none headers acc fresh l c = cc
  fill_values_here i v (some w) headers acc fresh l c =
      let (still, more) = fill_values_keeps i headers (put_value i (some w) acc) fresh in
      (still ∙ (get_elem?-set_at i w acc.0 l ∙ c), omega (arith, more))

  -- The value of a header's field stands at the header's index, whatever stands elsewhere.
  pub fill_values_lem :
      (name : Text) (i : ℕ) (v : Json) (headers : Headers) (acc : List Json × ℕ)
      → IsUnique (λ e. e.1) headers
      → entry name headers ≡ some i
      → i < length acc.0
      → choose name (entry name fields) ≡ some v
      → (get_elem? (fill_values choose fields headers acc).0 i ≡ some v)
        × (1 ≤ (fill_values choose fields headers acc).1)
  unfolding entry fill_values
  fill_values_lem name i v [] acc u e l c = cc
  fill_values_lem name i v ((k, n) ∷ headers) acc (fresh, u) e l c =
      elim (Bool-cases (same_text k name)) [
        | inl same ↦
            let at : n ≡ i = ground (arith, e, same) in
            let its : k ≡ name = same_text_sound k name same in
            rw at (
              fill_values_here i v (choose k (entry k fields)) headers acc (rw (← at) fresh) l
                (rw its c))
        | inr other ↦
            fill_values_lem name i v headers (put_value n (choose k (entry k fields)) acc) u
              (ground (arith, e, other)) (rw (length-put_value n (choose k (entry k fields)) acc) l)
              c
      ]
