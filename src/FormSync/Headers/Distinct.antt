-- ===== src/FormSync/Headers/Distinct.antt =====
-- What `getWorksheetHashedHeaders` and `getHashedHeaders` return for headers without a repetition.
use text.Mathlib.Text.{◌==◌ as str_eq}
use text.Mathlib.TextEquality.{eq_iff}
use starion_sync.Base.{
  ℕ, suc, ◌≡◌, refl, ap, ◌∙◌, Bool, true, false, Option, none, some, List, [], ◌∷◌, String, arith,
  if◌then◌else◌, Bool-cases, inl, inr, ==→eq, ==_refl, sym,
}
use starion_sync.FormSync.Columns.{Text}
use starion_sync.FormSync.Headers.{
  has, entry, set_entry, same_text, Repeated, is_read, State, add_header, visit, each_header,
  hashed_headers, Headers,
}

pub same_text_sound : (a b : Text) → same_text a b ≡ true → a ≡ b
same_text_sound [] [] h = refl
same_text_sound [] (y ∷ ys) h = cc
same_text_sound (x ∷ xs) [] h = cc
same_text_sound (x ∷ xs) (y ∷ ys) h = ground (arith, ==→eq x y, same_text_sound xs ys)

pub same_text_refl : (a : Text) → same_text a a ≡ true
same_text_refl [] = refl
same_text_refl (x ∷ xs) = ground (arith, ==_refl x, same_text_refl xs)

module _ {V : Type 0} where
  pub entry-set_entry :
      (k : Text) (v : V) (es : List (Text × V)) → entry k (set_entry k v es) ≡ some v
  unfolding entry set_entry
  entry-set_entry k v [] = rw (same_text_refl k) refl
  entry-set_entry k v ((j, w) ∷ es) = ground (arith, entry-set_entry k v es)

  pub entry-set_entry_other :
      (k i : Text) (v : V) (es : List (Text × V))
      → same_text i k ≡ false
      → entry k (set_entry i v es) ≡ entry k es
  unfolding entry set_entry
  entry-set_entry_other k i v [] h = rw h refl
  entry-set_entry_other k i v ((j, w) ∷ es) h =
      ground (arith, same_text_sound j i, entry-set_entry_other k i v es h)

-- No header stands twice.
abbrev pub IsDistinct : List String → Type 0
IsDistinct [] = Unit
IsDistinct (h ∷ hs) = (has h hs ≡ false) × IsDistinct hs

-- The index of a header, of a sheet whose first column has the index given.
abbrev pub position : ℕ → String → List String → Option ℕ
position index name [] = none
position index name (h ∷ hs) = if str_eq h name then some index else position (suc index) name hs

-- Of the headers, only a name itself has its hash.
abbrev pub Separates : (String → Text) → String → List String → Type 0
Separates hash name [] = Unit
Separates hash name (h ∷ hs) =
    (same_text (hash h) (hash name) ≡ str_eq h name) × Separates hash name hs

-- None of the headers is in the set of names.
abbrev AreNew : List String → List String → Type 0
AreNew [] names = Unit
AreNew (h ∷ hs) names = (has h names ≡ false) × AreNew hs names

AreNew-nil : (hs : List String) → AreNew hs []
unfolding has
AreNew-nil [] = tt
AreNew-nil (h ∷ hs) = (refl, AreNew-nil hs)

str_eq_comm : (h g : String) → str_eq g h ≡ false → str_eq h g ≡ false
str_eq_comm h g e = elim (Bool-cases (str_eq h g)) [
  | inl yes' ↦ ground (arith, (eq_iff g h).1 (sym ((eq_iff h g).0 yes')))
  | inr no' ↦ no'
]

AreNew-cons :
    (h : String) (hs names : List String)
    → has h hs ≡ false
    → AreNew hs names
    → AreNew hs (h ∷ names)
unfolding has
AreNew-cons h [] names d n = tt
AreNew-cons h (g ∷ hs) names d n = ground (arith, str_eq_comm h g, AreNew-cons h hs names)

module _ (hash : String → Text) (repeated : Repeated) (fuel : ℕ) (name : String)
    (r : is_read true name ≡ true) where
  -- What a name's column is after headers of a row, if it was `before`.
  abbrev column_after : ℕ → List String → Option ℕ → Option ℕ
  column_after index hs before = elim (position index name hs) [ none ↦ before | some i ↦ some i ]

  -- A header that is new is added, or passed over where it is blank.
  visit_new :
      (h : String) (hs : List String) (index : ℕ) (headers : Headers) (names : List String)
      → has h hs ≡ false
      → has h names ≡ false
      → AreNew hs names
      → same_text (hash h) (hash name) ≡ str_eq h name
      → (next : State hash repeated fuel) × (visit hash repeated fuel true h index (headers, names)
          ≡ some next)
        × AreNew hs next.1
        × (entry (hash name) next.0
            ≡ (if str_eq h name then some index else entry (hash name) headers))
  unfolding add_header
  visit_new h hs index headers names fresh new' n sep = elim (Bool-cases (str_eq h "")) [
    | inl blank ↦ ((headers, names), rw blank refl, n, ground (arith, (eq_iff h name).0, blank, r))
    | inr text ↦ (
      (set_entry (hash h) index headers, h ∷ names),
      rw (text, new') refl,
      AreNew-cons h hs names fresh n,
      added (str_eq h name) sep (eq_iff h name).0,
    )
  ]
    where
      added :
          (b : Bool)
          → same_text (hash h) (hash name) ≡ b
          → (b ≡ true → h ≡ name)
          → entry (hash name) (set_entry (hash h) index headers)
            ≡ (if b then some index else entry (hash name) headers)
      added true e same = rw (same refl) (entry-set_entry (hash name) index headers)
      added false e same = entry-set_entry_other (hash name) (hash h) index headers e

  position-none :
      (index : ℕ) (hs : List String) → has name hs ≡ false → position index name hs ≡ none
  unfolding has
  position-none index [] h = refl
  position-none index (x ∷ hs) h = ground (arith, position-none (suc index) hs)

  column_after-cons :
      (h : String) (hs : List String) (index : ℕ) (before now : Option ℕ)
      → has h hs ≡ false
      → now ≡ (if str_eq h name then some index else before)
      → column_after (suc index) hs now ≡ column_after index (h ∷ hs) before
  column_after-cons h hs index before now fresh e =
      ground (arith, (eq_iff h name).0, position-none (suc index) hs)

  each_header_step :
      (h : String) (hs : List String) (index : ℕ) (st next : State hash repeated fuel)
      → visit hash repeated fuel true h index st ≡ some next
      → each_header hash repeated fuel true (h ∷ hs) index st
        ≡ each_header hash repeated fuel true hs (suc index) next
  unfolding each_header
  each_header_step h hs index st next e =
      ap
        (λ o. elim o as (λ _. Option (State hash repeated fuel)) [
          | none ↦ none
          | some next ↦ each_header hash repeated fuel true hs (suc index) next
        ])
        e

  abbrev Reads : ℕ → List String → State hash repeated fuel → Type 0
  Reads index hs st =
      (next : State hash repeated fuel) × (each_header hash repeated fuel true hs index st
        ≡ some next)
      × (entry (hash name) next.0 ≡ column_after index hs (entry (hash name) st.0))

  each_header-Reads :
      (hs : List String) (index : ℕ) (headers : Headers) (names : List String)
      → IsDistinct hs
      → AreNew hs names
      → Separates hash name hs
      → Reads index hs (headers, names)
  unfolding each_header
  each_header-Reads [] index headers names d n s = ((headers, names), refl, refl)
  each_header-Reads (h ∷ hs) index headers names (fresh, d) (new', n) (sep, s) =
      let (next, visited, still, column) = visit_new h hs index headers names fresh new' n sep in
      let (last, rest, after) = each_header-Reads hs (suc index) next.0 next.1 d still s in
      (
        last,
        each_header_step h hs index (headers, names) next visited ∙ rest,
        after
            ∙ column_after-cons h hs index (entry (hash name) headers) (entry (hash name) next.0)
                fresh column,
      )

-- Where no header stands twice in the first row, and only `name` has the hash of `name`, the
-- reading of the headers ends, with the loop over postfixes never entered. The field of a header
-- that is read then has its index in the row, and a name that is no header has no field.
pub hashed_headers_lem :
    (hash : String → Text) (repeated : Repeated) (fuel : ℕ) (name : String) (hs : List String)
    → is_read true name ≡ true
    → IsDistinct hs
    → Separates hash name hs
    → (headers : Headers) × (hashed_headers hash repeated fuel true hs ≡ some headers)
      × (entry (hash name) headers ≡ position 0 name hs)
unfolding hashed_headers entry
hashed_headers_lem hash repeated fuel name hs r d s =
    let (next, ends, column) =
      each_header-Reads hash repeated fuel name r hs 0 [] [] d (AreNew-nil hs) s in
    (
      next.0,
      ap (λ o. elim o as (λ _. Option Headers) [ none ↦ none | some st ↦ some (st.0) ]) ends,
      ground (arith, column),
    )
