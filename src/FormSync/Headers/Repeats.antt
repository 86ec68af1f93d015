-- ===== src/FormSync/Headers/Repeats.antt =====
-- Where `getWorksheetHashedHeaders` and `getHashedHeaders` do not end.
use text.Mathlib.TextEquality.{eq_iff}
use text.Mathlib.Text.{◌==◌ as str_eq}
use starion_sync.Base.{
  ℕ, zero, suc, ◌≡◌, refl, Bool, true, Option, none, some, List, [], ◌∷◌, String, arith, Bool-cases,
  inl, inr, subst, sym, ap, if◌then◌else◌, ◌+◌, ◌≤◌, ◌<◌,
}
use starion_sync.FormSync.Columns.{Text}
use starion_sync.FormSync.Headers.{
  has, Repeated, postfixed_header, postfix_loop, is_read, State, add_header, visit, each_header,
  hashed_headers, Headers,
}

postfix_loop_stuck :
    (fuel postfix : ℕ) (name : String) (names : List String)
    → has name names ≡ true
    → postfix_loop fuel postfix name names ≡ none
unfolding postfix_loop
postfix_loop_stuck zero postfix name names h = refl
postfix_loop_stuck (suc fuel) postfix name names h =
    rw h (postfix_loop_stuck fuel (suc postfix) name names h)

has-cons : (name : String) (names : List String) → has name (name ∷ names) ≡ true
unfolding has
has-cons name names = rw ((eq_iff name name).1 refl) refl

-- How often a header occurs.
abbrev pub times : String → List String → ℕ
times name [] = 0
times name (h ∷ hs) = (if str_eq h name then 1 else 0) + times name hs

module _ (hash : String → Text) (repeated : Repeated) (fuel : ℕ) (include_header : Bool)
    (name : String) where
  -- How many more of a header the set of names takes before the loop is stuck.
  abbrev room : List String → ℕ
  room names = if has name names then (if has (postfixed_header name) names then 0 else 1) else 2

  abbrev Fits : List String → ℕ → Option (State hash repeated fuel) → Type 0
  Fits names k none = Unit
  Fits names k (some st) = room st.1 + k ≤ room names

  room_grows : (n : String) (names : List String) → room (n ∷ names) ≤ room names
  unfolding has
  room_grows n names = ground arith

  visit_other :
      (h : String) (index : ℕ) (st : State hash repeated fuel)
      → Fits st.1 0 (visit hash repeated fuel include_header h index st)
  unfolding add_header
  visit_other h index (headers, names) =
      ground (arith, room_grows h names, room_grows (postfixed_header h) names)

  visit_same :
      (index : ℕ) (st : State hash repeated fuel)
      → is_read include_header name ≡ true
      → Fits st.1
          (if str_eq name name then 1 else 0)
          (visit hash repeated fuel include_header name index st)
  unfolding has add_header
  visit_same index (headers, names) r = ground (
    arith,
    (eq_iff name name).1 refl,
    (eq_iff (postfixed_header name) (postfixed_header name)).1 refl,
    postfix_loop_stuck fuel 1 (postfixed_header name) names,
  )

  visit-Fits :
      (h : String) (index : ℕ) (st : State hash repeated fuel)
      → is_read include_header name ≡ true
      → Fits st.1
          (if str_eq h name then 1 else 0)
          (visit hash repeated fuel include_header h index st)
  visit-Fits h index st r = elim (Bool-cases (str_eq h name)) [
    | inl same ↦
        subst
          (λ k.
            Fits st.1 (if str_eq k name then 1 else 0)
              (visit hash repeated fuel include_header k index st))
          (sym ((eq_iff h name).0 same)) (visit_same index st r)
    | inr other ↦ rw other (visit_other h index st)
  ]

  each_header_stuck :
      (hs : List String) (index : ℕ) (st : State hash repeated fuel)
      → is_read include_header name ≡ true
      → room st.1 < times name hs
      → each_header hash repeated fuel include_header hs index st ≡ none
  unfolding each_header
  each_header_stuck [] index st r h = absurd (omega (arith, h))
  each_header_stuck (x ∷ hs) index st r h =
      by_visit (visit hash repeated fuel include_header x index st) (visit-Fits x index st r)
        (λ next l. each_header_stuck hs (suc index) next r l)
    where
      by_visit :
          (o : Option (State hash repeated fuel))
          → Fits st.1 (if str_eq x name then 1 else 0) o
          → ((next : State hash repeated fuel)
              → room next.1 < times name hs
              → each_header hash repeated fuel include_header hs (suc index) next ≡ none)
          → elim o as (λ _. Option (State hash repeated fuel)) [
            | none ↦ none
            | some next ↦ each_header hash repeated fuel include_header hs (suc index) next
          ]
            ≡ none
      by_visit none f rest = refl
      by_visit (some next) f rest = rest next (omega (arith, f, h))

-- Whatever fuel the loop over postfixes has, the reading of a sheet's headers does not end where a
-- header that is read stands in the first row three times or more, for Excel as for Google Sheets.
pub hashed_headers_stuck :
    (hash : String → Text) (repeated : Repeated) (fuel : ℕ) (include_header : Bool) (name : String)
    (hs : List String)
    → is_read include_header name ≡ true
    → 3 ≤ times name hs
    → hashed_headers hash repeated fuel include_header hs ≡ none
unfolding hashed_headers has
hashed_headers_stuck hash repeated fuel include_header name hs r h =
    ap (λ o. elim o as (λ _. Option Headers) [ none ↦ none | some st ↦ some (st.0) ])
      (each_header_stuck hash repeated fuel include_header name hs 0 ([], []) r (omega (arith, h)))
