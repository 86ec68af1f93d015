-- ===== src/FormSync/Headers.antt =====
-- form-sync/main/src/modules/formsync: the columns of a sheet by the names of their headers,
-- `getWorksheetHashedHeaders` of excel/index.ts and `getHashedHeaders` of google-sheets/index.ts.
pub mod Distinct
pub mod Repeats
use Prim.Native.String.{◌++◌ as append}
use text.Mathlib.Text.{◌==◌ as str_eq}
use starion_sync.Base.{
  ℕ, zero, suc, Bool, true, false, not, ◌&&◌, ◌||◌, Option, none, some, List, [], ◌∷◌, ◌==◌, String,
  if◌then◌else◌,
}
use starion_sync.FormSync.Columns.{Text}

-- `Set.has`, of a set of names.
unfoldable pub has : String → List String → Bool
has name [] = false
has name (n ∷ names) = str_eq n name || has name names

abbrev pub same_text : Text → Text → Bool
same_text [] [] = true
same_text [] (y ∷ ys) = false
same_text (x ∷ xs) [] = false
same_text (x ∷ xs) (y ∷ ys) = (x == y) && same_text xs ys

module _ {V : Type 0} where
  -- A key of an object, whose entries stand in the order of insertion.
  unfoldable pub entry : Text → List (Text × V) → Option V
  entry k [] = none
  entry k ((j, v) ∷ es) = if same_text j k then some v else entry k es

  -- `object[k] = v`.
  unfoldable pub set_entry : Text → V → List (Text × V) → List (Text × V)
  set_entry k v [] = (k, v) ∷ []
  set_entry k v ((j, w) ∷ es) = if same_text j k then (j, v) ∷ es else (j, w) ∷ set_entry k v es

abbrev pub Headers : Type 0
Headers = List (Text × ℕ)

-- `EXCEL_PRIMARY_ID_NAME` and `GOOGLE_SHEETS_PRIMARY_ID_NAME`.
abbrev pub primary_id_name : String
primary_id_name = "__StarionId"

-- The two services name a repeated header's field by the header, or by it with its postfix.
pub data Repeated : Type 0 where
  by_header by_postfixed : Repeated

-- `${header} (${postfix})`, which is made once, with 1.
abbrev pub postfixed_header : String → String
postfixed_header header = append header " (1)"

-- `while (headerNameSet.has(postfixedHeader)) postfix++`: `none` where it has not ended yet.
unfoldable pub postfix_loop : ℕ → ℕ → String → List String → Option ℕ
postfix_loop zero postfix name names = none
postfix_loop (suc fuel) postfix name names =
    if has name names then postfix_loop fuel (suc postfix) name names else some postfix

abbrev pub is_read : Bool → String → Bool
is_read include_header header =
    not (str_eq header "") && (include_header || not (str_eq header primary_id_name))

abbrev pub field_of : Repeated → String → String
field_of by_header header = header
field_of by_postfixed header = postfixed_header header

module _ (hash : String → Text) (repeated : Repeated) (fuel : ℕ) where
  -- `headers` and `headerNameSet`.
  abbrev pub State : Type 0
  State = Headers × List String

  abbrev pub add_repeated : String → ℕ → State → Option ℕ → Option State
  add_repeated header index (headers, names) none = none
  add_repeated header index (headers, names) (some postfix) =
      some
        (set_entry (hash (field_of repeated header)) index headers, postfixed_header header ∷ names)

  -- The body of the `forEach` for a header that is read.
  unfoldable pub add_header : String → ℕ → State → Option State
  add_header header index (headers, names) =
      if has header names
      then add_repeated header index (headers, names)
          (postfix_loop fuel 1 (postfixed_header header) names)
      else some (set_entry (hash header) index headers, header ∷ names)

  abbrev pub visit : Bool → String → ℕ → State → Option State
  visit include_header header index st =
      if is_read include_header header then add_header header index st else some st

  unfoldable pub each_header : Bool → List String → ℕ → State → Option State
  each_header include_header [] index st = some st
  each_header include_header (h ∷ hs) index st = elim (visit include_header h index st) [
    | none ↦ none
    | some next ↦ each_header include_header hs (suc index) next
  ]

  -- `getWorksheetHashedHeaders` and `getHashedHeaders`, of the values of the first row.
  unfoldable pub hashed_headers : Bool → List String → Option Headers
  hashed_headers include_header values = elim (each_header include_header values 0 ([], [])) [
    | none ↦ none
    | some st ↦ some (st.0)
  ]
