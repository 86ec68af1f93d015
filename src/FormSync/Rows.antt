-- ===== src/FormSync/Rows.antt =====
-- form-sync/main/src/modules/formsync: what a form's values become, and the row of values that is
-- written to a sheet. Both services have the same code.
pub mod Values
use Prim.Native.Nat.{max}
use text.Mathlib.Text.{◌==◌ as str_eq}
use starion_sync.Base.{
  ℕ, zero, suc, ◌*◌, ◌+◌, Bool, true, false, not, ◌&&◌, Option, none, some, List, [], ◌∷◌, String,
  Outcome, ok, throw, Failure, plain, Cause, property_of_undefined, invalid_array_length,
  if◌then◌else◌,
}
use starion_sync.Base.Int.{ℤ, pos, negsuc, ◌+ℤ◌}
use starion_sync.FormSync.{
  Json, null_value, number, Fields, Schema, NativeDataType, date_type, Graph, is_truthy,
}
use starion_sync.FormSync.Columns.{Text, convert_to_excel_column_name}
use starion_sync.FormSync.Headers.{Headers, entry, set_entry, same_text}

-- `EXCEL_HASHED_PRIMARY_ID` and `GOOGLE_SHEETS_HASHED_PRIMARY_ID`: f_gfbbfabeggejigfgbfhdcdbecifcjhdd.
abbrev pub hashed_primary_id : Text
hashed_primary_id =
    102 ∷ 95 ∷ 103 ∷ 102 ∷ 98 ∷ 98 ∷ 102 ∷ 97 ∷ 98 ∷ 101 ∷ 103 ∷ 103 ∷ 101 ∷ 106 ∷ 105 ∷ 103 ∷ 102
    ∷ 103 ∷ 98 ∷ 102 ∷ 104 ∷ 100 ∷ 99 ∷ 100 ∷ 98 ∷ 101 ∷ 99 ∷ 105 ∷ 102 ∷ 99 ∷ 106 ∷ 104 ∷ 100 ∷ 100
    ∷ []

abbrev times_ℕ : ℕ → ℤ → ℤ
times_ℕ k (pos n) = pos (k * n)
times_ℕ zero (negsuc n) = pos 0
times_ℕ (suc k) (negsuc n) = negsuc (k + n * suc k)

-- `convertDateToSerialNumber`: days since 1899-12-30, as a fraction over a day's milliseconds.
unfoldable pub convert_date_to_serial_number : ℤ → ℤ → Json
convert_date_to_serial_number time offset =
    number ((pos (25569 * 86400000)) +ℤ (time +ℤ times_ℕ 60000 offset)) 86400000

module _ (g : Graph) where
  -- `timezone || 'UTC'`.
  abbrev zone_or_utc : String → String
  zone_or_utc timezone = if str_eq timezone "" then "UTC" else timezone

  abbrev pub converted : String → NativeDataType → Json → Json
  converted timezone date_type value =
      convert_date_to_serial_number (g.time_of value) (g.utc_offset (zone_or_utc timezone))
  converted timezone _ value = value

  -- The `forEach` of `convertData`, over the entries that are left.
  unfoldable pub convert_fields : String → Schema → Fields → Fields → Fields
  convert_fields timezone schema result [] = result
  convert_fields timezone schema result ((key, value) ∷ rest) = elim (entry key schema) [
    | none ↦ convert_fields timezone schema result rest
    | some type ↦
        convert_fields timezone schema (set_entry key (converted timezone type value) result) rest
  ]

  -- `convertData`. The entries of undefined data, and a key of an undefined schema, are a TypeError.
  unfoldable pub convert_data : String → Option Schema → Option Fields → Outcome Fields
  convert_data timezone schema none = throw (plain property_of_undefined)
  convert_data timezone none (some []) = ok []
  convert_data timezone none (some (_ ∷ _)) = throw (plain property_of_undefined)
  convert_data timezone (some schema) (some given) = ok (convert_fields timezone schema [] given)

-- `Math.max(...Object.values(headers))`, which is -Infinity of no header.
unfoldable pub last_col_index : Headers → Option ℕ
last_col_index [] = none
last_col_index ((_, index) ∷ headers) = elim (last_col_index headers) [
  | none ↦ some index
  | some last ↦ some (max index last)
]

-- The name of the last column, which for -Infinity is empty, as for any negative number.
abbrev pub last_column_name : Option ℕ → Text
last_column_name none = convert_to_excel_column_name (negsuc 0)
last_column_name (some last) = convert_to_excel_column_name (pos last)

unfoldable pub nulls : ℕ → List Json
nulls zero = []
nulls (suc n) = null_value ∷ nulls n

-- `new Array(lastColIndex + 1).fill(null)`.
abbrev pub empty_row : Option ℕ → Outcome (List Json)
empty_row none = throw (plain invalid_array_length)
empty_row (some last) = ok (nulls (suc last))

-- `values[pos] = value`, within the array.
unfoldable pub set_at : ℕ → Json → List Json → List Json
set_at n value [] = []
set_at zero value (v ∷ vs) = value ∷ vs
set_at (suc n) value (v ∷ vs) = v ∷ set_at n value vs

-- The value that an insertion writes under a header, and the one that an update writes.
abbrev pub for_insert : Text → Option Json → Option Json
for_insert header value = value

unfoldable pub for_update : Text → Option Json → Option Json
for_update header none = none
for_update header (some value) =
    if is_truthy value && not (same_text header hashed_primary_id) then some value else none

-- One round of the `forEach` over the entries of the headers: the values and their count.
abbrev pub put_value : ℕ → Option Json → List Json × ℕ → List Json × ℕ
put_value index none acc = acc
put_value index (some value) (values, count) = (set_at index value values, suc count)

unfoldable pub fill_values :
    (Text → Option Json → Option Json) → Fields → Headers → List Json × ℕ → List Json × ℕ
fill_values choose fields [] acc = acc
fill_values choose fields ((header, index) ∷ headers) acc =
    fill_values choose fields headers (put_value index (choose header (entry header fields)) acc)
