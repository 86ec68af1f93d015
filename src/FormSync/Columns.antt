-- ===== src/FormSync/Columns.antt =====
-- form-sync/main/src/utils/index.ts: the name of a spreadsheet's column, and the names of fields.
-- A text is the list of its UTF-16 code units.
use Prim.Native.Nat.{◌/◌, ◌%◌}
use starion_sync.Base.{
  ℕ, zero, suc, ◌+◌, ◌-◌, ◌*◌, ◌≤◌, ◌≡◌, refl, ◌∙◌, ap, Option, none, some, List, [], ◌∷◌, map,
  String, or_else, leb, if◌then◌else◌, ◌&&◌, ◌==◌, arith,
}
use starion_sync.Base.Int.{ℤ, pos, negsuc, sub_ℕ}

abbrev pub Text : Type 0
Text = List ℕ

-- The `while (columnNumber >= 0)`, with the name that is built so far; `none` where it has not
-- ended yet.
unfoldable pub column_loop : ℕ → ℤ → Text → Option Text
column_loop zero c name = none
column_loop (suc fuel) (negsuc k) name = some name
column_loop (suc fuel) (pos n) name = column_loop fuel (sub_ℕ (n / 26) 1) ((n % 26 + 65) ∷ name)

abbrev pub column_fuel : ℤ → ℕ
column_fuel (pos n) = n + 2
column_fuel (negsuc k) = 1

-- `convertToExcelColumnName`.
unfoldable pub convert_to_excel_column_name : ℤ → Text
convert_to_excel_column_name c = or_else (column_loop (column_fuel c) c []) []

-- `m => numberReplacer[m]`, of a digit's code; another code stays.
abbrev replace_digit : ℕ → ℕ
replace_digit c = if c == 48 then 106 else (if leb 49 c && leb c 57 then c + 48 else c)

-- `hashFieldName`, of the digits that `md5` gives.
unfoldable pub hash_field_name : (String → Text) → String → Text
hash_field_name md5 name = 102 ∷ 95 ∷ map replace_digit (md5 name)

-- The number of columns up to the one that letters name, as spreadsheets count them.
abbrev pub column_number : ℕ → Text → ℕ
column_number k [] = k
column_number k (c ∷ cs) = column_number (26 * k + (c - 64)) cs

abbrev pub IsLetters : Text → Type 0
IsLetters [] = Unit
IsLetters (c ∷ cs) = (65 ≤ c) × (c ≤ 90) × IsLetters cs

-- The loop ends, with letters before the name so far, which count the columns as the number does.
abbrev pub Ends : ℕ → ℤ → ℕ → Text → Type 0
Ends fuel c k name =
    (t : Text) × (column_loop fuel c name ≡ some t)
    × (column_number 0 t ≡ column_number k name)
    × (IsLetters name → IsLetters t)

-- How many columns a number counts up to its own.
abbrev pub count_of : ℤ → ℕ
count_of (pos n) = n + 1
count_of (negsuc k) = 0

count_of-sub_ℕ : (q : ℕ) → count_of (sub_ℕ q 1) ≡ q
count_of-sub_ℕ q = ground arith

column_fuel-sub_ℕ : (n fuel : ℕ) → n + 2 ≤ suc fuel → column_fuel (sub_ℕ (n / 26) 1) ≤ fuel
column_fuel-sub_ℕ n fuel h = ground arith

-- One turn: the columns of the letters before, and the letter of the remainder.
turn :
    (fuel n k : ℕ) (c : ℤ) (name : Text)
    → k ≡ n / 26
    → Ends fuel c k ((n % 26 + 65) ∷ name)
    → (t : Text) × (column_loop fuel c ((n % 26 + 65) ∷ name) ≡ some t)
      × (column_number 0 t ≡ column_number (n + 1) name)
      × (IsLetters name → IsLetters t)
turn fuel n k c name e (t, ends, number, letters) =
    let same : 26 * k + (n % 26 + 65 - 64) ≡ n + 1 = omega arith in
    (
      t,
      ends,
      number ∙ ap (λ k. column_number k name) same,
      λ h. letters (omega arith, omega arith, h),
    )

column_loop_lem :
    (fuel : ℕ) (c : ℤ) (name : Text) → column_fuel c ≤ fuel → Ends fuel c (count_of c) name
unfolding column_loop
column_loop_lem zero (pos n) name h = absurd (omega (arith, h))
column_loop_lem zero (negsuc k) name h = absurd (omega (arith, h))
column_loop_lem (suc fuel) (negsuc k) name h = (name, refl, refl, λ l. l)
column_loop_lem (suc fuel) (pos n) name h =
    turn fuel n (count_of (sub_ℕ (n / 26) 1)) (sub_ℕ (n / 26) 1) name (count_of-sub_ℕ (n / 26))
      (column_loop_lem fuel (sub_ℕ (n / 26) 1) ((n % 26 + 65) ∷ name) (column_fuel-sub_ℕ n fuel h))

-- The loop of `convertToExcelColumnName` ends on every integer. What it returns for a column's
-- index is in the letters A to Z, and counts the columns up to that one as spreadsheets do; for a
-- negative number it counts none.
pub convert_to_excel_column_name_lem :
    (c : ℤ)
    → (column_loop (column_fuel c) c [] ≡ some (convert_to_excel_column_name c))
      × (column_number 0 (convert_to_excel_column_name c) ≡ count_of c)
      × IsLetters (convert_to_excel_column_name c)
unfolding convert_to_excel_column_name
convert_to_excel_column_name_lem c =
    let (t, ends, number, letters) = column_loop_lem (column_fuel c) c [] (omega arith) in
    rw ends (refl, number, letters tt)
