-- ===== src/Validators/Financials.antt =====
-- `check_financial_consistency` of src/factory/validators.py. Finite amounts are in ten-thousandths,
-- and their sums are exact.
pub mod TieOut
use human_data.Validators.{
  finding_if, Finding, fin_je_unbalanced, fin_balance_sheet, error, is_falsy, finding,
  fin_balance_sheet_shape, fin_je_shape,
}
use human_data.Config.{Convert, Amount, finite, infinite, nan}
use human_data.Prelude.{
  Option, String, some, Bool, List, ltb, none, if◌then◌else◌, [], ◌++◌, ◌||◌, ◌*◌, ◌==◌, ◌&&◌, ◌+◌,
  ◌∷◌, true, false, not,
}
use human_data.Model.Json.{Json, Fields, get, bool, Items, int, arr, obj, cons, nil, real, text}
use human_data.Prelude.Int.{ℤ, pos, ◌+ℤ◌, distance, negsuc}

-- `float(v)`: `none` is the TypeError or the ValueError
abbrev to_float : Convert → Json → Option Amount
to_float c (bool true) = some (finite (pos 10000))
to_float c (bool false) = some (finite (pos 0))
to_float c (int (pos n)) = some (finite (pos (n * 10000)))
to_float c (int (negsuc n)) = some (finite (negsuc (n * 10000 + 9999)))
to_float c (real x) = some (finite x)
to_float c (text s) = c.float_text s
to_float c _ = none

-- `float(d[key])`
abbrev pub required : Convert → String → Fields → Option Amount
required c key d = elim (get key d) [ none ↦ none | some v ↦ to_float c v ]

-- `float(d.get(key, 0) or 0)`
abbrev pub optional : Convert → String → Fields → Option Amount
optional c key d = elim (get key d) [
  | none ↦ some (finite (pos 0))
  | some v ↦ if is_falsy v then some (finite (pos 0)) else to_float c v
]

abbrev same : Bool → Bool → Bool
same true b = b
same false b = not b

-- `a + b`; of two infinities that differ the sum is not a number
abbrev pub plus : Amount → Amount → Amount
plus (finite a) (finite b) = finite (a +ℤ b)
plus (finite a) (infinite b) = infinite b
plus (infinite a) (finite b) = infinite a
plus (infinite a) (infinite b) = if same a b then infinite a else nan
plus nan b = nan
plus a nan = nan

-- `abs(a - b) > _BALANCE_TOL`, which is false of what is not a number
unfoldable pub differs : Convert → Amount → Amount → Bool
differs c (finite a) (finite b) =
    ltb 100 (distance a b) || (distance a b == 100 && c.cent_is_over a b)
differs c (finite a) (infinite b) = true
differs c (infinite a) (finite b) = true
differs c (infinite a) (infinite b) = not (same a b)
differs c nan b = false
differs c a nan = false

abbrev pub tie_out : Convert → Option Amount → Option Amount → Option Amount → List Finding
tie_out c (some a) (some l) (some e) = finding_if (differs c a (plus l e)) fin_balance_sheet error
tie_out c _ _ _ = finding fin_balance_sheet_shape error ∷ []

unfoldable pub check_balance_sheet : Convert → Option Json → List Finding
check_balance_sheet c (some (obj bs)) =
    tie_out c (required c "assets" bs) (required c "liabilities" bs) (required c "equity" bs)
check_balance_sheet c _ = []

abbrev pub add : Option Amount → Option Amount → Option Amount
add (some a) (some b) = some (plus a b)
add _ _ = none

-- `sum(float(x.get(key, 0) or 0) for x in entries)`; `none` is an exception, also of an entry that
-- is no dict
unfoldable pub total : Convert → String → Items → Option Amount
total c key nil = some (finite (pos 0))
total c key (cons (obj d) items) = add (optional c key d) (total c key items)
total c key (cons _ items) = none

abbrev pub balance : Convert → Option Amount → Option Amount → List Finding
balance c (some debits) (some credits) =
    finding_if (differs c debits credits) fin_je_unbalanced error
balance c _ _ = finding fin_je_shape error ∷ []

unfoldable pub check_journal_entries : Convert → Option Json → List Finding
unfolding total
check_journal_entries c (some (arr nil)) = []
check_journal_entries c (some (arr (cons v items))) =
    balance c (total c "debit" (cons v items)) (total c "credit" (cons v items))
check_journal_entries c _ = []

unfoldable pub check_financial_consistency : Convert → Fields → List Finding
unfolding check_balance_sheet check_journal_entries
check_financial_consistency c content = elim (get "financials" content) [
  | some (obj fin) ↦
      check_balance_sheet c (get "balance_sheet" fin)
      ++ check_journal_entries c (get "journal_entries" fin)
  | _ ↦ []
]
