-- ===== src/Validators/Financials/TieOut.antt =====
-- Which financials the check of src/factory/validators.py lets through.
use human_data.Validators.Financials.{total, differs, required, optional, plus, add}
use human_data.Config.{Convert, Amount, finite, infinite, nan}
use human_data.Prelude.{
  List, Option, Bool, ◌≡◌, String, leb, not, some, ◌∷◌, none, false, ◌∷◌, arith, [], ◌&&◌, ◌||◌,
  refl, true, ◌==◌,
}
use human_data.Model.Json.{
  Fields, Items, get, Json, obj, arr, cons, bool, nil, int, real, text, null,
}
use human_data.Prelude.Int.{pos, distance}

-- Two amounts tie out: less than a cent apart, or a cent that does not come out above the tolerance,
-- or the same infinity, or one of them is not a number.
abbrev pub ties : Convert → Amount → Amount → Bool
ties c (finite a) (finite b) =
    leb (distance a b) 99 || (distance a b == 100 && not (c.cent_is_over a b))
ties c (infinite true) (infinite b) = b
ties c (infinite false) (infinite b) = not b
ties c (finite a) (infinite b) = false
ties c (infinite a) (finite b) = false
ties c nan b = true
ties c a nan = true

abbrev pub both_tie : Convert → Option Amount → Option Amount → Bool
both_tie c (some a) (some b) = ties c a b
both_tie c _ _ = false

-- no balance sheet, or its three amounts are there and the assets tie out with the other two
abbrev pub sheet_ties : Convert → Option Json → Bool
sheet_ties c (some (obj bs)) =
    both_tie c (required c "assets" bs) (add (required c "liabilities" bs) (required c "equity" bs))
sheet_ties c _ = true

abbrev joined : Option Amount → Option (List Amount) → Option (List Amount)
joined (some a) (some more) = some (a ∷ more)
joined _ _ = none

-- the amounts of one side of the journal, if all entries are dicts with amounts
abbrev pub amounts_of : Convert → String → Items → Option (List Amount)
amounts_of c key nil = some []
amounts_of c key (cons (obj d) items) = joined (optional c key d) (amounts_of c key items)
amounts_of c key (cons _ items) = none

abbrev pub sum_amounts : List Amount → Amount
sum_amounts [] = finite (pos 0)
sum_amounts (a ∷ more) = plus a (sum_amounts more)

abbrev pub sides_tie : Convert → Option (List Amount) → Option (List Amount) → Bool
sides_tie c (some debits) (some credits) = ties c (sum_amounts debits) (sum_amounts credits)
sides_tie c _ _ = false

-- no entries, or their debits tie out with their credits
abbrev pub entries_tie : Convert → Option Json → Bool
entries_tie c (some (arr nil)) = true
entries_tie c (some (arr (cons v items))) =
    sides_tie c (amounts_of c "debit" (cons v items)) (amounts_of c "credit" (cons v items))
entries_tie c _ = true

abbrev pub financials_tie : Convert → Fields → Bool
financials_tie c content = elim (get "financials" content) [
  | some (obj fin) ↦
      sheet_ties c (get "balance_sheet" fin) && entries_tie c (get "journal_entries" fin)
  | _ ↦ true
]

pub differs_lem : (c : Convert) (a b : Amount) → differs c a b ≡ not (ties c a b)
unfolding differs
differs_lem c (finite a) (finite b) = ground arith
differs_lem c (finite a) (infinite b) = refl
differs_lem c (finite a) nan = refl
differs_lem c (infinite a) (finite b) = ground arith
differs_lem c (infinite a) (infinite b) = ground arith
differs_lem c (infinite a) nan = ground arith
differs_lem c nan b = refl

abbrev pub summed : Option (List Amount) → Option Amount
summed none = none
summed (some amounts) = some (sum_amounts amounts)

joined_lem :
    (a : Option Amount) (amounts : Option (List Amount))
    → add a (summed amounts) ≡ summed (joined a amounts)
joined_lem (some a) (some amounts) = refl
joined_lem (some a) none = refl
joined_lem none amounts = refl

pub total-summed :
    (c : Convert) (key : String) (items : Items)
    → total c key items ≡ summed (amounts_of c key items)
unfolding total
total-summed c key nil = refl
total-summed c key (cons (obj d) items) =
    rw (total-summed c key items) (joined_lem (optional c key d) (amounts_of c key items))
total-summed c key (cons null items) = refl
total-summed c key (cons (bool b) items) = refl
total-summed c key (cons (int n) items) = refl
total-summed c key (cons (real n) items) = refl
total-summed c key (cons (text s) items) = refl
total-summed c key (cons (arr vs) items) = refl
