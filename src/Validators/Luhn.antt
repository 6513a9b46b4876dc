-- ===== src/Validators/Luhn.antt =====
-- What the checksum of src/factory/validators.py detects.
use mathlib.Core.List.{reverse-append, reverse-cons}
use human_data.Validators.{luhn, luhn_from}
use human_data.Prelude.{
  List, Bool, ℕ, ◌<◌, ◌∷◌, ◌++◌, ◌≡◌, if◌then◌else◌, false, arith, true, not, ◌+◌, reverse, ltb,
  ◌%◌, [], ◌*◌, ◌∙◌, ◌-◌, ap, append_assoc, ◌≢◌, Bool-cases, inl, inr,
}

-- what a digit adds to the sum, at an even place or at an odd one from the right
abbrev pub share : Bool → ℕ → ℕ
share alt d = if alt then (if ltb 9 (d * 2) then d * 2 - 9 else d * 2) else d

-- the sum of the digits from one parity on
abbrev sum_from : Bool → List ℕ → ℕ
sum_from alt [] = 0
sum_from alt (d ∷ ds) = share alt d + sum_from (not alt) ds

luhn_from_lem :
    (total : ℕ) (alt : Bool) (ds : List ℕ) → luhn_from total alt ds ≡ total + sum_from alt ds
unfolding luhn_from
luhn_from_lem total alt [] = omega arith
luhn_from_lem total alt (d ∷ ds) = luhn_from_lem (total + share alt d) (not alt) ds ∙ (omega arith)

-- the parity after a list
abbrev parity : Bool → List ℕ → Bool
parity alt [] = alt
parity alt (d ∷ ds) = parity (not alt) ds

sum_from-append :
    (alt : Bool) (xs ys : List ℕ)
    → sum_from alt (xs ++ ys) ≡ sum_from alt xs + sum_from (parity alt xs) ys
sum_from-append alt [] ys = omega arith
sum_from-append alt (x ∷ xs) ys = omega (arith, sum_from-append (not alt) xs ys)

-- two digits that add the same are the same
share-injective : (alt : Bool) (d e : ℕ) → d < 10 → e < 10 → share alt d ≡ share alt e → d ≡ e
share-injective true d e hd he h = ground arith
share-injective false d e hd he h = h

share-bound : (alt : Bool) (d : ℕ) → d < 10 → share alt d < 10
share-bound true d h = ground arith
share-bound false d h = h

luhn_lem : (ds : List ℕ) → luhn ds ≡ true → sum_from false (reverse ds) % 10 ≡ 0
unfolding luhn
luhn_lem ds h = ground (arith, luhn_from_lem 0 false (reverse ds))

changed_lem :
    (before after : List ℕ) (d : ℕ)
    → sum_from false (reverse (before ++ d ∷ after))
      ≡ sum_from false (reverse after)
        + share (parity false (reverse after)) d
        + sum_from (not (parity false (reverse after))) (reverse before)
changed_lem before after d =
    let same : reverse (before ++ d ∷ after) ≡ reverse after ++ d ∷ reverse before =
      reverse-append before (d ∷ after)
      ∙ ap (λ l. l ++ reverse before) (reverse-cons d after)
      ∙ append_assoc (reverse after) (d ∷ []) (reverse before) in
    ap (sum_from false) same
    ∙ sum_from-append false (reverse after) (d ∷ reverse before)
    ∙ (omega arith)

-- two numbers of digits that differ in one place at most, and both pass, are the same
both_pass :
    (before after : List ℕ) (d e : ℕ)
    → d < 10
    → e < 10
    → luhn (before ++ d ∷ after) ≡ true
    → luhn (before ++ e ∷ after) ≡ true
    → d ≡ e
both_pass before after d e hd he p q =
    let alt = parity false (reverse after) in
    share-injective alt d e hd he (
      omega (
        arith,
        share-bound alt d hd,
        share-bound alt e he,
        changed_lem before after d,
        changed_lem before after e,
        luhn_lem (before ++ d ∷ after) p,
        luhn_lem (before ++ e ∷ after) q,
      ))

-- A number that passes the checksum fails it once any one digit is changed.
pub luhn-one_digit :
    (before after : List ℕ) (d e : ℕ)
    → d < 10
    → e < 10
    → luhn (before ++ d ∷ after) ≡ true
    → d ≢ e
    → luhn (before ++ e ∷ after) ≡ false
luhn-one_digit before after d e hd he p n = elim (Bool-cases (luhn (before ++ e ∷ after))) [
  | inl q ↦ absurd (n (both_pass before after d e hd he p q))
  | inr f ↦ f
]
