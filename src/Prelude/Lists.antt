-- ===== src/Prelude/Lists.antt =====
-- Lists measured by native numbers, and the queries that the database layer makes of a table.
use Prim.Native.Nat.{ℕ, suc, ◌+◌}
use mathlib.Core.Path.{◌≡◌, refl}
use mathlib.Core.Bool.{Bool, true, false, ◌&&◌, ◌||◌}
use mathlib.Core.List.{List, [], ◌∷◌, ◌++◌, map}
use mathlib.Core.Option.{Option, none, some}
use native.Mathlib.Omega.{arith}
use human_data.Prelude.Tests.{if◌then◌else◌, leb}
use mathlib.Core.Logic.{◌⊎◌}

module _ {ℓ} {A : Type ℓ} where
  abbrev pub length : List A → ℕ
  length [] = 0
  length (x ∷ xs) = suc (length xs)

  -- `select(...).where(p)`: the rows that pass, in the table's order
  abbrev pub select : (A → Bool) → List A → List A
  select p [] = []
  select p (x ∷ xs) = let rest = select p xs in if p x then x ∷ rest else rest

  abbrev pub first : List A → Option A
  first [] = none
  first (x ∷ xs) = some x

  abbrev pub last : List A → Option A
  last [] = none
  last (x ∷ xs) = elim (last xs) [ none ↦ some x | some y ↦ some y ]

  abbrev pub any : (A → Bool) → List A → Bool
  any p [] = false
  any p (x ∷ xs) = p x || any p xs

  abbrev pub all : (A → Bool) → List A → Bool
  all p [] = true
  all p (x ∷ xs) = p x && all p xs

  -- `order_by(key)`: rows with equal keys keep their order
  abbrev pub insert_by : (A → ℕ) → A → List A → List A
  insert_by key x [] = x ∷ []
  insert_by key x (y ∷ ys) =
      let rest = insert_by key x ys in if leb (key x) (key y) then x ∷ y ∷ ys else y ∷ rest

  abbrev pub order_by : (A → ℕ) → List A → List A
  order_by key [] = []
  order_by key (x ∷ xs) = insert_by key x (order_by key xs)

  -- `max(..., key)` of a query ordered by `key` descending: of equal keys the later row
  abbrev pub newest : (A → ℕ) → List A → Option A
  newest key [] = none
  newest key (x ∷ xs) = elim (newest key xs) [
    | none ↦ some x
    | some y ↦ if leb (key x) (key y) then some y else some x
  ]

  -- `sum(f(x) for x in xs)`
  abbrev pub sum_of : (A → ℕ) → List A → ℕ
  sum_of f [] = 0
  sum_of f (x ∷ xs) = f x + sum_of f xs

  -- every element satisfies `P`
  abbrev pub All {κ} : (A → Type κ) → List A → Type κ
  All P [] = Unit
  All P (x ∷ xs) = P x × All P xs

module _ {ℓ} {A : Type ℓ} where
  pub length-append : (xs ys : List A) → length (xs ++ ys) ≡ length xs + length ys
  length-append [] ys = omega arith
  length-append (x ∷ xs) ys = omega (arith, length-append xs ys)

  pub sum_of-append : (f : A → ℕ) (xs ys : List A) → sum_of f (xs ++ ys) ≡ sum_of f xs + sum_of f ys
  sum_of-append f [] ys = omega arith
  sum_of-append f (x ∷ xs) ys = omega (arith, sum_of-append f xs ys)

  pub last-append_one : (xs : List A) (y : A) → last (xs ++ y ∷ []) ≡ some y
  last-append_one [] y = refl
  last-append_one (x ∷ xs) y = rw (last-append_one xs y)

  pub All-append {κ} : (P : A → Type κ) (xs ys : List A) → All P xs → All P ys → All P (xs ++ ys)
  All-append P [] ys h k = k
  All-append P (x ∷ xs) ys h k = (h.0, All-append P xs ys h.1 k)

module _ {ℓ} {A : Type ℓ} where
  sum_of-insert_by :
      (f key : A → ℕ) (x : A) (xs : List A) → sum_of f (insert_by key x xs) ≡ f x + sum_of f xs
  sum_of-insert_by f key x [] = refl
  sum_of-insert_by f key x (y ∷ ys) = ground (arith, sum_of-insert_by f key x ys)

  pub sum_of-order_by : (f key : A → ℕ) (xs : List A) → sum_of f (order_by key xs) ≡ sum_of f xs
  sum_of-order_by f key [] = refl
  sum_of-order_by f key (x ∷ xs) =
      omega (arith, sum_of-insert_by f key x (order_by key xs), sum_of-order_by f key xs)

module _ {ℓ} {A : Type ℓ} where
  pub length-select-append :
      (p : A → Bool) (xs ys : List A)
      → length (select p (xs ++ ys)) ≡ length (select p xs) + length (select p ys)
  length-select-append p [] ys = omega arith
  length-select-append p (x ∷ xs) ys = ground (arith, length-select-append p xs ys)

module _ {ℓ κ} {A : Type ℓ} (P : A → Type κ) where
  All-if :
      (b : Bool) (x : A) (xs : List A)
      → (b ≡ true → P x)
      → All P xs
      → All P (if b then x ∷ xs else xs)
  All-if true x xs px h = (px refl, h)
  All-if false x xs px h = h

  All-place :
      (b : Bool) (x y : A) (ys zs : List A)
      → P x
      → All P (y ∷ ys)
      → All P zs
      → All P (if b then x ∷ y ∷ ys else y ∷ zs)
  All-place true x y ys zs px h k = (px, h)
  All-place false x y ys zs px h k = (h.0, k)

  pub All-select : (p : A → Bool) (xs : List A) → ((x : A) → p x ≡ true → P x) → All P (select p xs)
  All-select p [] h = tt
  All-select p (x ∷ xs) h = All-if (p x) x (select p xs) (h x) (All-select p xs h)

  All-insert_by : (key : A → ℕ) (x : A) (xs : List A) → P x → All P xs → All P (insert_by key x xs)
  All-insert_by key x [] px h = (px, tt)
  All-insert_by key x (y ∷ ys) px h =
      All-place (leb (key x) (key y)) x y ys (insert_by key x ys) px h
        (All-insert_by key x ys px h.1)

  pub All-order_by : (key : A → ℕ) (xs : List A) → All P xs → All P (order_by key xs)
  All-order_by key [] h = tt
  All-order_by key (x ∷ xs) h = All-insert_by key x (order_by key xs) h.0 (All-order_by key xs h.1)

module _ {ℓ κ μ} {A : Type ℓ} {B : Type μ} (P : B → Type κ) (f : A → B) where
  pub All-map : (xs : List A) → All (λ x. P (f x)) xs → All P (map f xs)
  All-map [] h = tt
  All-map (x ∷ xs) h = (h.0, All-map xs h.1)

module _ {A : Type 0} where
  abbrev pub IsIn : A → List A → Type 0
  IsIn a [] = ⊥
  IsIn a (x ∷ xs) = (x ≡ a) ⊎ IsIn a xs
