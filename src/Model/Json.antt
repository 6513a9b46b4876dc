-- ===== src/Model/Json.antt =====
-- The JSON values that the JSON columns of src/factory/models.py hold and the code reads.
use human_data.Prelude.{
  ℕ, String, Bool, Option, none, some, List, [], ◌∷◌, str_eq, if◌then◌else◌, str_eq_iff, Bool-cases,
  inl, inr, arith,
}
use native.Mathlib.Decide.{ℕ_discrete}
use human_data.Prelude.Int.{ℤ, pos}

-- `int` is a whole number; `real` is a decimal fraction, in ten-thousandths.
mutual
  pub data Json : Type 0 where
    null : Json
    bool : Bool → Json
    int : ℤ → Json
    real : ℤ → Json
    text : String → Json
    arr : Items → Json
    obj : Fields → Json

  pub data Items : Type 0 where
    nil : Items
    cons : Json → Items → Items

  pub data Fields : Type 0 where
    end : Fields
    field : String → Json → Fields → Fields

pub String-discrete : Discrete String
String-discrete a b = elim (Bool-cases (str_eq a b)) [
  | inl same ↦ yes ((str_eq_iff a b).0 same)
  | inr differ ↦ no (λ p. ground (arith, str_eq_iff a b))
]

pub Json-discrete : Discrete Json
Json-discrete = hlevel (String-discrete, ℕ_discrete)

-- `d.get(key)`; of two entries with one key the first is read
abbrev pub get : String → Fields → Option Json
get key end = none
get key (field k v d) = let rest = get key d in if str_eq k key then some v else rest

-- a Python int that is not negative
abbrev pub nat : ℕ → Json
nat n = int (pos n)

-- a list of texts
abbrev pub texts : List String → Items
texts [] = nil
texts (s ∷ ss) = cons (text s) (texts ss)

pub Fields-discrete : Discrete Fields
Fields-discrete = hlevel (String-discrete, ℕ_discrete)
