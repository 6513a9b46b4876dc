-- ===== src/Store/Keeps.antt =====
-- Invariants of actions: one rule for each way to build an action.
use human_data.Prelude.{
  ◌≡◌, subst, Bool, true, false, Option, none, some, List, [], ◌∷◌, if◌then◌else◌,
}
use human_data.Store.{
  Db, Error, Result, ok, err, Action, pure, raise, gets, or_raise, one_or_none, continue, ◌>>=◌,
  raise_if, modify,
}

-- `P` holds of the tables that a result commits, if it commits any.
abbrev pub Holds : {A : Type 0} → (Db → Type 0) → Result (A × Db) → Type 0
Holds P (ok (a, db)) = P db
Holds P (err e) = Unit

-- An action keeps `P`: where it returns, `P` holds of the new tables.
pub record Keeps {A : Type 0} (P : Db → Type 0) (m : Action A) : Type 0 where
  pub at : (db : Db) → P db → Holds P (m db)

module _ {A : Type 0} {P : Db → Type 0} where
  pub Keeps-pure : (a : A) → Keeps P (pure a)
  Keeps-pure a = record { at = λ db h. h }

  pub Keeps-raise : (e : Error) → Keeps P (raise {A = A} e)
  Keeps-raise e = record { at = λ db h. tt }

  pub Keeps-gets : (f : Db → A) → Keeps P (gets f)
  Keeps-gets f = record { at = λ db h. h }

  pub Keeps-or_raise : (o : Option A) (e : Error) → Keeps P (or_raise o e)
  Keeps-or_raise none e = record { at = λ db h. tt }
  Keeps-or_raise (some a) e = record { at = λ db h. h }

  pub Keeps-one_or_none : (xs : List A) → Keeps P (one_or_none xs)
  Keeps-one_or_none [] = record { at = λ db h. h }
  Keeps-one_or_none (x ∷ []) = record { at = λ db h. h }
  Keeps-one_or_none (x ∷ y ∷ xs) = record { at = λ db h. tt }

  pub Keeps-if : (b : Bool) (m n : Action A) → Keeps P m → Keeps P n → Keeps P (if b then m else n)
  Keeps-if true m n km kn = km
  Keeps-if false m n km kn = kn

module _ {P : Db → Type 0} where
  pub Keeps-raise_if : (b : Bool) (e : Error) → Keeps P (raise_if b e)
  Keeps-raise_if true e = record { at = λ db h. tt }
  Keeps-raise_if false e = record { at = λ db h. h }

  pub Keeps-modify : (f : Db → Db) → ((db : Db) → P db → P (f db)) → Keeps P (modify f)
  Keeps-modify f k = record { at = λ db h. k db h }

module _ {A B : Type 0} {P : Db → Type 0} where
  Holds-continue :
      (r : Result (A × Db)) (f : A → Action B)
      → Holds P r
      → ((a : A) → Keeps P (f a))
      → Holds P (continue r f)
  Holds-continue (ok (a, db)) f h k = (k a).at db h
  Holds-continue (err e) f h k = tt

  pub Keeps-bind :
      (m : Action A) (f : A → Action B) → Keeps P m → ((a : A) → Keeps P (f a)) → Keeps P (m >>= f)
  Keeps-bind m f km kf = record { at = λ db h. Holds-continue (m db) f (km.at db h) kf }

-- What a kept invariant says of a run that returned.
pub Holds-ok :
    {A : Type 0} (P : Db → Type 0) (r : Result (A × Db)) {a : A} {db : Db}
    → r ≡ ok (a, db)
    → Holds P r
    → P db
Holds-ok P (ok (b, db')) e h = subst P (cc) h
Holds-ok P (err x) e h = cc

pub ruleset keeps_rules = (
  Keeps-pure, Keeps-raise, Keeps-gets, Keeps-or_raise, Keeps-one_or_none, Keeps-if, Keeps-raise_if,
  Keeps-bind,
)
