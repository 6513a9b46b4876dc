-- ===== src/Store/Raises.antt =====
-- The errors that an action may end in: one rule for each way to build an action.
use human_data.Store.{
  Error, Result, raise, Db, new_id, Action, pure, multiple_results, ok, modify, ◌>>=◌, gets,
  raise_if, or_raise, continue, one_or_none, err,
}
use human_data.Prelude.{Option, List, Bool, if◌then◌else◌, some, true, false, none, ◌∷◌, []}

abbrev pub Refused : {A : Type 0} → (Error → Type 0) → Result (A × Db) → Type 0
Refused R (ok r) = Unit
Refused R (err e) = R e

-- Every error of the action satisfies `R`.
pub record Raises {A : Type 0} (R : Error → Type 0) (m : Action A) : Type 0 where
  pub at : (db : Db) → Refused R (m db)

module _ {A : Type 0} {R : Error → Type 0} where
  pub Raises-pure : (a : A) → Raises R (pure a)
  Raises-pure a = record { at = λ db. tt }

  pub Raises-raise : (e : Error) → R e → Raises R (raise {A = A} e)
  Raises-raise e r = record { at = λ db. r }

  pub Raises-gets : (f : Db → A) → Raises R (gets f)
  Raises-gets f = record { at = λ db. tt }

  pub Raises-or_raise : (o : Option A) (e : Error) → R e → Raises R (or_raise o e)
  Raises-or_raise none e r = record { at = λ db. r }
  Raises-or_raise (some a) e r = record { at = λ db. tt }

  pub Raises-one_or_none : (xs : List A) → R multiple_results → Raises R (one_or_none xs)
  Raises-one_or_none [] r = record { at = λ db. tt }
  Raises-one_or_none (x ∷ []) r = record { at = λ db. tt }
  Raises-one_or_none (x ∷ y ∷ xs) r = record { at = λ db. r }

  pub Raises-if :
      (b : Bool) (m n : Action A) → Raises R m → Raises R n → Raises R (if b then m else n)
  Raises-if true m n h k = h
  Raises-if false m n h k = k

module _ {R : Error → Type 0} where
  pub Raises-raise_if : (b : Bool) (e : Error) → R e → Raises R (raise_if b e)
  Raises-raise_if true e r = record { at = λ db. r }
  Raises-raise_if false e r = record { at = λ db. tt }

  pub Raises-modify : (f : Db → Db) → Raises R (modify f)
  Raises-modify f = record { at = λ db. tt }

  pub Raises-new_id : Raises R new_id
  Raises-new_id = record { at = λ db. tt }

module _ {A B : Type 0} (R : Error → Type 0) where
  Refused-continue :
      (r : Result (A × Db)) (f : A → Action B)
      → Refused R r
      → ((a : A) → Raises R (f a))
      → Refused R (continue r f)
  Refused-continue (ok (a, db)) f h k = (k a).at db
  Refused-continue (err e) f h k = h

module _ {A B : Type 0} {R : Error → Type 0} where
  pub Raises-bind :
      (m : Action A) (f : A → Action B)
      → Raises R m
      → ((a : A) → Raises R (f a))
      → Raises R (m >>= f)
  Raises-bind m f h k = record { at = λ db. Refused-continue R (m db) f (h.at db) k }

pub ruleset raises_rules = (
  Raises-pure, Raises-raise, Raises-gets, Raises-or_raise, Raises-one_or_none, Raises-if,
  Raises-raise_if, Raises-modify, Raises-new_id, Raises-bind,
)
