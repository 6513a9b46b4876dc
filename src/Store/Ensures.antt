-- ===== src/Store/Ensures.antt =====
-- Postconditions of actions: what holds of the result and the tables, if the action returns.
use human_data.Store.{Action, Db, Result, ◌>>=◌, ok, continue, Error, err, raise_if, or_raise, pure}
use human_data.Prelude.{Option, Bool, ◌≡◌, true, subst, false, some, if◌then◌else◌, none, refl}

abbrev pub Post : {A : Type 0} → (A → Db → Type 0) → Result (A × Db) → Type 0
Post Q (ok (a, db)) = Q a db
Post Q (err e) = Unit

pub record Ensures {A : Type 0} (m : Action A) (db : Db) (Q : A → Db → Type 0) : Type 0 where
  pub at : Post Q (m db)

module _ {A B : Type 0} where
  Post-continue :
      (R : A → Db → Type 0) (Q : B → Db → Type 0) (r : Result (A × Db)) (f : A → Action B)
      → Post R r
      → ((a : A) (db : Db) → R a db → Ensures (f a) db Q)
      → Post Q (continue r f)
  Post-continue R Q (ok (a, db)) f h k = (k a db h).at
  Post-continue R Q (err e) f h k = tt

  pub Ensures-bind :
      (R : A → Db → Type 0) {Q : B → Db → Type 0} {m : Action A} {f : A → Action B} {db : Db}
      → Ensures m db R
      → ((a : A) (db' : Db) → R a db' → Ensures (f a) db' Q)
      → Ensures (m >>= f) db Q
  Ensures-bind R {Q} {m} {f} {db} h k = record { at = Post-continue R Q (m db) f h.at k }

module _ {A : Type 0} where
  Post-mono :
      (R Q : A → Db → Type 0) (r : Result (A × Db))
      → Post R r
      → ((a : A) (db : Db) → R a db → Q a db)
      → Post Q r
  Post-mono R Q (ok (a, db)) h k = k a db h
  Post-mono R Q (err e) h k = tt

  pub Ensures-mono :
      (R : A → Db → Type 0) {Q : A → Db → Type 0} {m : Action A} {db : Db}
      → Ensures m db R
      → ((a : A) (db' : Db) → R a db' → Q a db')
      → Ensures m db Q
  Ensures-mono R {Q} {m} {db} h k = record { at = Post-mono R Q (m db) h.at k }

  Post-ok :
      (Q : A → Db → Type 0) (r : Result (A × Db)) {a : A} {db : Db}
      → r ≡ ok (a, db)
      → Post Q r
      → Q a db
  Post-ok Q (ok (b, db')) e h = subst (Post Q) e h
  Post-ok Q (err x) e h = cc

  pub Ensures-ok :
      {Q : A → Db → Type 0} {m : Action A} {db : Db} {a : A} {db' : Db}
      → Ensures m db Q
      → m db ≡ ok (a, db')
      → Q a db'
  Ensures-ok {Q} {m} {db} h e = Post-ok Q (m db) e h.at

  pub Ensures-or_raise :
      {Q : A → Db → Type 0} (o : Option A) (e : Error) {db : Db}
      → ((a : A) → o ≡ some a → Q a db)
      → Ensures (or_raise o e) db Q
  Ensures-or_raise none e h = record { at = tt }
  Ensures-or_raise (some a) e h = record { at = h a refl }

  pub Ensures-if :
      {Q : A → Db → Type 0} (b : Bool) (m n : Action A) {db : Db}
      → (b ≡ true → Ensures m db Q)
      → (b ≡ false → Ensures n db Q)
      → Ensures (if b then m else n) db Q
  Ensures-if true m n hm hn = hm refl
  Ensures-if false m n hm hn = hn refl

-- a guard that lets the action go on
pub Ensures-raise_if :
    {Q : Unit {0} → Db → Type 0} (b : Bool) (e : Error) {db : Db}
    → (b ≡ false → Q tt db)
    → Ensures (raise_if b e) db Q
Ensures-raise_if true e h = record { at = tt }
Ensures-raise_if false e h = record { at = h refl }

module _ {A : Type 0} where
  Post-any : (r : Result (A × Db)) → Post (λ a db. Unit {0}) r
  Post-any (ok (a, db)) = tt
  Post-any (err e) = tt

  -- nothing is claimed
  pub Ensures-any : (m : Action A) (db : Db) → Ensures m db (λ a db'. Unit {0})
  Ensures-any m db = record { at = Post-any (m db) }

module _ {A B : Type 0} where
  -- what holds whatever the first action gives
  pub Ensures-then :
      {Q : B → Db → Type 0} (m : Action A) (f : A → Action B) {db : Db}
      → ((a : A) (db' : Db) → Ensures (f a) db' Q)
      → Ensures (m >>= f) db Q
  Ensures-then m f {db} k = Ensures-bind (λ a db'. Unit {0}) (Ensures-any m db) (λ a db' u. k a db')

  -- a row that is looked up
  pub Ensures-found :
      {Q : B → Db → Type 0} (o : Option A) (e : Error) (f : A → Action B) {db : Db}
      → ((a : A) → o ≡ some a → Ensures (f a) db Q)
      → Ensures (or_raise o e >>= f) db Q
  Ensures-found none e f k = record { at = tt }
  Ensures-found (some a) e f k = record { at = (k a refl).at }

module _ {A : Type 0} where
  pub Ensures-pure : {Q : A → Db → Type 0} {a : A} {db : Db} → Q a db → Ensures (pure a) db Q
  Ensures-pure q = record { at = q }

-- The two steps on which the run of an action waits: a guard and a row that is looked up.
module _ {B : Type 0} (Q : B → Db → Type 0) where
  pub Post-guard :
      (b : Bool) (e : Error) (g : Unit {0} → Action B) (db : Db)
      → (b ≡ false → Post Q (g tt db))
      → Post Q (continue (raise_if b e db) g)
  Post-guard true e g db h = tt
  Post-guard false e g db h = h refl

  pub Post-found :
      {A : Type 0} (o : Option A) (e : Error) (g : A → Action B) (db : Db)
      → ((a : A) → o ≡ some a → Post Q (g a db))
      → Post Q (continue (or_raise o e db) g)
  Post-found none e g db h = tt
  Post-found (some a) e g db h = h a refl

module _ {A : Type 0} where
  -- a guard that the rest stands behind
  pub Ensures-guard :
      {Q : A → Db → Type 0} (b : Bool) (e : Error) (g : Unit {0} → Action A) {db : Db}
      → (b ≡ false → Ensures (g tt) db Q)
      → Ensures (raise_if b e >>= g) db Q
  Ensures-guard {Q} b e g {db} h = record { at = Post-guard Q b e g db (λ p. (h p).at) }

  Post-of :
      (Q : A → Db → Type 0) (r : Result (A × Db))
      → ((a : A) (db' : Db) → r ≡ ok (a, db') → Q a db')
      → Post Q r
  Post-of Q (ok (a, db)) h = h a db refl
  Post-of Q (err e) h = tt

  pub Ensures-of :
      {Q : A → Db → Type 0} (m : Action A) {db : Db}
      → ((a : A) (db' : Db) → m db ≡ ok (a, db') → Q a db')
      → Ensures m db Q
  Ensures-of {Q} m {db} h = record { at = Post-of Q (m db) h }

  Post-const : (C : Type 0) (r : Result (A × Db)) → C → Post (λ a db. C) r
  Post-const C (ok (a, db)) c = c
  Post-const C (err e) c = tt

  -- what holds whatever the action does
  pub Ensures-const : {C : Type 0} (m : Action A) {db : Db} → C → Ensures m db (λ a db'. C)
  Ensures-const {C} m {db} c = record { at = Post-const C (m db) c }
