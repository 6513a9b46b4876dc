-- ===== src/Export/Rows.antt =====
-- Which records `_approved_rows` of src/factory/export.py ships.
use human_data.Prelude.{
  IsIn, List, ℕ, Bool, All, any, ◌∷◌, ◌≡◌, ◌||◌, true, order_by, [], arith, ◌==◌, insert_by, select,
  ◌&&◌, false, All-append, leb, Bool-cases, refl, inl, inr, ◌⊎◌, ◌∙◌, ◌++◌, subst, ap, sym,
}
use human_data.Export.{
  approved_rows, latest, keep_latest, Row, ships, has_task, is_approved_of, join, rows_of,
}
use human_data.Model.Entities.{Ident, Task, Project, Submission}
use human_data.Store.{Db}

abbrev pub MayShip : Ident → Row → Type 0
MayShip project_id r = (ships project_id r.0 ≡ true) × (is_approved_of r.0.id r.1 ≡ true)

-- one row for each task
abbrev pub OnePerTask : List Row → Type 0
OnePerTask [] = Unit
OnePerTask (r ∷ rs) = (any (has_task r.0.id) rs ≡ false) × OnePerTask rs

-- a row of the task, of this version or a later one
abbrev pub covers : Ident → ℕ → Row → Bool
covers id version r = r.0.id == id && leb version r.1.version

keep_latest-MayShip :
    (p : Ident) (rows : List Row) (r : Row)
    → All (MayShip p) rows
    → MayShip p r
    → All (MayShip p) (keep_latest rows r)
unfolding keep_latest
keep_latest-MayShip p [] r a m = (m, tt)
keep_latest-MayShip p (x ∷ xs) r a m = ground (arith, keep_latest-MayShip p xs r)

any-has_task-keep_latest :
    (id : Ident) (rows : List Row) (r : Row)
    → any (has_task id) rows ≡ false
    → (r.0.id == id) ≡ false
    → any (has_task id) (keep_latest rows r) ≡ false
unfolding keep_latest
any-has_task-keep_latest id [] r a n = ground arith
any-has_task-keep_latest id (x ∷ xs) r a n = ground (arith, any-has_task-keep_latest id xs r)

keep_latest-OnePerTask :
    (rows : List Row) (r : Row) → OnePerTask rows → OnePerTask (keep_latest rows r)
unfolding keep_latest
keep_latest-OnePerTask [] r o = (refl, tt)
keep_latest-OnePerTask (x ∷ xs) r o =
    ground (arith, any-has_task-keep_latest x.0.id xs r, keep_latest-OnePerTask xs r)

keep_latest-old :
    (id version : ℕ) (rows : List Row) (r : Row)
    → any (covers id version) rows ≡ true
    → any (covers id version) (keep_latest rows r) ≡ true
unfolding keep_latest
keep_latest-old id version [] r c = absurd cc
keep_latest-old id version (x ∷ xs) r c = ground (arith, keep_latest-old id version xs r)

keep_latest-new :
    (id version : ℕ) (rows : List Row) (r : Row)
    → covers id version r ≡ true
    → any (covers id version) (keep_latest rows r) ≡ true
unfolding keep_latest
keep_latest-new id version [] r c = ground arith
keep_latest-new id version (x ∷ xs) r c = ground (arith, keep_latest-new id version xs r)

latest-MayShip :
    (p : Ident) (kept rows : List Row)
    → All (MayShip p) kept
    → All (MayShip p) rows
    → All (MayShip p) (latest kept rows)
unfolding latest
latest-MayShip p kept [] a b = a
latest-MayShip p kept (r ∷ rs) a b =
    latest-MayShip p (keep_latest kept r) rs (keep_latest-MayShip p kept r a b.0) b.1

latest-OnePerTask : (kept rows : List Row) → OnePerTask kept → OnePerTask (latest kept rows)
unfolding latest
latest-OnePerTask kept [] o = o
latest-OnePerTask kept (r ∷ rs) o =
    latest-OnePerTask (keep_latest kept r) rs (keep_latest-OnePerTask kept r o)

latest-covers :
    (id version : ℕ) (kept rows : List Row)
    → (any (covers id version) kept || any (covers id version) rows) ≡ true
    → any (covers id version) (latest kept rows) ≡ true
unfolding latest
latest-covers id version kept [] c = ground arith
latest-covers id version kept (r ∷ rs) c =
    latest-covers id version (keep_latest kept r) rs
      (ground (arith, keep_latest-old id version kept r, keep_latest-new id version kept r))

rows_of-MayShip :
    (p : Ident) (t : Task) (ss : List Submission)
    → ships p t ≡ true
    → All (MayShip p) (rows_of t ss)
rows_of-MayShip p t [] h = tt
rows_of-MayShip p t (s ∷ ss) h = elim (Bool-cases (is_approved_of t.id s)) [
  | inl e ↦ rw e ((h, e), rows_of-MayShip p t ss h)
  | inr e ↦ rw e (rows_of-MayShip p t ss h)
]

join-MayShip :
    (p : Ident) (ts : List Task) (ss : List Submission)
    → All (λ t. ships p t ≡ true) ts
    → All (MayShip p) (join ts ss)
join-MayShip p [] ss h = tt
join-MayShip p (t ∷ ts) ss h =
    All-append (MayShip p) (rows_of t ss) (join ts ss) (rows_of-MayShip p t ss h.0)
      (join-MayShip p ts ss h.1)

select-ships : (p : Ident) (ts : List Task) → All (λ t. ships p t ≡ true) (select (ships p) ts)
select-ships p [] = tt
select-ships p (t ∷ ts) = elim (Bool-cases (ships p t)) [
  | inl e ↦ rw e (e, select-ships p ts)
  | inr e ↦ rw e (select-ships p ts)
]

insert_by-ships :
    (p : Ident) (key : Task → ℕ) (t : Task) (ts : List Task)
    → ships p t ≡ true
    → All (λ t. ships p t ≡ true) ts
    → All (λ t. ships p t ≡ true) (insert_by key t ts)
insert_by-ships p key t [] h a = (h, tt)
insert_by-ships p key t (x ∷ xs) h a = elim (Bool-cases (leb (key t) (key x))) [
  | inl e ↦ rw e (h, a)
  | inr e ↦ rw e (a.0, insert_by-ships p key t xs h a.1)
]

order_by-ships :
    (p : Ident) (key : Task → ℕ) (ts : List Task)
    → All (λ t. ships p t ≡ true) ts
    → All (λ t. ships p t ≡ true) (order_by key ts)
order_by-ships p key [] a = tt
order_by-ships p key (t ∷ ts) a =
    insert_by-ships p key t (order_by key ts) a.0 (order_by-ships p key ts a.1)

-- The exported rows are approved submissions of tasks of the project that are not gold, one for
-- each task.
pub approved_rows-MayShip :
    (db : Db) (project : Project)
    → All (MayShip project.id) (approved_rows db project) × OnePerTask (approved_rows db project)
unfolding approved_rows
approved_rows-MayShip db project =
    let tasks = order_by (λ (t : Task). t.created_at) (select (ships project.id) db.tasks) in
    (
      latest-MayShip project.id [] (join tasks db.submissions) tt (
          join-MayShip project.id tasks db.submissions (
            order_by-ships project.id (λ (t : Task). t.created_at)
              (select (ships project.id) db.tasks) (select-ships project.id db.tasks))),
      latest-OnePerTask [] (join tasks db.submissions) tt,
    )

module _ {A : Type 0} where
  insert_by-IsIn :
      (key : A → ℕ) (a x : A) (xs : List A) → ((x ≡ a) ⊎ IsIn a xs) → IsIn a (insert_by key x xs)
  insert_by-IsIn key a x [] h = h
  insert_by-IsIn key a x (y ∷ ys) h = elim (Bool-cases (leb (key x) (key y))) [
    | inl e ↦ rw e h
    | inr e ↦ rw e (elim h [
      | inl same ↦ inr (insert_by-IsIn key a x ys (inl same))
      | inr (inl same) ↦ inl same
      | inr (inr later) ↦ inr (insert_by-IsIn key a x ys (inr later))
    ])
  ]

  order_by-IsIn : (key : A → ℕ) (a : A) (xs : List A) → IsIn a xs → IsIn a (order_by key xs)
  order_by-IsIn key a [] h = h
  order_by-IsIn key a (x ∷ xs) (inl same) = insert_by-IsIn key a x (order_by key xs) (inl same)
  order_by-IsIn key a (x ∷ xs) (inr later) =
      insert_by-IsIn key a x (order_by key xs) (inr (order_by-IsIn key a xs later))

  select-IsIn : (p : A → Bool) (a : A) (xs : List A) → IsIn a xs → p a ≡ true → IsIn a (select p xs)
  select-IsIn p a [] h k = h
  select-IsIn p a (x ∷ xs) (inl same) k = rw (same, k) (inl refl)
  select-IsIn p a (x ∷ xs) (inr later) k = elim (Bool-cases (p x)) [
    | inl e ↦ rw e (inr (select-IsIn p a xs later k))
    | inr e ↦ rw e (select-IsIn p a xs later k)
  ]

  any-append : (p : A → Bool) (xs ys : List A) → any p (xs ++ ys) ≡ (any p xs || any p ys)
  any-append p [] ys = refl
  any-append p (x ∷ xs) ys = ap (λ b. p x || b) (any-append p xs ys) ∙ (ground arith)

rows_of-covers :
    (t : Task) (s : Submission) (ss : List Submission)
    → IsIn s ss
    → is_approved_of t.id s ≡ true
    → any (covers t.id s.version) (rows_of t ss) ≡ true
rows_of-covers t s [] h a = absurd h
rows_of-covers t s (x ∷ xs) h a = ground (arith, rows_of-covers t s xs)

join-covers :
    (t : Task) (s : Submission) (ts : List Task) (ss : List Submission)
    → IsIn t ts
    → IsIn s ss
    → is_approved_of t.id s ≡ true
    → any (covers t.id s.version) (join ts ss) ≡ true
join-covers t s [] ss h k a = absurd h
join-covers t s (x ∷ xs) ss h k a =
    any-append (covers t.id s.version) (rows_of x ss) (join xs ss) ∙ elim h [
      | inl same ↦ ground (
        arith,
        subst (λ (y : Task). any (covers t.id s.version) (rows_of y ss) ≡ true) (sym same)
            (rows_of-covers t s ss k a),
      )
      | inr later ↦ ground (arith, join-covers t s xs ss later k a)
    ]

-- No approved record is left out: for each approved submission of a task of the project that is not
-- gold, the export has a row of that task, of the submission's version or a later one.
pub approved_rows-covers :
    (db : Db) (project : Project) (t : Task) (s : Submission)
    → IsIn t db.tasks
    → ships project.id t ≡ true
    → IsIn s db.submissions
    → is_approved_of t.id s ≡ true
    → any (covers t.id s.version) (approved_rows db project) ≡ true
unfolding approved_rows
approved_rows-covers db project t s h p k a =
    let tasks = order_by (λ (t : Task). t.created_at) (select (ships project.id) db.tasks) in
    latest-covers t.id s.version [] (join tasks db.submissions) (
      join-covers t s tasks db.submissions
        (order_by-IsIn (λ (t : Task). t.created_at) t (select (ships project.id) db.tasks)
          (select-IsIn (ships project.id) t db.tasks h p))
        k a)
