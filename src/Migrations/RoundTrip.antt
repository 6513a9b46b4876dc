-- ===== src/Migrations/RoundTrip.antt =====
-- A downgrade takes back what its upgrade did to the schema.
use human_data.Migrations.{
  Schema, apply, remove_table, has_table, Table, create_table, drop_table, names_table, has_target,
  run, Op, after_op, Column, is_column, without_column, string, with_column, change_table,
  drop_from, add_column, is_table, drop_column, optional,
}
use human_data.Prelude.{
  String, all, str_eq, List, ◌≡◌, false, true, some, Bool-cases, str_eq_iff, any, refl, ◌∷◌, inl,
  ◌∷◌, arith, ap, [], inr, ap₂, sym, map, ◌++◌, ◌||◌, not, ◌∙◌, Option-cases, Option, subst, ◌≢◌,
  none,
}
use human_data.Migrations.Checkout.{
  checkout_upgrade, upgrade_head, checkout_downgrade, downgrade_base,
}
use human_data.Migrations.Baseline.{baseline_upgrade, baseline_downgrade, baseline_tables}

-- every foreign key names a table that is there
abbrev pub IsClosed : Schema → Type 0
IsClosed s =
    all (λ (u : Table). all (λ (fk : String × String). has_table fk.1 s) u.foreign_keys) s ≡ true

-- what is there has another name than what is not
other_name :
    (a b : String) (s : Schema) → has_table a s ≡ true → has_table b s ≡ false → str_eq a b ≡ false
other_name a b s here gone = elim (Bool-cases (str_eq a b)) [
  | inl same ↦ absurd (ground (arith, ap (λ n. has_table n s) ((str_eq_iff a b).0 same)))
  | inr differ ↦ differ
]

keys_lem :
    (name : String) (s : Schema) (fks : List (String × String))
    → all (λ (fk : String × String). has_table fk.1 s) fks ≡ true
    → has_table name s ≡ false
    → any (λ (fk : String × String). str_eq fk.1 name) fks ≡ false
keys_lem name s [] h gone = refl
keys_lem name s (fk ∷ fks) h gone = ground (arith, keys_lem name s fks, other_name fk.1 name s)

unnamed_lem :
    (name : String) (s tables : Schema)
    → all (λ (u : Table). all (λ (fk : String × String). has_table fk.1 s) u.foreign_keys) tables
      ≡ true
    → has_table name s ≡ false
    → any (names_table name) tables ≡ false
unnamed_lem name s [] h gone = refl
unnamed_lem name s (u ∷ tables) h gone =
    ground (arith, unnamed_lem name s tables, keys_lem name s u.foreign_keys)

str_eq_self : (a : String) → str_eq a a ≡ true
str_eq_self a = (str_eq_iff a a).1 refl

-- `create_table`, then `drop_table`
pub create_lem :
    (t : Table) (s s' : Schema)
    → apply (create_table t) s ≡ some s'
    → (has_table t.name s ≡ false) × (all (has_target t s) t.foreign_keys ≡ true) × (s' ≡ t ∷ s)
unfolding apply
create_lem t s s' e =
    elim (Bool-cases (has_table t.name s || not (all (has_target t s) t.foreign_keys))) [
      | inl refused ↦ absurd (ground arith)
      | inr free ↦ (ground arith, ground arith, ground arith)
    ]

drop-create :
    (t : Table) (s : Schema)
    → IsClosed s
    → has_table t.name s ≡ false
    → apply (drop_table t.name) (t ∷ s) ≡ some s
unfolding apply remove_table
drop-create t s closed gone = rw (str_eq_self t.name, unnamed_lem t.name s s closed gone)

-- The tables that are known with a table more.
more_lem :
    (t : Table) (s : Schema) (fks : List (String × String))
    → all (λ (fk : String × String). has_table fk.1 s) fks ≡ true
    → all (λ (fk : String × String). has_table fk.1 (t ∷ s)) fks ≡ true
more_lem t s [] h = refl
more_lem t s (fk ∷ fks) h = ground (arith, more_lem t s fks)

all_more_lem :
    (t : Table) (s tables : Schema)
    → all (λ (u : Table). all (λ (fk : String × String). has_table fk.1 s) u.foreign_keys) tables
      ≡ true
    → all
        (λ (u : Table). all (λ (fk : String × String). has_table fk.1 (t ∷ s)) u.foreign_keys)
        tables
      ≡ true
all_more_lem t s [] h = refl
all_more_lem t s (u ∷ tables) h =
    ground (arith, all_more_lem t s tables, more_lem t s u.foreign_keys)

str_eq-sym : (a b : String) → str_eq a b ≡ str_eq b a
str_eq-sym a b = elim (Bool-cases (str_eq a b)) [
  | inl same ↦ ap₂ str_eq ((str_eq_iff a b).0 same) (sym ((str_eq_iff a b).0 same))
  | inr differ ↦ elim (Bool-cases (str_eq b a)) [
    | inl back ↦ absurd (ground (arith, (str_eq_iff a b).1 (sym ((str_eq_iff b a).0 back))))
    | inr other ↦ differ ∙ sym other
  ]
]

own_lem :
    (t : Table) (s : Schema) (fks : List (String × String))
    → all (has_target t s) fks ≡ true
    → all (λ (fk : String × String). has_table fk.1 (t ∷ s)) fks ≡ true
own_lem t s [] h = refl
own_lem t s (fk ∷ fks) h = ground (arith, own_lem t s fks, str_eq-sym t.name fk.1)

create-IsClosed :
    (t : Table) (s : Schema)
    → IsClosed s
    → all (has_target t s) t.foreign_keys ≡ true
    → IsClosed (t ∷ s)
create-IsClosed t s closed known = rw (own_lem t s t.foreign_keys known, all_more_lem t s s closed)

-- the drops that take back some creations
abbrev pub undo : List Table → List Op
undo [] = []
undo (t ∷ ts) = undo ts ++ drop_table t.name ∷ []

pub run-append : (a b : List Op) (s : Schema) → run (a ++ b) s ≡ after_op (run a s) (run b)
unfolding run
run-append [] b s = refl
run-append (op ∷ a) b s = elim (Option-cases (apply op s)) [
  | inl gone ↦ rw gone
  | inr (s1, e) ↦ rw (e, run-append a b s1)
]

undo_lem :
    (ts : List Table) (s s' : Schema)
    → IsClosed s
    → run (map create_table ts) s ≡ some s'
    → run (undo ts) s' ≡ some s
unfolding run
undo_lem [] s s' closed e = sym e
undo_lem (t ∷ ts) s s' closed e = elim (Option-cases (apply (create_table t) s)) [
  | inl gone ↦ absurd (grind (arith, gone, e))
  | inr (s1, made) ↦
      let (gone, known, same) = create_lem t s s1 made in
      let rest : run (map create_table ts) (t ∷ s) ≡ some s' =
        ap (run (map create_table ts)) (sym same)
        ∙ ap (λ o. after_op o (run (map create_table ts))) (sym made)
        ∙ e in
      run-append (undo ts) (drop_table t.name ∷ []) s'
      ∙ ap (λ o. after_op o (run (drop_table t.name ∷ [])))
          (undo_lem ts (t ∷ s) s' (create-IsClosed t s closed known) rest)
      ∙ ap (λ o. after_op o (run [])) (drop-create t s closed gone)
]

without-added :
    (c : Column) (columns : List Column)
    → any (is_column c.name) columns ≡ false
    → without_column c.name (columns ++ c ∷ []) ≡ columns
without-added c [] h = rw (str_eq_self c.name)
without-added c (d ∷ columns) h = ground (arith, without-added c columns)

any-added : (c : Column) (columns : List Column) → any (is_column c.name) (columns ++ c ∷ []) ≡ true
any-added c [] = rw (str_eq_self c.name)
any-added c (d ∷ columns) = ground (arith, any-added c columns)

-- a column that is added and dropped
drop-with_column :
    (c : Column) (t u : Table)
    → with_column c t ≡ some u
    → (drop_from c.name u ≡ some t) × (u.name ≡ t.name)
drop-with_column c t u e = elim (Bool-cases (any (is_column c.name) t.columns)) [
  | inl taken ↦ absurd (ground arith)
  | inr free ↦
      let same : record t { columns = t.columns ++ c ∷ [] } ≡ u = ground arith in
      subst (λ (u : Table). (drop_from c.name u ≡ some t) × (u.name ≡ t.name)) same
        (rw (any-added c t.columns, without-added c t.columns free), refl)
]

change_table-back :
    (name : String) (f g : Table → Option Table)
    → ((t u : Table) → f t ≡ some u → (g u ≡ some t) × (u.name ≡ t.name))
    → (s s' : Schema) → change_table name f s ≡ some s'
    → change_table name g s' ≡ some s
unfolding change_table
change_table-back name f g back [] s' e = absurd cc
change_table-back name f g back (t ∷ s) s' e = elim (Bool-cases (is_table name t)) [
  | inl named ↦ elim (Option-cases (f t)) [
    | inl none_left ↦ absurd (ground arith)
    | inr (u, made) ↦
        let same : u ∷ s ≡ s' = ground arith in
        let (undone, name_kept) = back t u made in
        let named_too : is_table name u ≡ true = ap (λ n. str_eq n name) name_kept ∙ named in
        subst (λ s'. change_table name g s' ≡ some (t ∷ s)) same (rw (named_too, undone))
  ]
  | inr other ↦ elim (Option-cases (change_table name f s)) [
    | inl none_left ↦ absurd (ground arith)
    | inr (s1, made) ↦
        let same : t ∷ s1 ≡ s' = ground arith in
        subst (λ s'. change_table name g s' ≡ some (t ∷ s)) same
          (rw (other, change_table-back name f g back s s1 made))
  ]
]

column_lem :
    (name : String) (c : Column) (s s' : Schema)
    → apply (add_column name c) s ≡ some s'
    → apply (drop_column name c.name) s' ≡ some s
unfolding apply
column_lem name c s s' e =
    change_table-back name (with_column c) (drop_from c.name) (drop-with_column c) s s' e

pub none_lem :
    (o : Option Schema) (k : Schema → Option Schema) {s' : Schema}
    → after_op o k ≡ some s'
    → o ≢ none
none_lem none k e n = cc
none_lem (some s) k e n = cc

checkout_lem :
    (s s' : Schema) → run checkout_upgrade s ≡ some s' → run checkout_downgrade s' ≡ some s
unfolding run
checkout_lem s s' e =
    elim (Option-cases (apply (add_column "invoices" (optional "checkout_session_id" string)) s)) [
      | inl gone ↦ absurd (ground arith)
      | inr (s1, made) ↦
          let same : s1 ≡ s' = ground arith in
          let back = column_lem "invoices" (optional "checkout_session_id" string) s s1 made in
          subst (λ s'. run checkout_downgrade s' ≡ some s) same (rw back)
    ]

-- Where every foreign key names a table: if both migrations run, the downgrade to the base gives
-- back the schema that they were run on.
pub downgrade-upgrade :
    (s s' : Schema) → IsClosed s → run upgrade_head s ≡ some s' → run downgrade_base s' ≡ some s
downgrade-upgrade s s' closed e =
    let split = sym (run-append baseline_upgrade checkout_upgrade s) ∙ e in
    elim (Option-cases (run baseline_upgrade s)) [
      | inl stopped ↦ absurd (none_lem _ (run checkout_upgrade) split stopped)
      | inr (s1, based) ↦
          let last =
            checkout_lem s1 s' (ap (λ o. after_op o (run checkout_upgrade)) (sym based) ∙ split) in
          run-append checkout_downgrade baseline_downgrade s'
          ∙ ap (λ o. after_op o (run baseline_downgrade)) last
          ∙ undo_lem baseline_tables s s1 closed based
    ]
