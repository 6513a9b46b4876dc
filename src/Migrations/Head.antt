-- ===== src/Migrations/Head.antt =====
-- The schema after both migrations and the mappings of src/factory/models.py.
use human_data.Migrations.{
  Column, Schema, Table, run, ColumnType, string, apply, change_table, create_table, text_type,
  integer, float, boolean, json, timestamp, after_op,
}
use human_data.Prelude.{
  Bool, String, Option, List, not, ◌∷◌, length, [], map, str_eq, ◌≡◌, true, ◌&&◌, some, ◌==◌, false,
  ◌++◌, arith, all, none, any, refl, Option-cases, sym, inl, ◌∙◌, inr, ap,
}
use human_data.Migrations.Checkout.{upgrade_head, checkout_upgrade}
use human_data.Migrations.Baseline.{baseline_tables, baseline_upgrade}
use human_data.Migrations.Models.{model_tables}
use human_data.Migrations.RoundTrip.{run-append, none_lem, create_lem}

abbrev pub type_eq : ColumnType → ColumnType → Bool
type_eq string string = true
type_eq text_type text_type = true
type_eq integer integer = true
type_eq float float = true
type_eq boolean boolean = true
type_eq json json = true
type_eq timestamp timestamp = true
type_eq _ _ = false

abbrev pub bool_eq : Bool → Bool → Bool
bool_eq true b = b
bool_eq false b = not b

abbrev pub column_eq : Column → Column → Bool
column_eq a b = str_eq a.name b.name && type_eq a.type b.type && bool_eq a.nullable b.nullable

abbrev pub key_eq : String × String → String × String → Bool
key_eq a b = str_eq a.0 b.0 && str_eq a.1 b.1

-- the same elements as often as in the other list, where neither repeats one
abbrev pub same_elements : {A : Type 0} → (A → A → Bool) → List A → List A → Bool
same_elements eq xs ys =
    length xs == length ys && all (λ x. any (eq x) ys) xs && all (λ y. any (eq y) xs) ys

-- the order of columns and keys does not matter
abbrev pub table_eq : Table → Table → Bool
table_eq a b =
    str_eq a.name b.name
    && same_elements column_eq a.columns b.columns
    && same_elements key_eq a.foreign_keys b.foreign_keys
    && str_eq a.primary_key b.primary_key
    && same_elements str_eq a.unique b.unique

abbrev pub are_same_tables : List Table → List Table → Bool
are_same_tables = same_elements table_eq

-- the tables as `create_table` leaves them
abbrev onto : List Table → Schema → Schema
onto [] s = s
onto (t ∷ ts) s = onto ts (t ∷ s)

created_lem :
    (ts : List Table) (s s' : Schema) → run (map create_table ts) s ≡ some s' → s' ≡ onto ts s
unfolding run
created_lem [] s s' e = ground arith
created_lem (t ∷ ts) s s' e = elim (Option-cases (apply (create_table t) s)) [
  | inl gone ↦ absurd (none_lem _ (run (map create_table ts)) e gone)
  | inr (s1, made) ↦
      let (gone, known, same) = create_lem t s s1 made in
      created_lem ts (t ∷ s) s' (
        ap (run (map create_table ts)) (sym same)
        ∙ ap (λ o. after_op o (run (map create_table ts))) (sym made)
        ∙ e)
]

abbrev tables_or_none : Option Schema → Schema
tables_or_none none = []
tables_or_none (some s) = s

-- the tables of the head
abbrev pub head_tables : Schema
head_tables = tables_or_none (run checkout_upgrade (onto baseline_tables []))

head_lem : (s : Schema) → run checkout_upgrade (onto baseline_tables s) ≡ some (head_tables ++ s)
unfolding run apply change_table
head_lem s = refl

head_same : are_same_tables head_tables model_tables ≡ true
unfolding run apply change_table
head_same = refl

-- Whatever schema both migrations run on, they add the tables of the mappings to it, each with the
-- columns, types, keys and constraints of its mapping, and change no other.
pub upgrade-model_tables :
    (s s' : Schema)
    → run upgrade_head s ≡ some s'
    → (new : Schema) × (s' ≡ new ++ s) × (are_same_tables new model_tables ≡ true)
upgrade-model_tables s s' e =
    let split = sym (run-append baseline_upgrade checkout_upgrade s) ∙ e in
    elim (Option-cases (run baseline_upgrade s)) [
      | inl stopped ↦ absurd (none_lem _ (run checkout_upgrade) split stopped)
      | inr (s1, based) ↦
          let there = created_lem baseline_tables s s1 based in
          let last = ap (λ o. after_op o (run checkout_upgrade)) (sym based) ∙ split in
          let both = sym last ∙ ap (run checkout_upgrade) there ∙ head_lem s in
          (head_tables, ground arith, head_same)
    ]
