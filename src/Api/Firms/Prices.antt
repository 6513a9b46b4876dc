-- ===== src/Api/Firms/Prices.antt =====
-- `create_rate_card` of src/factory/api/main.py and the price of a record in
-- src/factory/billing/service.py.
use human_data.Model.Entities.{Ident, RateCard}
use human_data.Model.Enums.{TaskType, task_type_eq}
use human_data.Api.Firms.{retire_cards, RateCardIn, create_rate_card, replace_card}
use human_data.Prelude.{
  Option, List, select, opt_eq, some, ◌≡◌, ◌&&◌, [], false, ◌∷◌, refl, arith, none, true, ap,
  ==_iff, Bool, ◌++◌, ◌==◌, ==_self, append-nil, not, ltb, ap₂, subst, if◌then◌else◌, opt_eq-some,
  opt_eq-sym, Bool-cases, inl, ◌∙◌, inr, length, ◌≤◌,
}
use human_data.Billing.Metering.{is_card_for, resolve_unit_price_cents}
use human_data.Store.{Db, ok}
use human_data.Config.{Env}
use human_data.Audit.{record_event}
use human_data.Auth.{Credentials}
use human_data.Store.Ensures.{Ensures, Ensures-ok, Ensures-guard}
use human_data.Api.Lookups.{Ensures-role, Ensures-get}
use human_data.Api.{admin_only}
use human_data.Billing.Invoicing.{firm_ref}
use human_data.Store.Rows.{find-id}

pub task_type_eq-path : (a b : TaskType) → task_type_eq a b ≡ true → a ≡ b
task_type_eq-path a b h = ground arith

task_type_eq_self : (a : TaskType) → task_type_eq a a ≡ true
task_type_eq_self a = ground arith

task_type_eq-sym : (a b : TaskType) → task_type_eq a b ≡ task_type_eq b a
task_type_eq-sym a b = ground arith

and_false : (a b c : Bool) → (a && b) ≡ false → (a && b && c) ≡ false
and_false a b c h = ground arith

-- A card that is not in use is nobody's.
is_card_for-inactive :
    (scope : Option Ident) (t : TaskType) (card : RateCard)
    → is_card_for scope t (record card { active = false }) ≡ false
is_card_for-inactive scope t card = ground arith

-- A card is for one firm and one type only.
is_card_for-other :
    (scope : Option Ident) (t : TaskType) (firm_id : Ident) (task_type : TaskType) (card : RateCard)
    → (opt_eq scope (some firm_id) && task_type_eq t task_type) ≡ false
    → is_card_for (some firm_id) task_type card ≡ true
    → is_card_for scope t card ≡ false
is_card_for-other scope t firm_id task_type card h k =
    let of_firm : card.firm_id ≡ some firm_id = opt_eq-some card.firm_id firm_id (ground arith) in
    let of_type : card.task_type ≡ task_type =
      task_type_eq-path card.task_type task_type (ground arith) in
    rw (
      of_firm,
      of_type,
      opt_eq-sym (some firm_id) scope,
      task_type_eq-sym task_type t,
      and_false (opt_eq scope (some firm_id)) (task_type_eq t task_type) card.active h,
    )

module _ (firm_id : Ident) (task_type : TaskType) where
  -- no card of the firm and the type stays active
  select-retired :
      (cards : List RateCard)
      → select (is_card_for (some firm_id) task_type) (retire_cards firm_id task_type cards) ≡ []
  unfolding retire_cards
  select-retired [] = refl
  select-retired (card ∷ cards) = ground (arith, select-retired cards)

  -- the cards of another scope stay
  select-retired_other :
      (scope : Option Ident) (t : TaskType) (cards : List RateCard)
      → (opt_eq scope (some firm_id) && task_type_eq t task_type) ≡ false
      → select (is_card_for scope t) (retire_cards firm_id task_type cards)
        ≡ select (is_card_for scope t) cards
  unfolding retire_cards
  select-retired_other scope t [] h = refl
  select-retired_other scope t (card ∷ cards) h = ground (
    arith,
    select-retired_other scope t cards h,
    is_card_for-inactive scope t card,
    is_card_for-other scope t firm_id task_type card h,
  )

select-append :
    {A : Type 0} (p : A → Bool) (xs ys : List A) → select p (xs ++ ys) ≡ select p xs ++ select p ys
select-append p [] ys = refl
select-append p (x ∷ xs) ys = ground (arith, select-append p xs ys)

-- the cards that `replace_card` leaves
abbrev pub IsReplaced : List RateCard → Ident → RateCardIn → List RateCard → Type 0
IsReplaced old firm_id body cards =
    (card : RateCard) × (cards ≡ retire_cards firm_id body.task_type old ++ card ∷ [])
    × (card.firm_id ≡ some firm_id)
    × (card.task_type ≡ body.task_type)
    × (card.unit_price_cents ≡ body.unit_price_cents)
    × (card.active ≡ true)

module _ (db : Db) (firm_id : Ident) (body : RateCardIn) (cards : List RateCard) where
  pub only-replaced :
      IsReplaced db.rate_cards firm_id body cards
      → length (select (is_card_for (some firm_id) body.task_type) cards) ≤ 1
  only-replaced (card, same, of_firm, of_type, price, active) =
      rw
        (
          same,
          select-append (is_card_for (some firm_id) body.task_type)
              (retire_cards firm_id body.task_type db.rate_cards) (card ∷ []),
          select-retired firm_id body.task_type db.rate_cards,
          of_firm,
          of_type,
          active,
          ==_self firm_id,
          task_type_eq_self body.task_type,
        )
        (omega arith)

  resolve-replaced :
      (env : Env)
      → IsReplaced db.rate_cards firm_id body cards
      → resolve_unit_price_cents env cards firm_id body.task_type ≡ body.unit_price_cents
  unfolding resolve_unit_price_cents
  resolve-replaced env (card, same, of_firm, of_type, price, active) = rw (
    same,
    select-append (is_card_for (some firm_id) body.task_type)
        (retire_cards firm_id body.task_type db.rate_cards) (card ∷ []),
    select-retired firm_id body.task_type db.rate_cards,
    of_firm,
    of_type,
    active,
    ==_self firm_id,
    task_type_eq_self body.task_type,
    price,
  )

  pub select-replaced :
      (scope : Option Ident) (t : TaskType)
      → IsReplaced db.rate_cards firm_id body cards
      → (opt_eq scope (some firm_id) && task_type_eq t body.task_type) ≡ false
      → select (is_card_for scope t) cards ≡ select (is_card_for scope t) db.rate_cards
  select-replaced scope t (card, same, of_firm, of_type, price, active) h =
      let used : is_card_for (some firm_id) body.task_type card ≡ true =
        rw (of_firm, of_type, active, ==_self firm_id, task_type_eq_self body.task_type) in
      rw (
        same,
        select-append (is_card_for scope t) (retire_cards firm_id body.task_type db.rate_cards)
            (card ∷ []),
        select-retired_other firm_id body.task_type scope t db.rate_cards h,
        is_card_for-other scope t firm_id body.task_type card h used,
        append-nil (select (is_card_for scope t) db.rate_cards),
      )

  resolve-replaced_other :
      (env : Env) (other : Ident) (t : TaskType)
      → IsReplaced db.rate_cards firm_id body cards
      → (other == firm_id && task_type_eq t body.task_type) ≡ false
      → resolve_unit_price_cents env cards other t
        ≡ resolve_unit_price_cents env db.rate_cards other t
  unfolding resolve_unit_price_cents
  resolve-replaced_other env other t r h =
      rw (select-replaced (some other) t r h, select-replaced none t r refl)

IsReplaced-moved :
    (old old' : List RateCard) (id id' : Ident) (body : RateCardIn) (cards : List RateCard)
    → old ≡ old'
    → id ≡ id'
    → IsReplaced old id body cards
    → IsReplaced old' id' body cards
IsReplaced-moved old old' id id' body cards p q r =
    subst (λ o. IsReplaced o id' body cards) p (subst (λ i. IsReplaced old i body cards) q r)

create_rate_card-IsReplaced :
    (env : Env) (credentials : Credentials) (firm_id : Ident) (body : RateCardIn) (db : Db)
    → Ensures
        (create_rate_card env credentials firm_id body)
        db
        (λ out db'. IsReplaced db.rate_cards firm_id body db'.rate_cards)
unfolding create_rate_card replace_card record_event
create_rate_card-IsReplaced env credentials firm_id body db =
    Ensures-role env credentials admin_only _ (λ actor db1 role same.
      Ensures-guard (not (ltb 0 body.unit_price_cents)) _ _ (λ positive.
        Ensures-get firm_ref (λ db. db.firms) firm_id _
          (λ firm found. record {
            at =
                IsReplaced-moved db1.rate_cards db.rate_cards firm.id firm_id body _
                  (ap (λ (d : Db). d.rate_cards) same) (find-id firm_ref firm_id db1.firms found)
                  (_, refl, refl, refl, refl, refl);
          })))

-- When a rate card has been created for a firm and a task type, records of that firm and type are
-- metered at its price, and every other pair of a firm and a type keeps the price it had.
pub create_rate_card-resolve_unit_price_cents :
    (env : Env) (credentials : Credentials) (firm_id other : Ident) (body : RateCardIn)
    (t : TaskType) (db db' : Db) (out : RateCard)
    → create_rate_card env credentials firm_id body db ≡ ok (out, db')
    → resolve_unit_price_cents env db'.rate_cards other t ≡ (
        if other == firm_id && task_type_eq t body.task_type
        then body.unit_price_cents
        else resolve_unit_price_cents env db.rate_cards other t)
create_rate_card-resolve_unit_price_cents env credentials firm_id other body t db db' out e =
    let r = Ensures-ok (create_rate_card-IsReplaced env credentials firm_id body db) e in
    elim (Bool-cases (other == firm_id && task_type_eq t body.task_type)) [
      | inl same ↦
          let firm : other ≡ firm_id = (==_iff other firm_id).0 (ground arith) in
          let type : t ≡ body.task_type = task_type_eq-path t body.task_type (ground arith) in
          let price = resolve-replaced db firm_id body db'.rate_cards env r in
          ap₂ (λ f t. resolve_unit_price_cents env db'.rate_cards f t) firm type ∙ price ∙ rw same
      | inr differ ↦
          resolve-replaced_other db firm_id body db'.rate_cards env other t r differ ∙ rw differ
    ]
