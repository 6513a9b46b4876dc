-- ===== src/Factory/Registry.antt =====
-- The users and the rate cards over any sequence of requests and commands.
use human_data.Api.Accounts.{add_user, deactivate, bootstrap, BootstrapIn}
use human_data.Config.{Env}
use human_data.Model.Entities.{
  Ident, UsageEvent, Principal, User, Project, Task, Submission, RateCard,
}
use human_data.Api.Firms.{replace_card, RateCardIn}
use human_data.Store.{Db, put, modify, new_id, Action, err, http}
use human_data.Prelude.{
  ◌<◌, List, subst, length, arith, select, String, sym, length-append, ◌≡◌, ◌∷◌, some, ◌∷◌, ◌≤◌, [],
  refl, Option, false, none, ◌+◌, Bool-cases, ◌==◌, ◌&&◌, inl, ==_iff, inr,
}
use human_data.Audit.{record_event}
use human_data.Billing.Invariant.{Invariant}
use human_data.Model.Enums.{TaskType, task_type_eq}
use human_data.Store.Keeps.{Keeps, Keeps-pure, keeps_rules}
use human_data.Api.Kept.{Registers}
use human_data.Model.Json.{Fields}
use human_data.Billing.Metering.{is_card_for, record_approved_record, meter, unless_metered}
use human_data.Api.{user_ref}
use human_data.Export.Materialize.{Outside}
use human_data.Factory.{Reach}
use human_data.Api.Firms.Prices.{IsReplaced, task_type_eq-path, only-replaced, select-replaced}
use human_data.Factory.Reachable.{Reach-Keeps}

-- no firm has two cards in use for one type of task
abbrev pub HasOneCard : Db → Type 0
HasOneCard db =
    (firm_id : Ident) (t : TaskType)
    → length (select (is_card_for (some firm_id) t) db.rate_cards) ≤ 1

abbrev pub HasUsers : Db → Type 0
HasUsers db = 0 < length db.users

-- A predicate that reads only the cards and the users.
module _ (env : Env) (P : Db → Type 0)
    (write : (f : Db → Db)
      → ((db : Db) → (f db).rate_cards ≡ db.rate_cards)
      → ((db : Db) → (f db).users ≡ db.users)
      → Keeps P (modify f)) where
  write-P :
      (f : Db → Db)
      → ((db : Db) → (f db).rate_cards ≡ db.rate_cards)
      → ((db : Db) → (f db).users ≡ db.users)
      → Keeps P (modify f)
  write-P = write

  new_id-P : Keeps P new_id
  new_id-P = record {
    at = (write (λ db. record db { next_id = db.next_id + 1 }) (λ db. refl) (λ db. refl)).at;
  }

  record_event-P :
      (actor : Principal) (action entity_type : String) (entity_id : Ident) (payload : Fields)
      → Keeps P (record_event env actor action entity_type entity_id payload)
  unfolding record_event
  record_event-P actor action entity_type entity_id payload = write-P _ (λ db. refl) (λ db. refl)

  meter-P :
      (project : Project) (task : Task) (sub : Submission) → Keeps P (meter env project task sub)
  unfolding meter
  meter-P project task sub = search (keeps_rules, new_id-P, record_event-P, write-P) depth 24

  unless_metered-P :
      (existing : Option UsageEvent) (rest : Action (Option UsageEvent))
      → Keeps P rest
      → Keeps P (unless_metered existing rest)
  unless_metered-P none rest k = k
  unless_metered-P (some ev) rest k = Keeps-pure none

  metering-P :
      (project : Project) (task : Task) (sub : Submission)
      → Keeps P (record_approved_record env project task sub)
  unfolding record_approved_record
  metering-P project task sub = search (keeps_rules, unless_metered-P, meter-P) depth 24

  registry_invariant : Invariant env P
  registry_invariant = record {
    keeps_new_id = new_id-P;
    keeps_record_event = record_event-P;
    keeps_write = λ f trail usage cards users. write f cards users;
    keeps_metering = metering-P;
    keeps_attach = λ id due. write-P _ (λ db. refl) (λ db. refl);
    keeps_tick =
        λ moment db h. (write (λ d. record d { clock = moment }) (λ d. refl) (λ d. refl)).at db h;
  }

HasOneCard-Invariant : (env : Env) → Invariant env HasOneCard
HasOneCard-Invariant env = registry_invariant env HasOneCard (λ f cards users. record {
  at = λ db h firm_id t.
      subst (λ (cs : List RateCard). length (select (is_card_for (some firm_id) t) cs) ≤ 1)
        (sym (cards db)) (h firm_id t);
})

HasUsers-Invariant : (env : Env) → Invariant env HasUsers
HasUsers-Invariant env = registry_invariant env HasUsers (λ f cards users. record {
  at = λ db h. subst (λ (us : List User). 0 < length us) (sym (users db)) h;
})

length-put :
    {A : Type 0} (id_of : A → Ident) (a : A) (xs : List A) → length (put id_of a xs) ≡ length xs
length-put id_of a [] = refl
length-put id_of a (x ∷ xs) = omega (arith, length-put id_of a xs)

HasUsers-Registers : Registers HasUsers
unfolding replace_card add_user deactivate
HasUsers-Registers = record {
  keeps_replace_card = λ firm_id body. record { at = λ db h. h };
  keeps_add_user = λ name email role firm_id expert_id. record {
    at = λ db h. omega (arith, length-append db.users (_ ∷ []), h);
  };
  keeps_deactivate = λ user. record {
    at = λ db h. omega (arith, length-put user_ref (record user { active = false }) db.users, h);
  };
}

-- The new card is the only one of its firm and type, and the cards of the others stay.
replaced-HasOneCard :
    (db : Db) (firm_id : Ident) (body : RateCardIn) (cards : List RateCard)
    → HasOneCard db
    → IsReplaced db.rate_cards firm_id body cards
    → (other : Ident) (t : TaskType) → length (select (is_card_for (some other) t) cards) ≤ 1
replaced-HasOneCard db firm_id body cards h r other t =
    elim (Bool-cases (other == firm_id && task_type_eq t body.task_type)) [
      | inl same ↦
          let firm : other ≡ firm_id = (==_iff other firm_id).0 (ground arith) in
          let type : t ≡ body.task_type = task_type_eq-path t body.task_type (ground arith) in
          let one = only-replaced db firm_id body cards r in rw (firm, type) one
      | inr differ ↦
          subst (λ (cs : List RateCard). length cs ≤ 1)
            (sym (select-replaced db firm_id body cards (some other) t r differ)) (h other t)
    ]

HasOneCard-Registers : Registers HasOneCard
unfolding add_user deactivate replace_card
HasOneCard-Registers = record {
  keeps_replace_card = λ firm_id body. record {
    at = λ db h other t.
        replaced-HasOneCard db firm_id body _ h (_, refl, refl, refl, refl, refl) other t;
  };
  keeps_add_user = λ name email role firm_id expert_id. record { at = λ db h. h };
  keeps_deactivate = λ user. record { at = λ db h. h };
}

-- Whatever requests are served and commands run, in whatever order: if no firm had two active cards for one type of
-- task, none ever has.
pub Reach-HasOneCard :
    (env : Env) (outside : Outside) (a b : Db) → HasOneCard a → Reach env outside a b → HasOneCard b
Reach-HasOneCard env outside a b one steps =
    Reach-Keeps env outside HasOneCard (HasOneCard-Invariant env) HasOneCard-Registers a b one steps

-- Once there is a user, `bootstrap` never again makes an administrator, whatever requests are
-- served and commands run in between: it ends in 409.
pub Reach-bootstrap :
    (env : Env) (outside : Outside) (a b : Db) (body : BootstrapIn) (secret : String)
    → HasUsers a
    → Reach env outside a b
    → bootstrap env body secret b ≡ err (http 409)
unfolding bootstrap
Reach-bootstrap env outside a b body secret users steps =
    let still : HasUsers b =
      Reach-Keeps env outside HasUsers (HasUsers-Invariant env) HasUsers-Registers a b users
        steps in
    ground arith
