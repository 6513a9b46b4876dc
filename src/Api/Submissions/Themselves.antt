-- ===== src/Api/Submissions/Themselves.antt =====
-- `create_submission` and `post_human_review` of src/factory/api/main.py: for whom an actor acts.
use human_data.Model.Enums.{Role, expert, reviewer, role_eq}
use human_data.Api.Submissions.{
  create_submission, post_human_review, is_other, SubmissionIn, HumanReviewIn,
}
use human_data.Config.{Env}
use human_data.Auth.{Credentials, Actor}
use human_data.Model.Entities.{Ident}
use human_data.Store.{Db, http}
use human_data.Prelude.{
  List, ◌≡◌, false, some, ◌≢◌, ◌⊎◌, Bool-cases, inl, inr, opt_eq-some, opt_eq-sym, ◌∙◌, arith,
}
use human_data.Auth.Access.{IsAuthorised, role_eq_self}
use human_data.Store.Ensures.{Ensures, Ensures-guard, Ensures-const}
use human_data.Api.{submit_roles, review_roles}
use human_data.Api.Lookups.{Ensures-actor}

-- The actor is authorised, and if they have the role, the expert is their own.
abbrev pub ActsFor : Env → Credentials → List Role → Role → Ident → Db → Type 0
ActsFor env credentials allowed role expert_id db =
    (actor : Actor) × IsAuthorised env credentials allowed db actor
    × ((actor.role ≢ role) ⊎ (actor.expert_id ≡ some expert_id))

not_other :
    (role : Role) (id : Ident) (actor : Actor)
    → is_other role id actor ≡ false
    → (actor.role ≢ role) ⊎ (actor.expert_id ≡ some id)
not_other role id actor h = elim (Bool-cases (role_eq actor.role role)) [
  | inl same ↦
      inr (opt_eq-some actor.expert_id id (opt_eq-sym actor.expert_id (some id) ∙ ground arith))
  | inr differ ↦ inl (λ same. ground (arith, role_eq_self role))
]

-- Where authentication is on: a submission is made by staff, or by an expert as themselves, and a
-- review by staff, or by a reviewer as themselves.
pub submitted_by_themselves :
    (env : Env) (credentials : Credentials) (task_id id : Ident) (sent : SubmissionIn)
    (given : HumanReviewIn) (db : Db)
    → env.settings.auth_disabled ≡ false
    → Ensures
        (create_submission env credentials task_id sent)
        db
        (λ out db'. ActsFor env credentials submit_roles expert sent.expert_id db)
      × Ensures
          (post_human_review env credentials id given)
          db
          (λ out db'. ActsFor env credentials review_roles reviewer given.reviewer_id db)
unfolding create_submission post_human_review
submitted_by_themselves env credentials task_id id sent given db on = (
  Ensures-actor env credentials submit_roles _ on (λ actor db1 who same.
      Ensures-guard (is_other expert sent.expert_id actor) (http 403) _
        (λ own. Ensures-const _ (actor, who, not_other expert sent.expert_id actor own))),
  Ensures-actor env credentials review_roles _ on (λ actor db1 who same.
      Ensures-guard (is_other reviewer given.reviewer_id actor) (http 403) _
        (λ own. Ensures-const _ (actor, who, not_other reviewer given.reviewer_id actor own))),
)
