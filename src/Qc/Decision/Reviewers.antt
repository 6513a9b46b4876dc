-- ===== src/Qc/Decision/Reviewers.antt =====
-- `human_review` of src/factory/qc/engine.py: who may decide.
use human_data.Model.Entities.{Submission, Expert, Review}
use human_data.Config.{Env, CriterionScore}
use human_data.Model.Enums.{Verdict, human_review, qualified, is_human_review}
use human_data.Prelude.{◌≡◌, List, ◌≢◌, true, String, inl, subst, not, arith, sym, inr}
use human_data.Store.{Db, ok, not_in_human_review}
use human_data.Store.Ensures.{
  Ensures, Ensures-bind, Ensures-ok, Ensures-raise_if, Post, Ensures-then, Ensures-pure,
}
use human_data.Controls.{assert_reviewer_independent}
use human_data.Controls.Gating.{assert_reviewer_independent_iff}
use human_data.Qc.Decision.{review_by_human}

independent_lem :
    (sub : Submission) (reviewer : Expert) (db : Db)
    → Ensures (assert_reviewer_independent sub reviewer) db (λ u after.
      (reviewer.id ≢ sub.expert_id) × (reviewer.is_reviewer ≡ true) × (reviewer.status ≡ qualified))
independent_lem sub reviewer db =
    let (iff, cases) = assert_reviewer_independent_iff sub reviewer db in
    let Q : Unit {0} → Db → Type 0 = λ u after.
      (reviewer.id ≢ sub.expert_id)
      × (reviewer.is_reviewer ≡ true)
      × (reviewer.status ≡ qualified) in
    record {
      at = elim cases [
        | inl e ↦ subst (Post Q) (sym e) (iff.0 e)
        | inr e ↦ subst (Post Q) (sym e) tt
      ];
    }

-- the submission waits, and the reviewer may decide on it
abbrev pub MayDecide : Submission → Expert → Type 0
MayDecide sub reviewer =
    (sub.status ≡ human_review)
    × (reviewer.id ≢ sub.expert_id)
    × (reviewer.is_reviewer ≡ true)
    × (reviewer.status ≡ qualified)

review_by_human_lem :
    (env : Env) (sub : Submission) (reviewer : Expert) (verdict : Verdict)
    (criterion_scores : List CriterionScore) (comments : String) (db : Db)
    → Ensures
        (review_by_human env sub reviewer verdict criterion_scores comments)
        db
        (λ r after. MayDecide sub reviewer)
unfolding review_by_human
review_by_human_lem env sub reviewer verdict criterion_scores comments db =
    Ensures-bind (λ u d. is_human_review sub.status ≡ true)
      (Ensures-raise_if (not (is_human_review sub.status)) not_in_human_review (λ h. ground arith))
      λ u d waits.
        Ensures-bind
          (λ u d.
            (reviewer.id ≢ sub.expert_id)
            × (reviewer.is_reviewer ≡ true)
            × (reviewer.status ≡ qualified))
          (independent_lem sub reviewer d)
          λ u' d' may.
            let decide : MayDecide sub reviewer = ground (arith, may) in
            search (Ensures-then, Ensures-pure, decide) depth 16

-- A submission that a human reviewed was waiting for it, and the reviewer is not its author, has the
-- reviewer's role and is qualified.
pub review_by_human-MayDecide :
    (env : Env) (sub : Submission) (reviewer : Expert) (verdict : Verdict)
    (criterion_scores : List CriterionScore) (comments : String) (db after : Db) (r : Review)
    → review_by_human env sub reviewer verdict criterion_scores comments db ≡ ok (r, after)
    → MayDecide sub reviewer
review_by_human-MayDecide env sub reviewer verdict criterion_scores comments db after r e =
    Ensures-ok (review_by_human_lem env sub reviewer verdict criterion_scores comments db) e
