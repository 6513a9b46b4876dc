-- ===== src/Api/Experts.antt =====
-- The experts and their exams in src/factory/api/main.py.
use human_data.Prelude.{
  String, Bool, List, ℕ, str_eq, true, select, ltb, is_some, leb, ◌++◌, ◌∷◌, [],
}
use human_data.Model.Enums.{DomainTrack, ExpertStatus, qualified, pending, track_value}
use human_data.Model.Entities.{Score, Ident, Expert, Qualification, ident}
use human_data.Config.{Env}
use human_data.Auth.{Credentials, require_roles}
use human_data.Controls.{sampling_rate}
use human_data.Store.{
  Action, ◌>>=◌, ◌>>◌, raise_if, gets, pure, http, one_or_none, new_id, modify, put,
}
use human_data.Api.{internal, get_expert_or_404}
use human_data.Audit.{record_event}
use human_data.Model.Json.{field, text, end, real, bool}
use human_data.Prelude.Int.{pos}
use human_data.Qc.Rows.{expert_ref}

pub record ExpertIn : Type 0 where
  pub name : String
  pub email : String
  pub credentials : List String
  pub is_reviewer : Bool

pub record ExamIn : Type 0 where
  pub track : DomainTrack
  pub exam_score : Score

pub record ExamOut : Type 0 where
  pub qualification_id : Ident
  pub passed : Bool
  pub expert_status : ExpertStatus

-- `_expert_out`: the row, less its moment, and the sampling rate
pub record ExpertOut : Type 0 where
  pub id : Ident
  pub name : String
  pub email : String
  pub credentials : List String
  pub status : ExpertStatus
  pub is_reviewer : Bool
  pub quality_score : Score
  pub approved_count : ℕ
  pub gold_pass_count : ℕ
  pub gold_fail_count : ℕ
  pub human_review_sampling_rate : ℕ

abbrev pub expert_out : Env → Expert → ExpertOut
expert_out env ex = record {
  id = ex.id;
  name = ex.name;
  email = ex.email;
  credentials = ex.credentials;
  status = ex.status;
  is_reviewer = ex.is_reviewer;
  quality_score = ex.quality_score;
  approved_count = ex.approved_count;
  gold_pass_count = ex.gold_pass_count;
  gold_fail_count = ex.gold_fail_count;
  human_review_sampling_rate = sampling_rate env.settings ex;
}

-- `EXAM_PASS_SCORE`, and the greatest score
abbrev pub exam_pass_score : Score
exam_pass_score = 850000

abbrev pub max_exam_score : Score
max_exam_score = 1000000

abbrev expert_has_email : String → Expert → Bool
expert_has_email email ex = str_eq ex.email email

unfoldable pub create_expert : Env → Credentials → ExpertIn → Action ExpertOut
create_expert env credentials body = do
  actor ← require_roles env credentials internal
  rows ← gets (λ db. select (expert_has_email body.email) db.experts)
  registered ← one_or_none rows
  raise_if (is_some registered) (http 409)
  id ← new_id
  now ← gets (λ db. db.clock)
  let ex : Expert = record {
    id = id;
    name = body.name;
    email = body.email;
    credentials = body.credentials;
    status = pending;
    is_reviewer = body.is_reviewer;
    quality_score = 35000;
    approved_count = 0;
    gold_pass_count = 0;
    gold_fail_count = 0;
    created_at = now;
  }
  modify (λ db. record db { experts = db.experts ++ ex ∷ [] })
  record_event env (ident actor.id) "expert.created" "expert" ex.id
      (field "email" (text body.email) end)
  pure (expert_out env ex)

-- a PENDING expert who passes is QUALIFIED
abbrev pub after_exam : Bool → ExpertStatus → ExpertStatus
after_exam true pending = qualified
after_exam _ status = status

unfoldable pub record_exam : Env → Credentials → Ident → ExamIn → Action ExamOut
record_exam env credentials expert_id body = do
  actor ← require_roles env credentials internal
  raise_if (ltb max_exam_score body.exam_score) (http 422)
  ex ← get_expert_or_404 expert_id
  let passed = leb exam_pass_score body.exam_score
  id ← new_id
  now ← gets (λ db. db.clock)
  let q : Qualification = record {
    id = id;
    expert_id = ex.id;
    track = body.track;
    exam_score = body.exam_score;
    passed = passed;
    granted_at = now;
  }
  modify (λ db. record db { qualifications = db.qualifications ++ q ∷ [] })
  let examined = record ex { status = after_exam passed ex.status }
  modify (λ db. record db { experts = put expert_ref examined db.experts })
  record_event env (ident actor.id) "expert.exam_recorded" "expert" ex.id (
      field "track" (text (track_value body.track))
        (field "score" (real (pos body.exam_score)) (field "passed" (bool passed) end)))
  pure (record { qualification_id = id; passed = passed; expert_status = examined.status })

unfoldable pub get_expert : Env → Credentials → Ident → Action ExpertOut
get_expert env credentials expert_id = do
  require_roles env credentials internal
  ex ← get_expert_or_404 expert_id
  pure (expert_out env ex)
