-- ===== src/Controls.antt =====
-- src/factory/controls.py: the six control policies. A function that changes an expert gives
-- the changed row; the caller writes it back.
pub mod Scores
pub mod Sampling
pub mod Gating
pub mod Gold
use human_data.Model.Enums.{
  pending, suspended, sft, preference, eval, DomainTrack, track_eq, is_qualified,
}
use human_data.Prelude.{
  ℕ, Bool, ◌*◌, ltb, ◌==◌, ◌+◌, ◌&&◌, ◌-◌, if◌then◌else◌, leb, not, ◌||◌, select, is_some,
}
use human_data.Config.{Settings, Env}
use human_data.Model.Entities.{Submission, Score, Expert, Ident, Qualification}
use human_data.Store.{
  Action, raise_if, control_violation, c6, ◌>>◌, c2, c1, ◌>>=◌, gets, one_or_none,
}
use human_data.Rounding.{div_round}

-- `SUSPEND_BELOW` and `GOLD_SUSPEND_FAILS`
abbrev pub suspend_below : Score
suspend_below = 20000

abbrev pub gold_suspend_fails : ℕ
gold_suspend_fails = 3

-- qualification

abbrev pub holds_track : Ident → DomainTrack → Qualification → Bool
holds_track expert_id track q = q.expert_id == expert_id && track_eq q.track track && q.passed

unfoldable pub assert_qualified : Expert → DomainTrack → Action Unit
assert_qualified expert track = do
  raise_if (not (is_qualified expert.status)) (control_violation c1)
  rows ← gets (λ db. select (holds_track expert.id track) db.qualifications)
  q ← one_or_none rows
  raise_if (not (is_some q)) (control_violation c1)

-- independence of the reviewer

unfoldable pub assert_reviewer_independent : Submission → Expert → Action Unit
assert_reviewer_independent submission reviewer = do
  raise_if (reviewer.id == submission.expert_id) (control_violation c2)
  raise_if (not reviewer.is_reviewer) (control_violation c2)
  raise_if (not (is_qualified reviewer.status)) (control_violation c2)

-- dual control of exports

unfoldable pub assert_export_dual_control : Ident → Ident → Action Unit
assert_export_dual_control requested_by approved_by =
    raise_if (requested_by == approved_by) (control_violation c6)

-- sampling

unfoldable pub sampling_rate : Settings → Expert → ℕ
sampling_rate settings expert =
    if ltb expert.approved_count 5
    then settings.sampling_new
    else (if leb settings.trusted_score expert.quality_score
          && leb settings.trusted_min_approved expert.approved_count
        then settings.sampling_trusted
        else settings.sampling_standard)

-- `0xFFFFFFFF`
abbrev pub prefix_max : ℕ
prefix_max = 4294967295

-- The quotient of the prefix by 0xFFFFFFFF is below the rate.
unfoldable pub is_sampled_for_human_review : Env → Ident → Expert → Bool
is_sampled_for_human_review env submission_id expert =
    ltb (env.id_prefix submission_id * 10000) (sampling_rate env.settings expert * prefix_max)

-- gold tasks, the score and suspension

maybe_suspend : Expert → Expert
maybe_suspend expert =
    if ltb expert.quality_score suspend_below || leb gold_suspend_fails expert.gold_fail_count
    then record expert { status = suspended }
    else expert

-- `round(a * review_score + (1 - a) * quality_score, 4)`
unfoldable pub ewma : Env → Score → Score → Score
ewma env review_score quality_score =
    let a = env.settings.score_ewma_alpha in
    div_round env.rounds_up (a * review_score + (10000 - a) * quality_score) 10000

unfoldable pub update_quality_score : Env → Expert → Score → Expert
unfolding maybe_suspend
update_quality_score env expert review_score =
    maybe_suspend (record expert { quality_score = ewma env review_score expert.quality_score })

-- `round(quality_score * gold_fail_penalty, 4)`
unfoldable pub penalised : Env → Score → Score
penalised env quality_score =
    div_round env.rounds_up (quality_score * env.settings.gold_fail_penalty) 10000

unfoldable pub register_gold_result : Env → Expert → Bool → Expert
unfolding maybe_suspend
register_gold_result env expert passed = maybe_suspend (
    if passed
    then record expert { gold_pass_count = expert.gold_pass_count + 1 }
    else record expert {
      gold_fail_count = expert.gold_fail_count + 1;
      quality_score = penalised env expert.quality_score;
    })
