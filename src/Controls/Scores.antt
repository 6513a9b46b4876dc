-- ===== src/Controls/Scores.antt =====
-- Gold tasks of src/factory/controls.py: the quality score and suspension.
use human_data.Model.Enums.{suspended}
use human_data.Config.{Env}
use human_data.Prelude.{ℕ, ◌≤◌, ◌*◌, ◌+◌, arith, ◌-◌, ◌≡◌, false, ◌↔◌, ◌⊎◌, ◌<◌}
use human_data.Controls.{
  ewma, register_gold_result, update_quality_score, penalised, gold_suspend_fails, suspend_below,
}
use human_data.Model.Entities.{Score, Expert}
use human_data.Rounding.{div_round_bounds}

-- the numerator of the moving average lies between the two scores
mean_bounds :
    (a b s q lo hi : ℕ)
    → a + b ≡ 10000
    → lo ≤ s
    → lo ≤ q
    → s ≤ hi
    → q ≤ hi
    → (lo * 10000 ≤ a * s + b * q) × (a * s + b * q ≤ hi * 10000)
mean_bounds a b s q lo hi ab ls lq sh qh = rw (← ab) (grind arith)

-- The new score lies between the old score and the review's, so scores that start within a range
-- and are reviewed within it stay there.
pub ewma_bounds :
    (env : Env) (s q lo hi : Score)
    → env.settings.score_ewma_alpha ≤ 10000
    → lo ≤ s
    → lo ≤ q
    → s ≤ hi
    → q ≤ hi
    → (lo ≤ ewma env s q) × (ewma env s q ≤ hi)
unfolding ewma
ewma_bounds env s q lo hi ha ls lq sh qh =
    let (l, h) =
      mean_bounds env.settings.score_ewma_alpha (10000 - env.settings.score_ewma_alpha) s q lo hi
        (omega arith) ls lq sh qh in
    div_round_bounds env.rounds_up _ 10000 lo hi (omega arith) l h

-- After a scored review the contributor is suspended exactly if they were, or the new score is
-- below 2.0, or three gold tasks have been missed; otherwise the status is the old one. Nothing
-- but the score and the status changes.
pub update_quality_score_lem :
    (env : Env) (expert : Expert) (s : Score)
    → let after = update_quality_score env expert s in
      let score = ewma env s expert.quality_score in
      ((after.status ≡ suspended) ↔ (
        (expert.status ≡ suspended)
        ⊎ (score < suspend_below)
        ⊎ (gold_suspend_fails ≤ expert.gold_fail_count)))
      × ((after.status ≡ suspended) ⊎ (after.status ≡ expert.status))
      × (after ≡ record expert { status = after.status; quality_score = score })
unfolding update_quality_score
update_quality_score_lem env expert s = ground arith

penalised-le :
    (env : Env) (q : Score) → env.settings.gold_fail_penalty ≤ 10000 → penalised env q ≤ q
unfolding penalised
penalised-le env q p =
    let fits : q * env.settings.gold_fail_penalty ≤ q * 10000 = grind arith in
    (div_round_bounds env.rounds_up (q * env.settings.gold_fail_penalty) 10000 0 q (omega arith)
      (omega arith) fits).1

-- With a penalty factor of at most 1, a missed gold task counts one failure and never raises the
-- score; after it the contributor is suspended exactly if they were, or the score is below 2.0, or
-- three gold tasks have been missed.
pub register_gold_result_fail :
    (env : Env) (expert : Expert)
    → env.settings.gold_fail_penalty ≤ 10000
    → let after = register_gold_result env expert false in
      (after.gold_fail_count ≡ expert.gold_fail_count + 1)
      × (after.quality_score ≤ expert.quality_score)
      × ((after.status ≡ suspended) ↔ (
          (expert.status ≡ suspended)
          ⊎ (after.quality_score < suspend_below)
          ⊎ (gold_suspend_fails ≤ after.gold_fail_count)))
unfolding register_gold_result
register_gold_result_fail env expert p = ground (arith, penalised-le env expert.quality_score)
