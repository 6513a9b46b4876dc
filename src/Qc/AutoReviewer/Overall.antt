-- ===== src/Qc/AutoReviewer/Overall.antt =====
-- The weighted score of src/factory/qc/auto_reviewer.py.
use human_data.Qc.AutoReviewer.{weigh, weight_of, weighted_overall, mean}
use human_data.Prelude.{List, ℕ, All, ◌≤◌, ◌*◌, ◌∷◌, ◌+◌, [], arith, Bool, ◌≡◌, suc, zero, sum_of}
use human_data.Rubrics.{Criterion, Rubric}
use human_data.Config.{CriterionScore, Env}
use human_data.Rounding.{div_round_bounds}

-- both sums grow by rows within the bounds
weigh_bounds :
    (criteria : List Criterion) (lo hi acc total : ℕ) (rows : List CriterionScore)
    → All (λ row. (lo ≤ row.score) × (row.score ≤ hi)) rows
    → total * lo ≤ acc
    → acc ≤ total * hi
    → let (acc', total') = weigh criteria (acc, total) rows in
      (total' * lo ≤ acc') × (acc' ≤ total' * hi)
unfolding weigh
weigh_bounds criteria lo hi acc total [] h l u = (l, u)
weigh_bounds criteria lo hi acc total (row ∷ rows) h l u =
    weigh_bounds criteria lo hi (acc + weight_of criteria row * row.score)
      (total + weight_of criteria row) rows h.1 (grind (arith, h.0)) (grind (arith, h.0))

mean_bounds :
    (up : ℕ → ℕ → Bool) (lo hi acc total : ℕ)
    → 1 ≤ total
    → total * (10 * lo) ≤ acc
    → acc ≤ total * (10 * hi)
    → (10 * lo ≤ mean up (acc, total)) × (mean up (acc, total) ≤ 10 * hi)
mean_bounds up lo hi acc zero some_weight l u = absurd (omega arith)
mean_bounds up lo hi acc (suc t) some_weight l u =
    let (a, b) =
      div_round_bounds up acc (10 * suc t) lo hi (omega arith) (omega arith) (omega arith) in
    ground arith

weigh_total :
    (criteria : List Criterion) (acc total : ℕ) (rows : List CriterionScore)
    → (weigh criteria (acc, total) rows).1 ≡ total + sum_of (weight_of criteria) rows
unfolding weigh
weigh_total criteria acc total [] = omega arith
weigh_total criteria acc total (row ∷ rows) = omega (
  arith,
  weigh_total criteria (acc + weight_of criteria row * row.score) (total + weight_of criteria row)
      rows,
)

-- Whatever the rubric and the rounding, where some row names a criterion with a weight, scores that
-- lie between two whole thousandths have an overall between them.
pub weighted_overall_bounds :
    (env : Env) (rubric : Rubric) (lo hi : ℕ) (rows : List CriterionScore)
    → All (λ row. (10 * lo ≤ row.score) × (row.score ≤ 10 * hi)) rows
    → 1 ≤ sum_of (weight_of rubric.criteria) rows
    → (10 * lo ≤ weighted_overall env rubric rows) × (weighted_overall env rubric rows ≤ 10 * hi)
unfolding weighted_overall
weighted_overall_bounds env rubric lo hi rows h some_weight =
    let (l, u) =
      weigh_bounds rubric.criteria (10 * lo) (10 * hi) 0 0 rows h (omega arith) (omega arith) in
    mean_bounds env.rounds_up lo hi (weigh rubric.criteria (0, 0) rows).0
      (weigh rubric.criteria (0, 0) rows).1
      (omega (arith, weigh_total rubric.criteria 0 0 rows, some_weight)) l u
