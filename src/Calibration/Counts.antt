-- ===== src/Calibration/Counts.antt =====
-- What the counts and the advice of src/factory/qc/calibration.py rest on.
use human_data.Calibration.{
  Bucket, count_all, count_pair, recommend, Rates, Pair, consider_lower, raise_sampling,
  calibration_report, rate, rates, empty_bucket, pairs,
}
use human_data.Prelude.{
  ◌≡◌, List, ◌+◌, ◌∷◌, arith, [], ◌≤◌, ℕ, some, Bool, length, ◌*◌, ◌↔◌, ◌<◌, Option, ◌∙◌, subst,
  select, refl, ◌&&◌, ◌||◌, not,
}
use human_data.Config.{Env}
use human_data.Rounding.{div_round}
use human_data.Store.{Db}
use human_data.Model.Enums.{DomainTrack, is_pass}

-- every pair is an agreement, a false pass or a false hold; scores are compared for some of them
abbrev pub IsBalanced : Bucket → Type 0
IsBalanced b =
    (b.pairs_seen ≡ b.agree + b.false_pass + b.false_hold)
    × (b.score_exact ≤ b.score_adjacent)
    × (b.score_adjacent ≤ b.score_pairs)
    × (b.score_pairs ≤ b.pairs_seen)

count_pair-IsBalanced : (b : Bucket) (p : Pair) → IsBalanced b → IsBalanced (count_pair b p)
unfolding count_pair
count_pair-IsBalanced b p h = ground arith

-- If agreements, false passes and false holds add up to the pairs seen, and exact, adjacent and
-- compared scores are each among the next, this still holds after any pairs are counted.
pub count_all-IsBalanced :
    (b : Bucket) (ps : List Pair) → IsBalanced b → IsBalanced (count_all b ps)
unfolding count_all
count_all-IsBalanced b [] h = h
count_all-IsBalanced b (p ∷ ps) h =
    count_all-IsBalanced (count_pair b p) ps (count_pair-IsBalanced b p h)

seen_lem : (b : Bucket) (ps : List Pair) → (count_all b ps).pairs_seen ≡ b.pairs_seen + length ps
unfolding count_all count_pair
seen_lem b [] = omega arith
seen_lem b (p ∷ ps) = ground (arith, seen_lem (count_pair b p) ps)

recommend_lem :
    (r : Rates) (a f : ℕ)
    → 1 ≤ r.pairs_rated
    → r.verdict_agreement_rate ≡ some a
    → r.false_pass_rate ≡ some f
    → ((recommend r ≡ raise_sampling) ↔ (500 < f))
      × ((recommend r ≡ consider_lower) ↔ ((f ≤ 500) × (50 ≤ r.pairs_rated) × (9000 ≤ a)))
unfolding recommend
recommend_lem r a f n ea ef = ground arith

-- the two agree
abbrev pub agrees : Pair → Bool
agrees p =
    is_pass p.auto.verdict && is_pass p.human_verdict.verdict
    || not (is_pass p.auto.verdict || is_pass p.human_verdict.verdict)

-- the reviewer passed what the human did not
abbrev pub passes_wrongly : Pair → Bool
passes_wrongly p = is_pass p.auto.verdict && not (is_pass p.human_verdict.verdict)

rate_lem :
    (up : ℕ → ℕ → Bool) (part n : ℕ)
    → 1 ≤ n
    → rate up part n ≡ some (10 * div_round up (1000 * part) n)
rate_lem up part n h = ground arith

counted_lem :
    (b : Bucket) (ps : List Pair)
    → ((count_all b ps).agree ≡ b.agree + length (select agrees ps))
      × ((count_all b ps).false_pass ≡ b.false_pass + length (select passes_wrongly ps))
unfolding count_all count_pair
counted_lem b [] = (omega arith, omega arith)
counted_lem b (p ∷ ps) = ground (arith, counted_lem (count_pair b p) ps)

-- the share of the pairs that satisfy a test, rounded to a tenth of a percent
abbrev pub share : Env → (Pair → Bool) → List Pair → ℕ
share env is_counted ps =
    10 * div_round env.rounds_up (1000 * length (select is_counted ps)) (length ps)

-- Where there are pairs, the report advises more sampling exactly if the pairs that the reviewer
-- passed and the human did not are more than 5 %, and that less may do exactly if they are not,
-- there are 50 pairs, and the two agree on 90 %, each share rounded to a tenth of a percent.
pub calibration_report-recommends :
    (env : Env) (db : Db) (filter : Option DomainTrack)
    → 1 ≤ length (pairs db filter)
    → let advice = (calibration_report env db filter).sampling_recommendation in
      let ps = pairs db filter in
      ((advice ≡ raise_sampling) ↔ (500 < share env passes_wrongly ps))
      × ((advice ≡ consider_lower)
          ↔ ((share env passes_wrongly ps ≤ 500) × (50 ≤ length ps) × (9000 ≤ share env agrees ps)))
unfolding calibration_report rates
calibration_report-recommends env db filter some_pairs =
    let ps = pairs db filter in
    let b = count_all empty_bucket ps in
    let seen : b.pairs_seen ≡ length ps = seen_lem empty_bucket ps ∙ (omega arith) in
    let (agreed, wrong) = counted_lem empty_bucket ps in
    let some_seen : 1 ≤ b.pairs_seen = omega (arith, seen, some_pairs) in
    let rated : (part : ℕ) (is_counted : Pair → Bool)
        → part ≡ length (select is_counted ps)
        → rate env.rounds_up part b.pairs_seen ≡ some (share env is_counted ps) =
      λ part is_counted e. rate_lem env.rounds_up part b.pairs_seen some_seen ∙ rw (e, seen) refl in
    subst
      (λ n.
        ((recommend (rates env b) ≡ raise_sampling) ↔ (500 < share env passes_wrongly ps))
        × ((recommend (rates env b) ≡ consider_lower)
            ↔ ((share env passes_wrongly ps ≤ 500) × (50 ≤ n) × (9000 ≤ share env agrees ps))))
      seen
      (recommend_lem (rates env b) (share env agrees ps) (share env passes_wrongly ps) some_seen
        (rated b.agree agrees (agreed ∙ (omega arith)))
        (rated b.false_pass passes_wrongly (wrong ∙ (omega arith))))
