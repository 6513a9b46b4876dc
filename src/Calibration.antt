-- ===== src/Calibration.antt =====
-- src/factory/qc/calibration.py: how the reviewer's verdicts compare with those of humans. Rates
-- are in ten-thousandths; the order of the slices and the texts of the reasons are left out.
pub mod Counts
use human_data.Model.Entities.{Review, Score, Ident, Submission, Task, Project}
use human_data.Model.Enums.{DomainTrack, is_pass, human, auto_llm, track_eq}
use human_data.Rounding.{div_round}
use human_data.Prelude.{
  Bool, Option, if◌then◌else◌, ℕ, List, false, ◌+◌, not, select, true, leb, some, ◌∷◌, ◌==◌, ◌&&◌,
  ◌-◌, ltb, none, [], newest, ◌++◌, ◌*◌, String, str_eq,
}
use human_data.Qc.AutoReviewer.{round_score}
use human_data.Store.{Db, find}
use human_data.Config.{Env}
use human_data.Model.Json.{get, text}

-- the newest review of a kind
abbrev pub newest_of : (Review → Bool) → Ident → List Review → Option Review
newest_of is_kind submission_id reviews =
    newest (λ (r : Review). r.created_at)
      (select (λ (r : Review). r.submission_id == submission_id && is_kind r) reviews)

abbrev is_auto : Review → Bool
is_auto r = elim r.kind [ auto_llm ↦ true | _ ↦ false ]

abbrev is_human : Review → Bool
is_human r = elim r.kind [ human ↦ true | _ ↦ false ]

pub record Pair : Type 0 where
  pub auto : Review
  pub human_verdict : Review
  pub track : DomainTrack

abbrev pair_of : Option Review → Option Review → DomainTrack → List Pair
pair_of (some a) (some h) track = record { auto = a; human_verdict = h; track = track } ∷ []
pair_of _ _ track = []

abbrev is_in_track : Option DomainTrack → DomainTrack → Bool
is_in_track none t = true
is_in_track (some f) t = track_eq t f

-- the track of a submission's project, by the two joins
abbrev project_track : Db → Submission → Option DomainTrack
project_track db s = elim (find (λ (t : Task). t.id) s.task_id db.tasks) [
  | none ↦ none
  | some t ↦ elim (find (λ (p : Project). p.id) t.project_id db.projects) [
    | none ↦ none
    | some p ↦ some p.track
  ]
]

abbrev pairs_in : Db → Option DomainTrack → Submission → Option DomainTrack → List Pair
pairs_in db filter s none = []
pairs_in db filter s (some track) =
    if is_in_track filter track
    then pair_of (newest_of is_auto s.id db.reviews) (newest_of is_human s.id db.reviews) track
    else []

abbrev pairs_from : Db → Option DomainTrack → List Submission → List Pair
pairs_from db filter [] = []
pairs_from db filter (s ∷ ss) = pairs_in db filter s (project_track db s) ++ pairs_from db filter ss

-- `_pairs`
unfoldable pub pairs : Db → Option DomainTrack → List Pair
pairs db filter = pairs_from db filter db.submissions

pub record Bucket : Type 0 where
  pub pairs_seen : ℕ
  pub agree : ℕ
  pub false_pass : ℕ
  pub false_hold : ℕ
  pub score_pairs : ℕ
  pub score_exact : ℕ
  pub score_adjacent : ℕ

abbrev pub empty_bucket : Bucket
empty_bucket = record {
  pairs_seen = 0;
  agree = 0;
  false_pass = 0;
  false_hold = 0;
  score_pairs = 0;
  score_exact = 0;
  score_adjacent = 0;
}

abbrev same : Bool → Bool → Bool
same true b = b
same false b = not b

-- the branches on the two verdicts
abbrev with_verdicts : Bool → Bool → Bucket → Bucket
with_verdicts auto_pass human_pass b =
    if same auto_pass human_pass
    then record b { agree = b.agree + 1 }
    else (if auto_pass && not human_pass
        then record b { false_pass = b.false_pass + 1 }
        else record b { false_hold = b.false_hold + 1 })

-- `abs(a - b)`
abbrev gap : ℕ → ℕ → ℕ
gap a b = if leb a b then b - a else a - b

abbrev with_scores : Option Score → Option Score → Bucket → Bucket
with_scores (some a) (some h) b =
    let diff = gap (round_score a) (round_score h) in
    record b {
      score_pairs = b.score_pairs + 1;
      score_exact = b.score_exact + (if diff == 0 then 1 else 0);
      score_adjacent = b.score_adjacent + (if leb diff 1 then 1 else 0);
    }
with_scores _ _ b = b

unfoldable pub count_pair : Bucket → Pair → Bucket
unfolding round_score
count_pair b p = with_scores p.auto.overall_score p.human_verdict.overall_score (
    with_verdicts (is_pass p.auto.verdict) (is_pass p.human_verdict.verdict)
      (record b { pairs_seen = b.pairs_seen + 1 }))

unfoldable pub count_all : Bucket → List Pair → Bucket
unfolding count_pair
count_all b [] = b
count_all b (p ∷ ps) = count_all (count_pair b p) ps

-- the bucket of a track, of which `by_track` has one for each track that a pair has
unfoldable pub track_bucket : DomainTrack → List Pair → Bucket
unfolding count_all
track_bucket track ps = count_all empty_bucket (select (λ (p : Pair). track_eq p.track track) ps)

-- `(auto.detail or {}).get("grader_version") or "unversioned"`
abbrev pub grader_of : Pair → String
grader_of p = elim (get "grader_version" p.auto.detail) [
  | some (text version) ↦ if str_eq version "" then "unversioned" else version
  | _ ↦ "unversioned"
]

-- the bucket of a grader version
unfoldable pub grader_bucket : String → List Pair → Bucket
unfolding count_all
grader_bucket version ps =
    count_all empty_bucket (select (λ (p : Pair). str_eq (grader_of p) version) ps)

-- `round(part / n, 3) if n else None`
abbrev pub rate : (ℕ → ℕ → Bool) → ℕ → ℕ → Option ℕ
rate up part n = if n == 0 then none else some (10 * div_round up (1000 * part) n)

pub record Rates : Type 0 where
  pub pairs_rated : ℕ
  pub verdict_agreement_rate : Option ℕ
  pub false_pass_rate : Option ℕ
  pub false_hold_rate : Option ℕ
  pub score_exact_agreement_rate : Option ℕ
  pub score_adjacent_agreement_rate : Option ℕ

-- `_rates`
unfoldable pub rates : Env → Bucket → Rates
unfolding div_round
rates env b = record {
  pairs_rated = b.pairs_seen;
  verdict_agreement_rate = rate env.rounds_up b.agree b.pairs_seen;
  false_pass_rate = rate env.rounds_up b.false_pass b.pairs_seen;
  false_hold_rate = rate env.rounds_up b.false_hold b.pairs_seen;
  score_exact_agreement_rate = rate env.rounds_up b.score_exact b.score_pairs;
  score_adjacent_agreement_rate = rate env.rounds_up b.score_adjacent b.score_pairs;
}

pub data Recommendation : Type 0 where
  hold raise_sampling consider_lower : Recommendation

abbrev exceeds : Option ℕ → ℕ → Bool
exceeds none limit = false
exceeds (some r) limit = ltb limit r

abbrev reaches : Option ℕ → ℕ → Bool
reaches none limit = false
reaches (some r) limit = leb limit r

-- the chain of tests on the rates: 5 % false passes, 50 pairs, 90 % agreement
unfoldable pub recommend : Rates → Recommendation
recommend r =
    if r.pairs_rated == 0
    then hold
    else (if exceeds r.false_pass_rate 500
        then raise_sampling
        else (if ltb r.pairs_rated 50
            then hold
            else (if reaches r.verdict_agreement_rate 9000 then consider_lower else hold)))

pub record CalibrationReport : Type 0 where
  pub overall : Rates
  pub by_track : DomainTrack → Rates
  pub by_grader_version : String → Rates
  pub sampling_recommendation : Recommendation

unfoldable pub calibration_report : Env → Db → Option DomainTrack → CalibrationReport
unfolding pairs count_all track_bucket grader_bucket rates recommend
calibration_report env db filter =
    let ps = pairs db filter in
    let all_rates = rates env (count_all empty_bucket ps) in
    record {
      overall = all_rates;
      by_track = λ track. rates env (track_bucket track ps);
      by_grader_version = λ version. rates env (grader_bucket version ps);
      sampling_recommendation = recommend all_rates;
    }
