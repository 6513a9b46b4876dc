-- ===== src/Examples/Policies.antt =====
-- The controls of src/factory/controls.py and the trail of src/factory/audit.py on the rows of Data.
use human_data.Store.{Db}
use human_data.Controls.{update_quality_score, ewma, gold_suspend_fails, suspend_below}
use human_data.Audit.{verify_chain, genesis, chain_head}
use human_data.Prelude.{List, ◌≤◌, map, ◌≡◌, ◌∷◌, true, ◌⊎◌, ◌↔◌, [], ◌<◌, refl}
use human_data.Model.Entities.{AuditEvent}
use human_data.Examples.Data.{empty_db, ann, praising, exam, event_of}
use human_data.Model.Enums.{suspended}
use human_data.Audit.Tamper.{content_of, Collision, same_head_same_history}
use human_data.Controls.Scores.{update_quality_score_lem}
use human_data.Audit.Chain.{IsChain, verify_chain_iff}

abbrev two_exams : Db
two_exams = record empty_db { qualifications = exam ∷ record exam { id = 9 } ∷ [] }

update_quality_score_lem_example :
    let after = update_quality_score praising ann 10000 in
    let score = ewma praising 10000 ann.quality_score in
    ((after.status ≡ suspended) ↔ (
      (ann.status ≡ suspended)
      ⊎ (score < suspend_below)
      ⊎ (gold_suspend_fails ≤ ann.gold_fail_count)))
    × ((after.status ≡ suspended) ⊎ (after.status ≡ ann.status))
    × (after ≡ record ann { status = after.status; quality_score = score })
update_quality_score_lem_example = update_quality_score_lem praising ann 10000

abbrev trail : List AuditEvent
trail = event_of 1 0 ∷ event_of 2 1 ∷ []

verify_chain_iff_example :
    (verify_chain praising trail ≡ (true, 2)) ↔ IsChain praising genesis trail
verify_chain_iff_example = verify_chain_iff praising trail

-- The same length and head, but the second event was something else: the hash of `praising` takes
-- the two for one.
abbrev forged : List AuditEvent
forged = event_of 1 0 ∷ record (event_of 2 1) { action = "submission.approved" } ∷ []

same_head_same_history_example : (map content_of trail ≡ map content_of forged) ⊎ Collision praising
unfolding verify_chain chain_head
same_head_same_history_example = same_head_same_history praising trail forged refl refl refl refl
