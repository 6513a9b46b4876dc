-- ===== src/Controls/Gating.antt =====
-- Qualification and independence in src/factory/controls.py: when they let an action through.
use human_data.Controls.{assert_qualified, assert_reviewer_independent, holds_track}
use human_data.Model.Enums.{qualified, DomainTrack}
use human_data.Model.Entities.{Expert, Submission, Qualification}
use human_data.Store.{Db, ok, err, multiple_results, control_violation, c2}
use human_data.Prelude.{◌≡◌, List, ◌↔◌, select, ◌≢◌, ◌∷◌, true, [], ◌⊎◌, arith}

-- An expert passes the qualification check exactly if their status is QUALIFIED and one passed exam of the track is on
-- record, and the tables stay as they are. More than one passed exam fails too.
pub assert_qualified_iff :
    (expert : Expert) (track : DomainTrack) (db : Db)
    → (assert_qualified expert track db ≡ ok (tt, db)) ↔ (
        (expert.status ≡ qualified)
        × ((q : Qualification) × (select (holds_track expert.id track) db.qualifications ≡ q ∷ [])))
unfolding assert_qualified
assert_qualified_iff expert track db = ground arith

pub assert_qualified-same :
    (expert : Expert) (track : DomainTrack) (db db' : Db) (u : Unit {0})
    → assert_qualified expert track db ≡ ok (u, db')
    → db' ≡ db
unfolding assert_qualified
assert_qualified-same expert track db db' u e = ground arith

-- A second passed exam of one track locks the expert out of it: the check then ends in SQLAlchemy's
-- MultipleResultsFound.
pub assert_qualified_twice :
    (expert : Expert) (track : DomainTrack) (db : Db) {q r : Qualification}
    {rest : List Qualification}
    → expert.status ≡ qualified
    → select (holds_track expert.id track) db.qualifications ≡ q ∷ r ∷ rest
    → assert_qualified expert track db ≡ err multiple_results
unfolding assert_qualified
assert_qualified_twice expert track db p e = ground arith

-- A reviewer passes the independence check exactly if they are not the author, hold the reviewer role and are in
-- QUALIFIED status; every other case ends in a violation of that policy.
pub assert_reviewer_independent_iff :
    (submission : Submission) (reviewer : Expert) (db : Db)
    → ((assert_reviewer_independent submission reviewer db ≡ ok (tt, db)) ↔ (
        (reviewer.id ≢ submission.expert_id)
        × (reviewer.is_reviewer ≡ true)
        × (reviewer.status ≡ qualified)))
      × ((assert_reviewer_independent submission reviewer db ≡ ok (tt, db))
          ⊎ (assert_reviewer_independent submission reviewer db ≡ err (control_violation c2)))
unfolding assert_reviewer_independent
assert_reviewer_independent_iff submission reviewer db = ground arith
