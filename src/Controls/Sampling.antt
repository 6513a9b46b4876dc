-- ===== src/Controls/Sampling.antt =====
-- The sampling of src/factory/controls.py: which submissions a human will see.
use human_data.Controls.{sampling_rate, is_sampled_for_human_review, prefix_max}
use human_data.Config.{Settings, Env}
use human_data.Model.Entities.{Expert, Ident}
use human_data.Prelude.{◌≤◌, arith, ◌≡◌, true, ◌<◌, ◌↔◌, ◌≢◌}

-- Of a contributor with fewer than five approved records, at the rate 1.00, every submission is
-- sampled whose hash prefix is not ffffffff, and none whose prefix it is: the quotient by
-- 0xFFFFFFFF reaches 1.
pub new-sampled_iff :
    (env : Env) (id : Ident) (expert : Expert)
    → env.settings.sampling_new ≡ 10000
    → expert.approved_count < 5
    → env.id_prefix id ≤ prefix_max
    → (is_sampled_for_human_review env id expert ≡ true) ↔ (env.id_prefix id ≢ prefix_max)
unfolding is_sampled_for_human_review sampling_rate
new-sampled_iff env id expert r few le = (λ h. ground arith, λ h. ground arith)

-- The tiers are ordered as the settings are: more approved records and a higher score never raise
-- the rate, and no rate falls below the floor of the trusted tier.
pub sampling_rate_antitone :
    (settings : Settings) (a b : Expert)
    → settings.sampling_trusted ≤ settings.sampling_standard
    → settings.sampling_standard ≤ settings.sampling_new
    → 5 ≤ settings.trusted_min_approved
    → a.approved_count ≤ b.approved_count
    → a.quality_score ≤ b.quality_score
    → (sampling_rate settings b ≤ sampling_rate settings a)
      × (settings.sampling_trusted ≤ sampling_rate settings b)
unfolding sampling_rate
sampling_rate_antitone settings a b ts sn five more better = ground arith

-- A submission that would be sampled from the better of two contributors would be sampled from the
-- other one too: the decision rests on the id and the rate alone.
pub is_sampled_mono :
    (env : Env) (id : Ident) (a b : Expert)
    → sampling_rate env.settings b ≤ sampling_rate env.settings a
    → is_sampled_for_human_review env id b ≡ true
    → is_sampled_for_human_review env id a ≡ true
unfolding is_sampled_for_human_review
is_sampled_mono env id a b le h = ground arith
