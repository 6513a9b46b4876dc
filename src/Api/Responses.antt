-- ===== src/Api/Responses.antt =====
-- The errors that the endpoints of src/factory/api/main.py let through.
use human_data.Store.{
  Error, Result, Db, Action, control_violation, not_clean, no_usage, other_expert, ok,
  not_in_human_review, not_pending, stripe_managed, not_payable, err, relative_url, http,
}
use human_data.Api.{
  catching, pipeline_response, billing_response, export_response, caught, release_response,
  get_or_404,
}
use human_data.Prelude.{Bool, ◌≡◌, true, false, arith, List}
use human_data.Store.Raises.{Raises, Refused, raises_rules}
use human_data.Auth.{require_roles, assert_firm_access, Actor, resolve, resolve_token, Credentials}
use human_data.Model.Entities.{Ident}
use human_data.Config.{Env}
use human_data.Model.Enums.{Role}

-- `ControlViolation` and `PipelineError`
abbrev pub is_pipeline_error : Error → Bool
is_pipeline_error (control_violation c) = true
is_pipeline_error other_expert = true
is_pipeline_error not_in_human_review = true
is_pipeline_error _ = false

-- `BillingError`
abbrev pub is_billing_error : Error → Bool
is_billing_error no_usage = true
is_billing_error stripe_managed = true
is_billing_error not_payable = true
is_billing_error relative_url = true
is_billing_error _ = false

-- `ExportError`
abbrev pub is_export_error : Error → Bool
is_export_error not_clean = true
is_export_error not_pending = true
is_export_error _ = false

-- `ExportError` and `ControlViolation`
abbrev pub is_release_error : Error → Bool
is_release_error (control_violation c) = true
is_release_error e = is_export_error e

module _ {A : Type 0} where
  caught_lem :
      (R : Error → Type 0) (f : Error → Error) (r : Result (A × Db))
      → ((e : Error) → R (f e))
      → Refused R (caught f r)
  caught_lem R f (ok r) h = tt
  caught_lem R f (err e) h = h e

  Raises-catching :
      {R : Error → Type 0} (f : Error → Error) (m : Action A)
      → ((e : Error) → R (f e))
      → Raises R (catching f m)
  unfolding catching
  Raises-catching {R} f m h = record { at = λ db. caught_lem R f (m db) h }

  Raises-get :
      {R : Error → Type 0} (id_of : A → Ident) (rows : Db → List A) (id : Ident)
      → R (http 404)
      → Raises R (get_or_404 id_of rows id)
  unfolding get_or_404
  Raises-get id_of rows id r = search (raises_rules, r) depth 8

pipeline_lem : (e : Error) → is_pipeline_error (pipeline_response e) ≡ false
pipeline_lem e = ground arith

billing_lem : (e : Error) → is_billing_error (billing_response e) ≡ false
billing_lem e = ground arith

request_lem : (e : Error) → is_export_error (export_response e) ≡ false
request_lem e = ground arith

-- The checks of an actor end in 401 or 403.
module _ {R : Error → Type 0} (no_key : R (http 401)) (no_role : R (http 403)) where
  require_roles-Raises :
      (env : Env) (credentials : Credentials) (allowed : List Role)
      → Raises R (require_roles env credentials allowed)
  unfolding require_roles resolve resolve_token
  require_roles-Raises env credentials allowed = search (raises_rules, no_key, no_role) depth 24

  assert_firm_access-Raises :
      (actor : Actor) (firm_id : Ident) → Raises R (assert_firm_access actor firm_id)
  unfolding assert_firm_access
  assert_firm_access-Raises actor firm_id = search (raises_rules, no_role) depth 8

abbrev pub Never : (Error → Bool) → Error → Type 0
Never p e = p e ≡ false

release_lem : (e : Error) → is_release_error (release_response e) ≡ false
release_lem e = ground arith

ruleset endpoint_steps = (
  raises_rules, Raises-catching, Raises-get, require_roles-Raises, assert_firm_access-Raises,
  pipeline_lem, billing_lem, request_lem, release_lem, refl,
)
