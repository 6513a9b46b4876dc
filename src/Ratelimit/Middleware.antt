-- ===== src/Ratelimit/Middleware.antt =====
-- `RateLimitMiddleware` of src/factory/ratelimit.py: whom a request counts for, and what it gets.
use human_data.Prelude.{
  String, Option, ℕ, some, List, none, if◌then◌else◌, not, ◌-◌, ◌%◌, ◌≡◌, ◌||◌, leb, ◌/◌, ◌∷◌, ◌≤◌,
  arith, Bool-cases, inl, inr, ◌<◌, ◌+◌, ◌*◌, ◌⊎◌,
}
use human_data.Ratelimit.{is_limited, hit, Entry, minute, second}
use human_data.Config.{Settings}
use human_data.Ratelimit.Window.{Request, hit-allowed}
use human_data.Ratelimit.Window.{IsOrdered, entries_after, hits}

-- What of a request the middleware reads; an empty header is none.
pub record Caller : Type 0 where
  pub path : String
  pub authorization : Option String
  pub x_actor_id : Option String
  pub host : Option String

-- The text of a key, by the three ways to make it. `digest` stands for the first 32 digits of the
-- sha256 of the header.
pub data Identity : Type 0 where
  credential : ℕ → Identity
  actor : String → Identity
  ip : String → Identity

abbrev pub host_or_unknown : Option String → String
host_or_unknown none = "unknown"
host_or_unknown (some host) = host

abbrev pub without_credential : Option String → Option String → Identity
without_credential (some id) host = actor id
without_credential none host = ip (host_or_unknown host)

-- `_identity`
unfoldable pub identity : (String → ℕ) → Caller → Identity
identity digest caller = elim caller.authorization [
  | some header ↦ credential (digest header)
  | none ↦ without_credential caller.x_actor_id caller.host
]

-- the next handler is called, or 429 with the seconds to wait
pub data Answer : Type 0 where
  called : Answer
  too_many : ℕ → Answer

-- `dispatch`; `number` gives the number that stands for the text of a key
unfoldable pub dispatch :
    (String → ℕ) → (Identity → ℕ) → Settings → ℕ → Caller → List Entry → Answer × List Entry
unfolding is_limited hit identity
dispatch digest number settings now caller entries =
    if not (is_limited settings caller.path)
    then (called, entries)
    else let h = hit now (number (identity digest caller)) settings.rate_limit_per_minute entries in
      (if h.allowed then called else too_many h.reset_in, h.entries)

-- the seconds of a wait: the whole ones that are left of the minute, but at least 1
abbrev pub IsWait : ℕ → ℕ → Type 0
IsWait now wait =
    let left = minute - now % minute in
    (1 ≤ wait)
    × (wait ≤ 60)
    × (left < (wait + 1) * second)
    × ((wait * second ≤ left) ⊎ ((wait ≡ 1) × (left < second)))

reset_lem :
    (now key limit : ℕ) (entries : List Entry) → IsWait now (hit now key limit entries).reset_in
unfolding hit
reset_lem now key limit entries = ground arith

-- Where the clock does not go back: a request to a limited path is let through exactly if the
-- requests of its key in its minute, this one included, are within the limit; else it gets 429 with
-- the whole seconds that are left of the minute, but at least 1, which are at most 60. Other paths
-- are always let through.
pub dispatch-Answer :
    (digest : String → ℕ) (number : Identity → ℕ) (settings : Settings) (now : ℕ) (caller : Caller)
    (history : List Request)
    → IsOrdered now history
    → let limit = settings.rate_limit_per_minute in
      let key = number (identity digest caller) in
      (wait : ℕ) × ((dispatch digest number settings now caller (entries_after limit history)).0 ≡ (
        if not (is_limited settings caller.path)
          || leb (hits key (now / minute) ((now, key) ∷ history)) limit
        then called
        else too_many wait))
      × IsWait now wait
unfolding dispatch
dispatch-Answer digest number settings now caller history o =
    let limit = settings.rate_limit_per_minute in
    let key = number (identity digest caller) in
    let fits = hit-allowed limit now key history o in
    (
      (hit now key limit (entries_after limit history)).reset_in,
      elim (Bool-cases (is_limited settings caller.path)) [
        | inl limited ↦ rw (limited, fits)
        | inr free ↦ rw free
      ],
      reset_lem now key limit (entries_after limit history),
    )
