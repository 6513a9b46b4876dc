-- ===== src/Ratelimit.antt =====
-- src/factory/ratelimit.py: the fixed window. The dict is a list of its entries, whose order the
-- code does not use; `time.time()` is a whole number of microseconds, and a number stands for the text
-- of a key.
pub mod Window
pub mod Middleware
use human_data.Prelude.{
  String, ℕ, Bool, List, str_eq, Option, ltb, ◌∷◌, ◌==◌, ◌/◌, if◌then◌else◌, ◌&&◌, ◌+◌, select,
  length, some, first, not, leb, none, ◌-◌, ◌%◌,
}
use human_data.Config.{Settings}

pub record Entry : Type 0 where
  pub key : ℕ
  pub window : ℕ
  pub count : ℕ

abbrev pub is_of : ℕ → Entry → Bool
is_of key e = e.key == key

-- `self._counts.get(key, (window, 0))`, with 0 for a count of another window
abbrev pub count_in : ℕ → Option Entry → ℕ
count_in window none = 0
count_in window (some e) = if e.window == window then e.count else 0

abbrev pub entry_of : ℕ → List Entry → Option Entry
entry_of key entries = first (select (is_of key) entries)

abbrev pub set_count : Entry → List Entry → List Entry
set_count e entries = e ∷ select (λ x. not (is_of e.key x)) entries

-- Whether a request to this path is counted at all: `dispatch` lets the others through.
unfoldable pub is_limited : Settings → String → Bool
is_limited settings path = ltb 0 settings.rate_limit_per_minute && not (str_eq path "/healthz")

abbrev pub is_current : ℕ → Entry → Bool
is_current window e = e.window == window

abbrev pub max_entries : ℕ
max_entries = 10000

-- more than 10,000 entries: those of other windows are dropped
abbrev pub bounded : ℕ → List Entry → List Entry
bounded window entries =
    if ltb max_entries (length entries) then select (is_current window) entries else entries

pub record Hit : Type 0 where
  pub allowed : Bool
  pub reset_in : ℕ
  pub entries : List Entry

-- a second and a minute
abbrev pub second : ℕ
second = 1000000

abbrev pub minute : ℕ
minute = 60000000

-- `max(1, n)`
abbrev max1 : ℕ → ℕ
max1 n = if n == 0 then 1 else n

unfoldable pub hit : ℕ → ℕ → ℕ → List Entry → Hit
hit now key limit entries =
    let window = now / minute in
    let count = count_in window (entry_of key entries) + 1 in
    record {
      allowed = leb count limit;
      reset_in = max1 ((minute - now % minute) / second);
      entries =
          bounded window (set_count (record { key = key; window = window; count = count }) entries);
    }
