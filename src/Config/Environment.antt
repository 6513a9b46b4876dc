-- ===== src/Config/Environment.antt =====
-- The environment variables of src/factory/config.py, and the settings that they give. `environ` is
-- `os.environ.get`. The directory of the exports is left out, as the files are.
use human_data.Prelude.{
  ℕ, Option, String, List, none, [], some, if◌then◌else◌, Bool, ◌≡◌, starts_with, str_eq, ◌||◌,
  code, is_some, map, leb, true, ap, refl, str_append, ◌∷◌, ◌&&◌, ◌+◌, ◌==◌, remove_prefix, false,
}
use human_data.Model.Enums.{TaskType}
use human_data.Config.{Settings, default_rates, default_settings}

abbrev pub Environ : Type 0
Environ = String → Option String

-- `os.environ.get(name, default)`
abbrev pub get_or : Environ → String → String → String
get_or environ name default = elim (environ name) [ none ↦ default | some v ↦ v ]

-- the variable, if it is set and not empty
abbrev pub filled : Environ → String → Option String
filled environ name = elim (environ name) [
  | none ↦ none
  | some v ↦ if str_eq v "" then none else some v
]

-- `a or b`
abbrev pub or_else : Option String → Option String → Option String
or_else none b = b
or_else (some a) b = some a

-- the scheme that Heroku and Vercel emit, and the one that SQLAlchemy needs
abbrev pub old_scheme : String
old_scheme = "postgres://"

abbrev pub new_scheme : String
new_scheme = "postgresql://"

abbrev pub with_scheme : String → String
with_scheme url =
    if starts_with url old_scheme then str_append new_scheme (remove_prefix old_scheme url) else url

-- `_default_database_url`
unfoldable pub default_database_url : Environ → String
default_database_url environ =
    elim (or_else (filled environ "HDF_DATABASE_URL")
      (or_else (filled environ "DATABASE_URL") (filled environ "POSTGRES_URL"))) [
        | some url ↦ with_scheme url
        | none ↦
            if is_some (filled environ "VERCEL")
            then "sqlite:////tmp/hdf.db"
            else "sqlite:///hdf.db"
      ]

-- an ASCII capital is made small
abbrev lower_code : ℕ → ℕ
lower_code n = if leb 65 n && leb n 90 then n + 32 else n

abbrev codes : String → List ℕ
codes String.[] = []
codes (String.◌∷◌ c s) = code c ∷ codes s

abbrev same_codes : List ℕ → List ℕ → Bool
same_codes [] [] = true
same_codes (a ∷ xs) (b ∷ ys) = a == b && same_codes xs ys
same_codes _ _ = false

-- `value.lower() == word`, for a word of small ASCII letters or digits
abbrev pub lower_is : String → String → Bool
lower_is value word = same_codes (map lower_code (codes value)) (codes word)

-- `value.lower() in ("1", "true", "yes")`
abbrev pub is_yes : String → Bool
is_yes value = lower_is value "1" || lower_is value "true" || lower_is value "yes"

abbrev rates_of : ℕ → ℕ → ℕ → TaskType → ℕ
rates_of a b c TaskType.sft = a
rates_of a b c TaskType.preference = b
rates_of a b c TaskType.eval = c

module _ {A B : Type 0} where
  infixl 10 ◌>>=◌
  abbrev ◌>>=◌ : Option A → (A → Option B) → Option B
  none >>= k = none
  some a >>= k = k a

-- `Settings()`; `int` is that of Python for a text that is no negative number, and `none` is an
-- exception
unfoldable pub settings_of : (String → Option ℕ) → Environ → Option Settings
settings_of int environ = do
  sft_rate ← int (get_or environ "HDF_RATE_SFT_CENTS" "12000")
  preference_rate ← int (get_or environ "HDF_RATE_PREFERENCE_CENTS" "15000")
  eval_rate ← int (get_or environ "HDF_RATE_EVAL_CENTS" "18000")
  limit ← int (get_or environ "HDF_RATE_LIMIT_PER_MINUTE" "120")
  some (record default_settings {
    qc_model = get_or environ "HDF_QC_MODEL" "claude-opus-4-8";
    qc_offline = is_yes (get_or environ "HDF_QC_OFFLINE" "");
    auth_disabled = is_yes (get_or environ "HDF_AUTH_DISABLED" "");
    currency = get_or environ "HDF_CURRENCY" "usd";
    default_rates_cents = rates_of sft_rate preference_rate eval_rate;
    rate_limit_per_minute = limit;
    stripe_secret_key = get_or environ "STRIPE_SECRET_KEY" "";
    stripe_webhook_secret = get_or environ "STRIPE_WEBHOOK_SECRET" "";
  })

-- `int` of a numeral
abbrev ReadsDefaults : (String → Option ℕ) → Type 0
ReadsDefaults int =
    (int "12000" ≡ some 12000)
    × (int "15000" ≡ some 15000)
    × (int "18000" ≡ some 18000)
    × (int "120" ≡ some 120)

rates_lem : (t : TaskType) → rates_of 12000 15000 18000 t ≡ default_rates t
rates_lem TaskType.sft = refl
rates_lem TaskType.preference = refl
rates_lem TaskType.eval = refl

-- Where `int` reads the numerals of the defaults: with no variable set, the settings are the default
-- ones.
pub settings_of-unset :
    (int : String → Option ℕ)
    → ReadsDefaults int
    → settings_of int (λ name. none) ≡ some default_settings
unfolding settings_of
settings_of-unset int (sft_read, preference_read, eval_read, limit_read) =
    rw (sft_read, preference_read, eval_read, limit_read)
      (ap (λ r. some (record default_settings { default_rates_cents = r })) (λ i t. rates_lem t i))
