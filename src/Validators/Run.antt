-- ===== src/Validators/Run.antt =====
-- `content_fingerprint`, `check_duplicate` and `run_all` of src/factory/validators.py.
use human_data.Validators.{
  finding_if, Finding, check_schema, contains, main_key, duplicate_content, check_pii, error,
  check_placeholders, check_citations, codes,
}
use human_data.Prelude.{
  ℕ, Bool, if◌then◌else◌, leb, select, List, ◌&&◌, map, ◌||◌, ◌+◌, ◌==◌, none, ◌++◌, [], some, ◌∷◌,
  all, ltb,
}
use human_data.Config.{Env, Convert}
use human_data.Model.Json.{Fields, get, text}
use human_data.Model.Enums.{TaskType}
use human_data.Validators.Financials.{check_financial_consistency}

-- `str(content.get(main_key, ""))`
abbrev pub main_text : Env → Fields → TaskType → List ℕ
main_text env content task_type = elim (get (main_key task_type) content) [
  | none ↦ []
  | some (text s) ↦ codes s
  | some v ↦ env.convert.str_value v
]

abbrev lower_ascii : ℕ → ℕ
lower_ascii c = if leb b'A' c && leb c b'Z' then c + 32 else c

-- `lower()`
abbrev pub lower : Convert → List ℕ → List ℕ
lower convert t = if all (λ c. ltb c 128) t then map lower_ascii t else convert.lower_text t

-- `\w`, after `lower()`
is_word : Convert → ℕ → Bool
is_word convert c =
    if leb 128 c
    then convert.is_word c
    else leb b'a' c && leb c b'z'
      || leb b'A' c && leb c b'Z'
      || leb b'0' c && leb c b'9'
      || c == b'_'

unfoldable pub content_fingerprint : Env → Fields → TaskType → ℕ
unfolding is_word
content_fingerprint env content task_type =
    env.text_hash
      (select (is_word env.convert) (lower env.convert (main_text env content task_type)))

unfoldable pub check_duplicate : Env → Fields → TaskType → List ℕ → List Finding
check_duplicate env content task_type existing =
    finding_if (contains (content_fingerprint env content task_type) existing) duplicate_content
      error

-- An empty set of fingerprints skips the check, which would find nothing.
unfoldable pub run_all : Env → Fields → TaskType → List ℕ → List Finding
run_all env content task_type existing =
    check_schema content task_type
    ++ (check_pii env.patterns content
        ++ (check_placeholders env.patterns content
            ++ (check_citations env.patterns content
                ++ (check_financial_consistency env.convert content ++ elim existing [
                  | [] ↦ []
                  | f ∷ fs ↦ check_duplicate env content task_type (f ∷ fs)
                ]))))
