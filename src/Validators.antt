-- ===== src/Validators.antt =====
-- src/factory/validators.py: the deterministic checks of gate 1. The regular expressions are those
-- of `Patterns`, so a check is the code around their matches. The tie-out of the financials is in
-- the child Financials, and `run_all`, with the check for duplicates, in the child Run.
pub mod Financials
pub mod Run
pub mod Luhn
pub mod Passing
use human_data.Prelude.{
  Bool, List, String, select, ℕ, if◌then◌else◌, true, ◌∷◌, [], false, ◌∷◌, ◌++◌, Option, reverse,
  not, ◌==◌, ltb, leb, some, any, length, ◌*◌, ◌&&◌, ◌||◌, ◌%◌, str_eq, ◌-◌, ◌+◌, code, none,
}
use human_data.Model.Json.{
  Fields, Items, Json, cons, field, bool, text, get, arr, int, real, obj, end, null, nil,
}
use human_data.Model.Enums.{TaskType, sft, preference, eval}
use human_data.Rubrics.{required_fields, min_response_chars}
use human_data.Config.{Patterns}
use human_data.Prelude.Int.{pos}

pub data Code : Type 0 where
  schema_missing_field : String → Code
  schema_too_short pii_ssn pii_ein pii_email pii_phone pii_card placeholder_text : Code
  citation_invalid_asc citation_invalid_ifrs citation_invalid_ias citation_none : Code
  fin_balance_sheet fin_balance_sheet_shape fin_je_unbalanced fin_je_shape : Code
  duplicate_content : Code

abbrev pub code_value : Code → String
code_value (schema_missing_field f) = "SCHEMA_MISSING_FIELD"
code_value schema_too_short = "SCHEMA_TOO_SHORT"
code_value pii_ssn = "PII_SSN"
code_value pii_ein = "PII_EIN"
code_value pii_email = "PII_EMAIL"
code_value pii_phone = "PII_PHONE"
code_value pii_card = "PII_CARD"
code_value placeholder_text = "PLACEHOLDER_TEXT"
code_value citation_invalid_asc = "CITATION_INVALID_ASC"
code_value citation_invalid_ifrs = "CITATION_INVALID_IFRS"
code_value citation_invalid_ias = "CITATION_INVALID_IAS"
code_value citation_none = "CITATION_NONE"
code_value fin_balance_sheet = "FIN_BALANCE_SHEET"
code_value fin_balance_sheet_shape = "FIN_BALANCE_SHEET_SHAPE"
code_value fin_je_unbalanced = "FIN_JE_UNBALANCED"
code_value fin_je_shape = "FIN_JE_SHAPE"
code_value duplicate_content = "DUPLICATE_CONTENT"

pub data Severity : Type 0 where
  error warning : Severity

pub record Finding : Type 0 where
  pub code : Code
  pub severity : Severity

abbrev pub is_error : Finding → Bool
is_error f = elim f.severity [ error ↦ true | warning ↦ false ]

abbrev pub finding : Code → Severity → Finding
finding code severity = record { code = code; severity = severity }

-- `[finding] if b else []`
abbrev pub finding_if : Bool → Code → Severity → List Finding
finding_if b code severity = if b then finding code severity ∷ [] else []

-- `ValidationResult.errors` and `.passed`, on the list of its findings
unfoldable pub errors : List Finding → List Finding
errors findings = select is_error findings

unfoldable pub passed : List Finding → Bool
unfolding errors
passed findings = elim (errors findings) [ [] ↦ true | f ∷ fs ↦ false ]

-- The code points of a text.
abbrev pub codes : String → List ℕ
codes String.[] = []
codes (String.◌∷◌ c s) = code c ∷ codes s

-- `"\n".join(parts)`
abbrev join_lines : List (List ℕ) → List ℕ
join_lines [] = []
join_lines (part ∷ []) = part
join_lines (part ∷ p ∷ parts) = part ++ 10 ∷ join_lines (p ∷ parts)

abbrev pub texts_in : Items → List (List ℕ)
texts_in nil = []
texts_in (cons (text s) items) = codes s ∷ texts_in items
texts_in (cons v items) = texts_in items

abbrev parts_of : Json → List (List ℕ)
parts_of (text s) = codes s ∷ []
parts_of (arr items) = texts_in items
parts_of _ = []

abbrev parts : Fields → List (List ℕ)
parts end = []
parts (field key v content) = parts_of v ++ parts content

-- `_text_blob`
unfoldable pub text_blob : Fields → List ℕ
text_blob content = join_lines (parts content)

abbrev pub main_key : TaskType → String
main_key sft = "response"
main_key preference = "chosen"
main_key eval = "answer"

-- `not v` for a value of JSON
abbrev pub is_falsy : Json → Bool
is_falsy null = true
is_falsy (bool b) = not b
is_falsy (int (pos n)) = n == 0
is_falsy (real (pos n)) = n == 0
is_falsy (text s) = str_eq s ""
is_falsy (arr nil) = true
is_falsy (obj end) = true
is_falsy _ = false

-- `v is None or (isinstance(v, (str, list)) and not v)`
abbrev pub is_absent : Option Json → Bool
is_absent none = true
is_absent (some null) = true
is_absent (some (text s)) = str_eq s ""
is_absent (some (arr nil)) = true
is_absent (some _) = false

abbrev pub missing : Fields → List String → List Finding
missing content [] = []
missing content (f ∷ fs) =
    finding_if (is_absent (get f content)) (schema_missing_field f) error ++ missing content fs

-- `len` of the main field, if it is a text, and 0 otherwise
abbrev pub main_length : Option Json → ℕ
main_length (some (text s)) = length (codes s)
main_length _ = 0

unfoldable pub check_schema : Fields → TaskType → List Finding
unfolding required_fields
check_schema content task_type =
    let n = main_length (get (main_key task_type) content) in
    missing content (required_fields task_type)
    ++ finding_if (ltb 0 n && ltb n min_response_chars) schema_too_short error

-- The loop of `_luhn` over the reversed digits.
unfoldable pub luhn_from : ℕ → Bool → List ℕ → ℕ
luhn_from total alt [] = total
luhn_from total alt (d ∷ digits) =
    let n = (if alt then (if ltb 9 (d * 2) then d * 2 - 9 else d * 2) else d) in
    luhn_from (total + n) (not alt) digits

unfoldable pub luhn : List ℕ → Bool
unfolding luhn_from
luhn digits = luhn_from 0 false (reverse digits) % 10 == 0

abbrev pub is_card : List ℕ → Bool
is_card digits = leb 13 (length digits) && leb (length digits) 19 && luhn digits

unfoldable pub check_pii : Patterns → Fields → List Finding
check_pii re content =
    let t = text_blob content in
    finding_if (re.ssn t) pii_ssn error
    ++ (finding_if (re.ein t) pii_ein warning
        ++ (finding_if (re.email t) pii_email error
            ++ (finding_if (re.phone t) pii_phone warning
                ++ finding_if (any is_card (re.card t)) pii_card error)))

unfoldable pub check_placeholders : Patterns → Fields → List Finding
check_placeholders re content =
    finding_if (re.placeholder (text_blob content)) placeholder_text error

abbrev pub contains : ℕ → List ℕ → Bool
contains n [] = false
contains n (m ∷ ms) = n == m || contains n ms

-- `VALID_ASC_TOPICS`
abbrev valid_asc_topics : List ℕ
valid_asc_topics =
    105 ∷ 205 ∷ 210 ∷ 215 ∷ 220 ∷ 225 ∷ 230 ∷ 235 ∷ 250 ∷ 255 ∷ 260 ∷ 270 ∷ 272 ∷ 274 ∷ 275 ∷ 280
    ∷ 305 ∷ 310 ∷ 320 ∷ 321 ∷ 323 ∷ 325 ∷ 326 ∷ 330 ∷ 340 ∷ 350 ∷ 360 ∷ 405 ∷ 410 ∷ 420 ∷ 430 ∷ 440
    ∷ 450 ∷ 460 ∷ 470 ∷ 480 ∷ 505 ∷ 605 ∷ 606 ∷ 610 ∷ 705 ∷ 710 ∷ 712 ∷ 715 ∷ 718 ∷ 720 ∷ 730 ∷ 740
    ∷ 805 ∷ 808 ∷ 810 ∷ 815 ∷ 820 ∷ 825 ∷ 830 ∷ 832 ∷ 835 ∷ 840 ∷ 842 ∷ 845 ∷ 848 ∷ 850 ∷ 852 ∷ 853
    ∷ 855 ∷ 860 ∷ 905 ∷ 908 ∷ 910 ∷ 912 ∷ 915 ∷ 920 ∷ 922 ∷ 924 ∷ 926 ∷ 928 ∷ 930 ∷ 932 ∷ 940 ∷ 942
    ∷ 944 ∷ 946 ∷ 948 ∷ 950 ∷ 952 ∷ 954 ∷ 958 ∷ 960 ∷ 962 ∷ 965 ∷ 970 ∷ 972 ∷ 974 ∷ 976 ∷ 978 ∷ 980
    ∷ 985 ∷ 995 ∷ []

unfoldable pub is_valid_asc : ℕ → Bool
is_valid_asc topic = contains topic valid_asc_topics

-- `range(1, 20)` and `range(1, 42)`
abbrev pub is_valid_ifrs : ℕ → Bool
is_valid_ifrs n = leb 1 n && ltb n 20

abbrev pub is_valid_ias : ℕ → Bool
is_valid_ias n = leb 1 n && ltb n 42

-- one error for each cited number that is not valid
abbrev pub invalid : (ℕ → Bool) → Code → List ℕ → List Finding
invalid valid code [] = []
invalid valid code (n ∷ ns) = finding_if (not (valid n)) code error ++ invalid valid code ns

-- `content.get("citations") or []` is an empty list
abbrev pub no_citations : Fields → Bool
no_citations content = elim (get "citations" content) [ none ↦ true | some v ↦ is_falsy v ]

unfoldable pub check_citations : Patterns → Fields → List Finding
unfolding is_valid_asc
check_citations re content =
    let t = text_blob content in
    invalid is_valid_asc citation_invalid_asc (re.asc t)
    ++ (invalid is_valid_ifrs citation_invalid_ifrs (re.ifrs t)
        ++ (invalid is_valid_ias citation_invalid_ias (re.ias t)
            ++ finding_if (no_citations content) citation_none warning))
