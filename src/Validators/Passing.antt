-- ===== src/Validators/Passing.antt =====
-- Which content the checks of src/factory/validators.py let through.
use human_data.Validators.{
  Finding, passed, errors, Code, missing, finding_if, is_absent, is_error, warning, error, invalid,
  check_schema, check_citations, check_pii, schema_missing_field, is_valid_asc, check_placeholders,
  main_length, text_blob, is_card, is_valid_ifrs, main_key, is_valid_ias, schema_too_short,
  contains, duplicate_content, placeholder_text, finding, fin_balance_sheet, fin_je_unbalanced,
  fin_balance_sheet_shape, fin_je_shape,
}
use human_data.Model.Json.{Fields, get, Json, obj, arr, cons, bool, int, real, text, null, nil}
use human_data.Prelude.{
  List, ℕ, ◌++◌, String, Bool, not, ◌≡◌, all, [], ◌&&◌, true, ◌∙◌, refl, ◌∷◌, false, arith, sym,
  ap₂, any, ltb, ◌==◌, ◌||◌, leb, not-not, Option, some, ap, none,
}
use human_data.Config.{Patterns, Env, Convert, Amount}
use human_data.Validators.Run.{run_all, check_duplicate, content_fingerprint}
use human_data.Model.Enums.{TaskType}
use human_data.Rubrics.{required_fields, min_response_chars}
use human_data.Validators.Financials.{
  required, check_financial_consistency, check_journal_entries, check_balance_sheet, tie_out,
  differs, balance, add, plus,
}
use human_data.Validators.Financials.TieOut.{
  financials_tie, entries_tie, sheet_ties, summed, both_tie, ties, sides_tie, sum_amounts,
  differs_lem, total-summed, amounts_of,
}

passed-all : (findings : List Finding) → passed findings ≡ all (λ f. not (is_error f)) findings
unfolding passed errors
passed-all [] = refl
passed-all (f ∷ fs) = ground (arith, passed-all fs)

all-append_lem :
    (p : Finding → Bool) (xs ys : List Finding) → all p (xs ++ ys) ≡ (all p xs && all p ys)
all-append_lem p [] ys = refl
all-append_lem p (x ∷ xs) ys = ground (arith, all-append_lem p xs ys)

passed-append : (xs ys : List Finding) → passed (xs ++ ys) ≡ (passed xs && passed ys)
passed-append xs ys =
    passed-all (xs ++ ys) ∙ all-append_lem _ xs ys ∙ sym (ap₂ ◌&&◌ (passed-all xs) (passed-all ys))

passed-finding_error : (b : Bool) (code : Code) → passed (finding_if b code error) ≡ not b
unfolding passed errors
passed-finding_error true code = refl
passed-finding_error false code = refl

passed-finding_warning : (b : Bool) (code : Code) → passed (finding_if b code warning) ≡ true
unfolding passed errors
passed-finding_warning true code = refl
passed-finding_warning false code = refl

passed-nil : passed [] ≡ true
unfolding passed errors
passed-nil = refl

passed-missing :
    (content : Fields) (fs : List String)
    → passed (missing content fs) ≡ all (λ f. not (is_absent (get f content))) fs
passed-missing content [] = passed-nil
passed-missing content (f ∷ fs) =
    passed-append (finding_if (is_absent (get f content)) (schema_missing_field f) error)
      (missing content fs)
    ∙ ap₂ ◌&&◌ (passed-finding_error (is_absent (get f content)) (schema_missing_field f))
        (passed-missing content fs)

passed-invalid :
    (valid : ℕ → Bool) (code : Code) (ns : List ℕ) → passed (invalid valid code ns) ≡ all valid ns
passed-invalid valid code [] = passed-nil
passed-invalid valid code (n ∷ ns) =
    passed-append (finding_if (not (valid n)) code error) (invalid valid code ns)
    ∙ ap₂ ◌&&◌ (passed-finding_error (not (valid n)) code ∙ not-not (valid n))
        (passed-invalid valid code ns)

-- the main field is absent, empty, no text, or long enough
abbrev pub is_long_enough : Fields → TaskType → Bool
is_long_enough content task_type =
    let n = main_length (get (main_key task_type) content) in n == 0 || leb min_response_chars n

-- every required field is there
abbrev pub is_complete : Fields → TaskType → Bool
is_complete content task_type =
    all (λ f. not (is_absent (get f content))) (required_fields task_type)

abbrev pub has_no_pii : Patterns → List ℕ → Bool
has_no_pii re t = not (re.ssn t) && not (re.email t) && not (any is_card (re.card t))

abbrev pub cites_existing : Patterns → List ℕ → Bool
cites_existing re t =
    all is_valid_asc (re.asc t) && all is_valid_ifrs (re.ifrs t) && all is_valid_ias (re.ias t)

passed-check_schema :
    (content : Fields) (task_type : TaskType)
    → passed (check_schema content task_type)
      ≡ (is_complete content task_type && is_long_enough content task_type)
unfolding check_schema required_fields
passed-check_schema content task_type =
    let n = main_length (get (main_key task_type) content) in
    passed-append (missing content (required_fields task_type))
      (finding_if (ltb 0 n && ltb n min_response_chars) schema_too_short error)
    ∙ ap₂ ◌&&◌ (passed-missing content (required_fields task_type)) (
        passed-finding_error (ltb 0 n && ltb n min_response_chars) schema_too_short
        ∙ (ground arith))

passed-check_pii :
    (re : Patterns) (content : Fields)
    → passed (check_pii re content) ≡ has_no_pii re (text_blob content)
unfolding check_pii
passed-check_pii re content =
    simp (passed-append, passed-finding_error, passed-finding_warning) (ground arith)

passed-check_citations :
    (re : Patterns) (content : Fields)
    → passed (check_citations re content) ≡ cites_existing re (text_blob content)
unfolding check_citations is_valid_asc
passed-check_citations re content =
    simp (passed-append, passed-invalid, passed-finding_warning) (ground arith)

passed-duplicates :
    (env : Env) (content : Fields) (task_type : TaskType) (existing : List ℕ)
    → passed (elim existing [ [] ↦ [] | f ∷ fs ↦ check_duplicate env content task_type (f ∷ fs) ])
      ≡ not (contains (content_fingerprint env content task_type) existing)
unfolding check_duplicate
passed-duplicates env content task_type [] = passed-nil
passed-duplicates env content task_type (f ∷ fs) =
    passed-finding_error (contains (content_fingerprint env content task_type) (f ∷ fs))
      duplicate_content

passed-check_placeholders :
    (re : Patterns) (content : Fields)
    → passed (check_placeholders re content) ≡ not (re.placeholder (text_blob content))
unfolding check_placeholders
passed-check_placeholders re content =
    passed-finding_error (re.placeholder (text_blob content)) placeholder_text

passed-finding : (code : Code) → passed (finding code error ∷ []) ≡ false
unfolding passed errors
passed-finding code = refl

passed-differs :
    (c : Convert) (a b : Amount) (code : Code)
    → passed (finding_if (differs c a b) code error) ≡ ties c a b
passed-differs c a b code =
    passed-finding_error (differs c a b) code ∙ ap not (differs_lem c a b) ∙ not-not (ties c a b)

passed-tie_out :
    (c : Convert) (a l e : Option Amount) → passed (tie_out c a l e) ≡ both_tie c a (add l e)
passed-tie_out c (some a) (some l) (some e) = passed-differs c a (plus l e) fin_balance_sheet
passed-tie_out c (some a) (some l) none = passed-finding fin_balance_sheet_shape
passed-tie_out c (some a) none e = passed-finding fin_balance_sheet_shape
passed-tie_out c none l e = passed-finding fin_balance_sheet_shape

passed-balance :
    (c : Convert) (ds cs : Option (List Amount))
    → passed (balance c (summed ds) (summed cs)) ≡ sides_tie c ds cs
passed-balance c (some ds) (some cs) =
    passed-differs c (sum_amounts ds) (sum_amounts cs) fin_je_unbalanced
passed-balance c (some ds) none = passed-finding fin_je_shape
passed-balance c none cs = passed-finding fin_je_shape

passed-check_balance_sheet :
    (c : Convert) (sheet : Option Json) → passed (check_balance_sheet c sheet) ≡ sheet_ties c sheet
unfolding check_balance_sheet
passed-check_balance_sheet c (some (obj bs)) =
    passed-tie_out c (required c "assets" bs) (required c "liabilities" bs) (required c "equity" bs)
passed-check_balance_sheet c (some null) = passed-nil
passed-check_balance_sheet c (some (bool b)) = passed-nil
passed-check_balance_sheet c (some (int n)) = passed-nil
passed-check_balance_sheet c (some (real n)) = passed-nil
passed-check_balance_sheet c (some (text s)) = passed-nil
passed-check_balance_sheet c (some (arr vs)) = passed-nil
passed-check_balance_sheet c none = passed-nil

passed-check_journal_entries :
    (c : Convert) (entries : Option Json)
    → passed (check_journal_entries c entries) ≡ entries_tie c entries
unfolding check_journal_entries
passed-check_journal_entries c (some (arr nil)) = passed-nil
passed-check_journal_entries c (some (arr (cons v items))) =
    rw (total-summed c "debit" (cons v items), total-summed c "credit" (cons v items))
      (passed-balance c (amounts_of c "debit" (cons v items))
        (amounts_of c "credit" (cons v items)))
passed-check_journal_entries c (some (obj d)) = passed-nil
passed-check_journal_entries c (some null) = passed-nil
passed-check_journal_entries c (some (bool b)) = passed-nil
passed-check_journal_entries c (some (int n)) = passed-nil
passed-check_journal_entries c (some (real n)) = passed-nil
passed-check_journal_entries c (some (text s)) = passed-nil
passed-check_journal_entries c none = passed-nil

passed-check_financials :
    (c : Convert) (financials : Option Json)
    → passed (elim financials [
      | some (obj fin) ↦
          check_balance_sheet c (get "balance_sheet" fin)
          ++ check_journal_entries c (get "journal_entries" fin)
      | _ ↦ []
    ])
      ≡ elim financials [
        | some (obj fin) ↦
            sheet_ties c (get "balance_sheet" fin) && entries_tie c (get "journal_entries" fin)
        | _ ↦ true
      ]
passed-check_financials c (some (obj fin)) =
    passed-append (check_balance_sheet c (get "balance_sheet" fin))
      (check_journal_entries c (get "journal_entries" fin))
    ∙ ap₂ ◌&&◌ (passed-check_balance_sheet c (get "balance_sheet" fin))
        (passed-check_journal_entries c (get "journal_entries" fin))
passed-check_financials c (some null) = passed-nil
passed-check_financials c (some (bool b)) = passed-nil
passed-check_financials c (some (int n)) = passed-nil
passed-check_financials c (some (real n)) = passed-nil
passed-check_financials c (some (text s)) = passed-nil
passed-check_financials c (some (arr vs)) = passed-nil
passed-check_financials c none = passed-nil

passed-check_financial_consistency :
    (c : Convert) (content : Fields)
    → passed (check_financial_consistency c content) ≡ financials_tie c content
unfolding check_financial_consistency
passed-check_financial_consistency c content = passed-check_financials c (get "financials" content)

-- Content passes the checks exactly if the required fields are there, the main text is not too
-- short, no number of a person, email or card is found, no placeholder is left, each cited standard
-- exists, the balance sheet and the journal of the financials, where they are given, tie out to a cent
-- or hold an amount that is not a number, and no submission that counts has the same fingerprint.
pub run_all-passed :
    (env : Env) (content : Fields) (task_type : TaskType) (existing : List ℕ)
    → passed (run_all env content task_type existing) ≡ (
        is_complete content task_type
        && is_long_enough content task_type
        && has_no_pii env.patterns (text_blob content)
        && not (env.patterns.placeholder (text_blob content))
        && cites_existing env.patterns (text_blob content)
        && financials_tie env.convert content
        && not (contains (content_fingerprint env content task_type) existing))
unfolding run_all
run_all-passed env content task_type existing =
    simp
      (
        passed-append, passed-check_schema, passed-check_pii, passed-check_placeholders,
        passed-check_citations, passed-duplicates, passed-check_financial_consistency,
      )
      (ground arith)
