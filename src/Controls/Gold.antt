-- ===== src/Controls/Gold.antt =====
-- `gold_answer_matches` of src/factory/controls.py: the keyword check of gold tasks.
use human_data.Validators.Run.{lower, main_text}
use human_data.Prelude.{
  List, Option, ℕ, Bool, some, true, ◌∷◌, ◌||◌, false, ◌==◌, [], ◌&&◌, not, String, none,
  if◌then◌else◌,
}
use human_data.Config.{Env, Convert}
use human_data.Model.Json.{Json, Fields, arr, get, Items, nil, cons, obj, field, text, end}
use human_data.Model.Enums.{TaskType}
use human_data.Validators.{codes}

abbrev starts : List ℕ → List ℕ → Bool
starts [] s = true
starts (c ∷ t) [] = false
starts (c ∷ t) (d ∷ s) = c == d && starts t s

-- `t in s`
unfoldable pub occurs : List ℕ → List ℕ → Bool
occurs t [] = starts t []
occurs t (d ∷ s) = starts t (d ∷ s) || occurs t s

-- `for term in gold_answer.get(key, [])`: the entries of a list, the keys of a dict, the characters of
-- a text; `none` is the TypeError of a value that is none of these
abbrev keys_in : Fields → Items
keys_in end = nil
keys_in (field key v d) = cons (text key) (keys_in d)

abbrev characters_in : String → Items
characters_in String.[] = nil
characters_in (String.◌∷◌ c s) = cons (text (String.◌∷◌ c String.[])) (characters_in s)

abbrev terms : Option Json → Option Items
terms none = some nil
terms (some (arr items)) = some items
terms (some (obj d)) = some (keys_in d)
terms (some (text s)) = some (characters_in s)
terms (some _) = none

-- The two loops stop at the first term that is `wanted` or is not in the text; an entry that is no
-- text raises an AttributeError, which `none` is too.
unfoldable pub each : Convert → Bool → List ℕ → Items → Option Bool
unfolding occurs
each convert wanted s nil = some true
each convert wanted s (cons (text term) items) =
    let rest = each convert wanted s items in
    let found = occurs (lower convert (codes term)) s in
    if (if wanted then found else not found) then rest else some false
each convert wanted s (cons _ items) = none

abbrev each_of : Convert → Bool → List ℕ → Option Items → Option Bool
each_of convert wanted s none = none
each_of convert wanted s (some items) = each convert wanted s items

abbrev and_then : Option Bool → Option Bool → Option Bool
and_then (some true) next = next
and_then stopped next = stopped

-- the second loop is reached where the first has found all of its terms
unfoldable pub gold_answer_matches : Env → Fields → Fields → TaskType → Option Bool
unfolding each
gold_answer_matches env content gold_answer task_type =
    let s = lower env.convert (main_text env content task_type) in
    and_then (each_of env.convert true s (terms (get "must_include" gold_answer)))
      (each_of env.convert false s (terms (get "must_not_include" gold_answer)))
