-- ===== src/Validator/Rules.antt =====
-- packages/backend/src/common/utils/variable-validator.ts: one rule of a variable, how it is read and
-- what it demands.
use nexus_panel.Common.{
  Bool, true, false, not, ◌||◌, Option, none, some, List, [], ◌∷◌, ◌++◌, if◌then◌else◌, length,
}
use nexus_panel.Common.Js.{Js}
use nexus_panel.Common.Texts.{
  Text, codes, ◌==◌, includes, strip_prefix, split_on, before_last, join,
}

-- A rule as the chain of tests in the loop reads it.
pub data Rule : Type 0 where
  passive string numeric integer boolean unknown : Rule
  between one_of : List Text → Rule
  regex min max : Text → Rule

abbrev or_else : Option Rule → Rule → Rule
or_else none r = r
or_else (some q) r = q

-- `rule.startsWith(prefix)` with the use of `rule.slice(prefix.length)`.
abbrev when_prefixed : Text → Text → (Text → Rule) → Rule → Rule
when_prefixed prefix rule read rest = elim (strip_prefix prefix rule) [
  | some argument ↦ read argument
  | none ↦ rest
]

read_prefixed : Text → Rule
read_prefixed rule =
    when_prefixed (codes "between:") rule (λ a. between (split_on b',' a))
      (when_prefixed (codes "in:") rule (λ a. one_of (split_on b',' a))
        (when_prefixed (codes "regex:") rule regex
          (when_prefixed (codes "min:") rule min (when_prefixed (codes "max:") rule max unknown))))

unfoldable pub read_rule : Text → Rule
unfolding read_prefixed
read_rule rule =
    if rule == codes "required" || rule == codes "nullable"
    then passive
    else if rule == codes "string"
    then string
    else if rule == codes "numeric"
    then numeric
    else if rule == codes "integer"
    then integer
    else if rule == codes "boolean"
    then boolean
    else read_prefixed rule

abbrev pub booleans : List Text
booleans = codes "true" ∷ codes "false" ∷ codes "1" ∷ codes "0" ∷ []

-- The delimiters of `/pattern/` are dropped where both are there.
unfoldable pub clean_pattern : Text → Text
clean_pattern [] = []
clean_pattern (c ∷ s) =
    if (c ∷ []) == codes "/"
    then elim (before_last b'/' s) [ some inner ↦ inner | none ↦ c ∷ s ]
    else c ∷ s

module _ (js : Js) where
  open js use {Number, of_text, of_ℕ, is_nan, is_integer, less, show, reg_exp}

  -- The messages.
  says : Text → Text → Text
  says name message = name ++ message

  abbrev complain_if : Bool → Text → List Text
  complain_if true message = message ∷ []
  complain_if false message = []

  check_between : Text → Text → List Text → List Text
  unfolding says
  check_between name value [] = []
  check_between name value (a ∷ []) = []
  check_between name value (a ∷ b ∷ c ∷ rest) = []
  check_between name value (a ∷ b ∷ []) =
      complain_if
        (is_nan (of_text value)
          || less (of_text value) (of_text a)
          || less (of_text b) (of_text value))
        (says name (
          codes " must be between "
          ++ (show (of_text a) ++ (codes " and " ++ (show (of_text b) ++ codes ".")))))

  check_regex : Text → Text → Option (Text → Bool) → List Text
  unfolding says
  check_regex name value none = says name (codes " has an invalid regex rule.") ∷ []
  check_regex name value (some test) =
      complain_if (not (test value)) (says name (codes " does not match the required pattern."))

  -- One round of the loop: the errors that a rule adds for a value that is not empty.
  unfoldable pub check_rule : Bool → Text → Text → Rule → List Text
  unfolding says check_between check_regex
  check_rule is_numeric name value passive = []
  check_rule is_numeric name value string = []
  check_rule is_numeric name value unknown = []
  check_rule is_numeric name value numeric =
      complain_if (is_nan (of_text value)) (says name (codes " must be numeric."))
  check_rule is_numeric name value integer =
      complain_if (not (is_integer (of_text value)) || is_nan (of_text value))
        (says name (codes " must be an integer."))
  check_rule is_numeric name value boolean =
      complain_if (not (includes booleans value))
        (says name (codes " must be a boolean (true, false, 1, or 0)."))
  check_rule is_numeric name value (between params) = check_between name value params
  check_rule is_numeric name value (one_of options) =
      complain_if (not (includes options value))
        (says name (codes " must be one of: " ++ (join (codes ", ") options ++ codes ".")))
  check_rule is_numeric name value (regex pattern) =
      check_regex name value (reg_exp (clean_pattern pattern))
  check_rule true name value (min bound) =
      complain_if (is_nan (of_text value) || less (of_text value) (of_text bound))
        (says name (codes " must be at least " ++ (show (of_text bound) ++ codes ".")))
  check_rule false name value (min bound) =
      complain_if (less (of_ℕ (length value)) (of_text bound))
        (says name (codes " must be at least " ++ (show (of_text bound) ++ codes " characters.")))
  check_rule true name value (max bound) =
      complain_if (is_nan (of_text value) || less (of_text bound) (of_text value))
        (says name (codes " must be no more than " ++ (show (of_text bound) ++ codes ".")))
  check_rule false name value (max bound) =
      complain_if (less (of_text bound) (of_ℕ (length value))) (
        says name
          (codes " must be no more than " ++ (show (of_text bound) ++ codes " characters.")))
