-- ===== src/Validator/Variables.antt =====
-- packages/backend/src/common/utils/variable-validator.ts: the validation of a value, and of all the
-- variables of a server.
use nexus_panel.Common.{
  Bool, true, false, not, ◌||◌, Option, none, some, List, [], ◌∷◌, ◌++◌, if◌then◌else◌, map,
}
use mathlib.Core.Option.{get_or}
use nexus_panel.Common.Texts.{Text, codes, ◌==◌, includes, split_on, trim}
use nexus_panel.Common.Dicts
use nexus_panel.Database.Entities.{EggVariable}
use nexus_panel.Common.Js.{Js}
use nexus_panel.Validator.Rules.{read_rule, check_rule}

pub record ValidationResult : Type 0 where
  pub valid : Bool
  pub errors : List Text

pub record ServerValidation : Type 0 where
  pub valid : Bool
  pub errors : List (Text × List Text)

abbrev pub is_empty {ℓ} : {A : Type ℓ} → List A → Bool
is_empty [] = true
is_empty (x ∷ xs) = false

abbrev pub rule_list : Text → List Text
rule_list rules = map trim (split_on b'|' rules)

abbrev pub is_required : List Text → Bool
is_required rules = includes rules (codes "required")

abbrev pub is_nullable : List Text → Bool
is_nullable rules = includes rules (codes "nullable")

abbrev pub is_numeric_type : List Text → Bool
is_numeric_type rules = includes rules (codes "numeric") || includes rules (codes "integer")

abbrev verdict : List Text → ValidationResult
verdict errors = record { valid = is_empty errors; errors = errors }

-- A missing, null or empty value.
unfoldable pub check_empty : Text → List Text → ValidationResult
check_empty name rules =
    let errors = if is_required rules then (name ++ codes " is required.") ∷ [] else [] in
    if is_nullable rules || not (is_required rules)
    then verdict errors
    else record { valid = false; errors = errors }

module _ (js : Js) where
  -- The loop over the rules.
  unfoldable pub check_rules : Bool → Text → Text → List Text → List Text
  check_rules numeric name value [] = []
  check_rules numeric name value (rule ∷ rules) =
      check_rule js numeric name value (read_rule rule) ++ check_rules numeric name value rules

  unfoldable pub check_value : Text → Option Text → List Text → ValidationResult
  unfolding check_empty
  check_value name none rules = check_empty name rules
  check_value name (some []) rules = check_empty name rules
  check_value name (some (c ∷ s)) rules =
      verdict (check_rules (is_numeric_type rules) name (c ∷ s) rules)

  unfoldable pub validate_variable_value : Text → Option Text → Text → ValidationResult
  unfolding check_value
  validate_variable_value name value rules =
      if is_empty rules || trim rules == []
      then record { valid = true; errors = [] }
      else check_value name value (rule_list rules)

  -- `variables[key] ?? default`.
  abbrev pub value_of : List (Text × Text) → EggVariable → Text
  value_of variables v = get_or (Dicts.lookup v.env_variable variables) v.default_value

  -- One round of the loop over the egg variables.
  unfoldable pub add_errors :
      List (Text × Text) → List (Text × List Text) → EggVariable → List (Text × List Text)
  add_errors variables errors v =
      let result = validate_variable_value v.name (some (value_of variables v)) v.rules in
      if result.valid then errors else Dicts.insert v.env_variable result.errors errors

  unfoldable pub collect_errors :
      List (Text × Text) → List (Text × List Text) → List EggVariable → List (Text × List Text)
  unfolding add_errors
  collect_errors variables errors [] = errors
  collect_errors variables errors (v ∷ vs) =
      collect_errors variables (add_errors variables errors v) vs

  unfoldable pub validate_server_variables :
      List (Text × Text) → List EggVariable → ServerValidation
  unfolding collect_errors
  validate_server_variables variables egg_variables =
      let errors = collect_errors variables [] egg_variables in
      record { valid = is_empty errors; errors = errors }
