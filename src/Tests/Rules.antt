-- ===== src/Tests/Rules.antt =====
-- packages/backend/src/common/utils/variable-validator.ts at work.
use nexus_panel.Common.{◌≡◌, ◌↔◌, true, some, [], ◌∷◌, All}
use nexus_panel.Common.Texts.{codes}
use nexus_panel.Validator.Variables.{validate_variable_value, validate_server_variables}
use nexus_panel.Validator.Accepts.{Accepts, validate_variable_value_iff}
use nexus_panel.Validator.Servers.{given, validate_server_variables_iff}
use nexus_panel.Tests.Data.{js, variable}

validate_variable_value_iff_example :
    ((validate_variable_value js
        (codes "Jar")
        (some (codes "s.jar"))
        (codes "required|string")).valid
      ≡ true)
    ↔ Accepts js (some (codes "s.jar")) (codes "required|string")
validate_variable_value_iff_example =
    validate_variable_value_iff js (codes "Jar") (some (codes "s.jar")) (codes "required|string")

validate_server_variables_iff_example :
    ((validate_server_variables js [] (variable ∷ [])).valid ≡ true)
    ↔ All (λ v. Accepts js (some (given js [] v)) v.rules) (variable ∷ [])
validate_server_variables_iff_example = validate_server_variables_iff js [] (variable ∷ [])
