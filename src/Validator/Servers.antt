-- ===== src/Validator/Servers.antt =====
-- The validation of all the variables of a server: when it passes, and which keys it reports.
use nexus_panel.Common.{
  ◌≡◌, ◌↔◌, inl, inr, refl, sym, ap, ◌∙◌, Bool, true, false, not, ◌&&◌, ◌||◌, some, List, [], ◌∷◌,
  arith, all, any, All, Bool-cases, Option, none, and-true, is_some,
}
use mathlib.Core.Option.{get_or}
use nexus_panel.Common.Texts.{Text, ◌==◌}
use nexus_panel.Common.Dicts
use nexus_panel.Common.Dicts.{lookup-insert}
use nexus_panel.Database.Entities.{EggVariable}
use nexus_panel.Common.Js.{Js}
use nexus_panel.Validator.Variables.{
  is_empty, value_of, add_errors, collect_errors, validate_variable_value,
  validate_server_variables,
}
use nexus_panel.Validator.Accepts.{Accepts, validate_variable_value_iff}

and_true : (a : Bool) → (a && true) ≡ a
and_true a = ground arith

and_false : (a : Bool) → (a && false) ≡ false
and_false a = ground arith

and_assoc : (a b c : Bool) → ((a && b) && c) ≡ (a && (b && c))
and_assoc a b c = ground arith

or_false : (a : Bool) → (a || false) ≡ a
or_false a = ground arith

or_assoc : (a b c : Bool) → ((a || b) || c) ≡ (a || (b || c))
or_assoc a b c = ground arith

insert-full :
    (k : Text) (e : List Text) (m : List (Text × List Text)) → is_empty (Dicts.insert k e m) ≡ false
insert-full k e [] = refl
insert-full k e ((j, w) ∷ m) = ground arith

-- The value that a variable is to have: the one that is given, else the default.
abbrev pub given_or : Option Text → Text → Text
given_or (some t) default = t
given_or none default = default

given_or_lem : (o : Option Text) (default : Text) → get_or o default ≡ given_or o default
given_or_lem none default = refl
given_or_lem (some t) default = refl

module _ (js : Js) (variables : List (Text × Text)) where
  -- The value that a variable gets passes its rules.
  abbrev pub passes : EggVariable → Bool
  passes v = (validate_variable_value js v.name (some (value_of js variables v)) v.rules).valid

  add_errors-empty :
      (errors : List (Text × List Text)) (v : EggVariable)
      → is_empty (add_errors js variables errors v) ≡ (is_empty errors && passes v)
  unfolding add_errors
  add_errors-empty errors v = elim (Bool-cases (passes v)) [
    | inl e ↦ rw e (sym (and_true (is_empty errors)))
    | inr e ↦ rw e (insert-full v.env_variable _ errors ∙ sym (and_false (is_empty errors)))
  ]

  collect_errors-empty :
      (errors : List (Text × List Text)) (vs : List EggVariable)
      → is_empty (collect_errors js variables errors vs) ≡ (is_empty errors && all passes vs)
  unfolding collect_errors
  collect_errors-empty errors [] = sym (and_true (is_empty errors))
  collect_errors-empty errors (v ∷ vs) =
      collect_errors-empty (add_errors js variables errors v) vs
      ∙ ap (λ b. b && all passes vs) (add_errors-empty errors v)
      ∙ and_assoc (is_empty errors) (passes v) (all passes vs)

  abbrev pub given : EggVariable → Text
  given v = given_or (Dicts.lookup v.env_variable variables) v.default_value

  value_of_lem : (v : EggVariable) → value_of js variables v ≡ given v
  value_of_lem v = given_or_lem (Dicts.lookup v.env_variable variables) v.default_value

  all_iff :
      (vs : List EggVariable)
      → (all passes vs ≡ true) ↔ All (λ v. Accepts js (some (given v)) v.rules) vs
  all_iff [] = (λ _. tt, λ _. refl)
  all_iff (v ∷ vs) =
      let (to, from) : (passes v ≡ true) ↔ Accepts js (some (given v)) v.rules =
        rw (value_of_lem v) (validate_variable_value_iff js v.name (some (given v)) v.rules) in
      let (tos, froms) = all_iff vs in
      (
        λ h. let (a, b) = and-true (passes v) (all passes vs) h in (to a, tos b),
        λ h. rw (from h.0) (froms h.1),
      )

  -- The variables of a server are found valid exactly when the value of each egg variable, its
  -- default where none is given, meets its rules.
  pub validate_server_variables_iff :
      (vs : List EggVariable)
      → ((validate_server_variables js variables vs).valid ≡ true)
        ↔ All (λ v. Accepts js (some (given v)) v.rules) vs
  unfolding validate_server_variables
  validate_server_variables_iff vs =
      let (to, from) = all_iff vs in
      let e = collect_errors-empty [] vs in (λ h. to (sym e ∙ h), λ h. e ∙ from h)

  -- The variable reports an error under the key.
  abbrev pub reports : Text → EggVariable → Bool
  reports k v = v.env_variable == k && not (passes v)

  add_errors-lookup :
      (k : Text) (errors : List (Text × List Text)) (v : EggVariable)
      → is_some (Dicts.lookup k (add_errors js variables errors v))
        ≡ (is_some (Dicts.lookup k errors) || reports k v)
  unfolding add_errors
  add_errors-lookup k errors v = ground (
    arith,
    lookup-insert v.env_variable k
        (validate_variable_value js v.name (some (value_of js variables v)) v.rules).errors errors,
  )

  collect_errors-lookup :
      (k : Text) (errors : List (Text × List Text)) (vs : List EggVariable)
      → is_some (Dicts.lookup k (collect_errors js variables errors vs))
        ≡ (is_some (Dicts.lookup k errors) || any (reports k) vs)
  unfolding collect_errors
  collect_errors-lookup k errors [] = sym (or_false (is_some (Dicts.lookup k errors)))
  collect_errors-lookup k errors (v ∷ vs) =
      collect_errors-lookup k (add_errors js variables errors v) vs
      ∙ ap (λ b. b || any (reports k) vs) (add_errors-lookup k errors v)
      ∙ or_assoc (is_some (Dicts.lookup k errors)) (reports k v) (any (reports k) vs)

  -- The error object has an entry for a key exactly when the value of some egg variable with that
  -- key breaks its rules.
  pub validate_server_variables-keys :
      (k : Text) (vs : List EggVariable)
      → is_some (Dicts.lookup k (validate_server_variables js variables vs).errors)
        ≡ any (reports k) vs
  unfolding validate_server_variables
  validate_server_variables-keys k vs = collect_errors-lookup k [] vs
