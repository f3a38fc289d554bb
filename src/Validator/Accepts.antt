-- ===== src/Validator/Accepts.antt =====
-- When a value fits the rules of a variable, stated without the validator.
use nexus_panel.Common.{
  ◌≡◌, ◌↔◌, ◌⊎◌, inl, inr, refl, sym, ◌∙◌, true, false, Option, none, some, List, [], ◌∷◌, arith,
  map, Has, All, Bool-cases,
}
use mathlib.Core.Bool.{false≢true}
use nexus_panel.Common.Texts.{Text, codes, ◌==◌, eq_iff, trim, split_on}
use nexus_panel.Common.Js.{Js}
use mathlib.Core.Path.{subst}
use nexus_panel.Validator.Meaning.{is_number, Meets}
use nexus_panel.Validator.Variables.{
  rule_list, is_required, is_numeric_type, is_empty, check_empty, check_value,
  validate_variable_value,
}
use nexus_panel.Validator.Reading.{
  includes-Has, Has-includes, check_rules_sound, check_rules_complete,
}

is_empty-nil : (es : List Text) → is_empty es ≡ true → es ≡ []
is_empty-nil [] h = refl
is_empty-nil (e ∷ es) h = cc

not_blank : (rules : Text) → (trim rules == []) ≡ false → is_empty rules ≡ false
unfolding trim ◌==◌
not_blank [] e = cc
not_blank (c ∷ s) e = refl

is_number_lem : (rules : List Text) → is_numeric_type rules ≡ is_number rules
is_number_lem [] = refl
is_number_lem (r ∷ rs) = ground (arith, is_number_lem rs)

module _ (js : Js) where
  -- A value against the list of its rules: an empty one is refused by `required` alone, another one
  -- meets each rule.
  abbrev pub Fits : Option Text → List Text → Type 0
  Fits none rules = ¬ Has (codes "required") rules
  Fits (some []) rules = ¬ Has (codes "required") rules
  Fits (some (c ∷ s)) rules = All (Meets js (is_number rules) (c ∷ s)) rules

  -- The rules stand between bars, with white space around them. No rules accept everything.
  abbrev pub Accepts : Option Text → Text → Type 0
  Accepts v rules = (trim rules ≡ []) ⊎ Fits v (map trim (split_on b'|' rules))

  absent_iff : (rules : List Text) → (is_required rules ≡ false) ↔ (¬ Has (codes "required") rules)
  absent_iff rules = (
    λ e h. false≢true (sym e ∙ Has-includes rules (codes "required") h),
    λ no_rule. elim (Bool-cases (is_required rules)) [
      | inl e ↦ absurd (no_rule (includes-Has rules (codes "required") e))
      | inr e ↦ e
    ],
  )

  empty_iff :
      (name : Text) (rules : List Text)
      → ((check_empty name rules).valid ≡ true) ↔ (¬ Has (codes "required") rules)
  unfolding check_empty
  empty_iff name rules = elim (Bool-cases (is_required rules)) [
    | inl e ↦ (
      λ v. absurd (ground arith),
      λ no_rule. absurd (no_rule (includes-Has rules (codes "required") e)),
    )
    | inr e ↦ (λ v. (absent_iff rules).0 e, λ no_rule. ground arith)
  ]

  valid_iff_Fits :
      (name : Text) (v : Option Text) (rules : List Text)
      → ((check_value js name v rules).valid ≡ true) ↔ Fits v rules
  unfolding check_value
  valid_iff_Fits name none rules = empty_iff name rules
  valid_iff_Fits name (some []) rules = empty_iff name rules
  valid_iff_Fits name (some (c ∷ s)) rules =
      let n = is_numeric_type rules in
      let same = is_number_lem rules in
      (
        λ v.
            subst (λ b. All (Meets js b (c ∷ s)) rules) same
              (check_rules_sound js n name (c ∷ s) rules (is_empty-nil _ v)),
        λ f. rw (
            check_rules_complete js n name (c ∷ s) rules
              (subst (λ b. All (Meets js b (c ∷ s)) rules) (sym same) f)),
      )

  in_rules :
      (v : Option Text) (rules : Text)
      → Accepts v rules
      → (trim rules == []) ≡ false
      → Fits v (rule_list rules)
  in_rules v rules (inl blank) e = absurd (false≢true (sym e ∙ (eq_iff (trim rules) []).1 blank))
  in_rules v rules (inr f) e = f

  -- A value is found valid exactly when it meets the rules: there are none, or it is empty and not
  -- required, or it is not empty and meets each rule of the list.
  pub validate_variable_value_iff :
      (name : Text) (v : Option Text) (rules : Text)
      → ((validate_variable_value js name v rules).valid ≡ true) ↔ Accepts v rules
  unfolding validate_variable_value
  validate_variable_value_iff name v rules = elim (Bool-cases (trim rules == [])) [
    | inl e ↦ (λ _. inl ((eq_iff (trim rules) []).0 e), λ _. ground arith)
    | inr e ↦
        let (to, from) = valid_iff_Fits name v (rule_list rules) in
        let full = not_blank rules e in
        (λ ok. inr (to (rw (full, e) at ok)), λ a. rw (full, e) (from (in_rules v rules a e)))
  ]
