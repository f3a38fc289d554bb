-- ===== src/Validator/Reading.antt =====
-- packages/backend/src/common/utils/variable-validator.ts: the chain of tests finds in the text of a rule what the rule
-- means.
use nexus_panel.Common.{
  ◌≡◌, ◌↔◌, inl, inr, refl, sym, ◌∙◌, Bool, true, false, none, some, List, [], ◌∷◌, ◌++◌, arith, ap,
  length, Has, All, Bool-cases, Option-cases,
}
use nexus_panel.Common.Texts.{Text, codes, ◌==◌, eq_iff, includes, strip_prefix, strip_prefix_sound}
use nexus_panel.Common.Js.{Js}
use mathlib.Core.Path.{subst}
use nexus_panel.Validator.Meaning.{
  InRange, Matches, AtLeast, AtMost, Meets, clean_pattern-IsPattern, IsPattern-clean_pattern,
}
use nexus_panel.Validator.Rules.{
  Rule, passive, string, numeric, integer, boolean, unknown, between, one_of, regex, min, max,
  booleans, clean_pattern, read_rule, check_rule,
}
use nexus_panel.Validator.Variables.{check_rules}

pub includes-Has : (ts : List Text) (s : Text) → includes ts s ≡ true → Has s ts
includes-Has [] s h = cc
includes-Has (t ∷ ts) s h = ground (arith, eq_iff t s, includes-Has ts s)

pub Has-includes : (ts : List Text) (s : Text) → Has s ts → includes ts s ≡ true
Has-includes [] s h = absurd h
Has-includes (t ∷ ts) s (inl e) = ground (arith, eq_iff t s)
Has-includes (t ∷ ts) s (inr h) = ground (arith, Has-includes ts s h)

append-nil_split : (xs ys : List Text) → xs ++ ys ≡ [] → (xs ≡ []) × (ys ≡ [])
append-nil_split [] ys h = (refl, h)
append-nil_split (x ∷ xs) ys h = cc

module _ (js : Js) where
  open js use {of_text, of_ℕ, is_nan, is_integer, less, reg_exp}

  -- When the code finds a rule that it has read met; the Boolean says that a rule makes the value a number.
  abbrev Holds : Bool → Text → Rule → Type 0
  Holds as_number v passive = Unit
  Holds as_number v string = Unit
  Holds as_number v unknown = Unit
  Holds as_number v numeric = is_nan (of_text v) ≡ false
  Holds as_number v integer = (is_integer (of_text v) ≡ true) × (is_nan (of_text v) ≡ false)
  Holds as_number v boolean = Has v booleans
  Holds as_number v (between params) = InRange js v params
  Holds as_number v (one_of options) = Has v options
  Holds as_number v (regex pattern) =
      (test : Text → Bool) × (reg_exp (clean_pattern pattern) ≡ some test) × (test v ≡ true)
  Holds true v (min bound) =
      (is_nan (of_text v) ≡ false) × (less (of_text v) (of_text bound) ≡ false)
  Holds false v (min bound) = less (of_ℕ (length v)) (of_text bound) ≡ false
  Holds true v (max bound) =
      (is_nan (of_text v) ≡ false) × (less (of_text bound) (of_text v) ≡ false)
  Holds false v (max bound) = less (of_text bound) (of_ℕ (length v)) ≡ false

  check_rule_sound :
      (n : Bool) (name v : Text) (r : Rule) → check_rule js n name v r ≡ [] → Holds n v r
  unfolding check_rule
  check_rule_sound n name v passive h = tt
  check_rule_sound n name v string h = tt
  check_rule_sound n name v unknown h = tt
  check_rule_sound n name v numeric h = ground arith
  check_rule_sound n name v integer h = ground arith
  check_rule_sound n name v boolean h = includes-Has booleans v (ground arith)
  check_rule_sound n name v (between []) h = tt
  check_rule_sound n name v (between (a ∷ [])) h = tt
  check_rule_sound n name v (between (a ∷ b ∷ [])) h = ground arith
  check_rule_sound n name v (between (a ∷ b ∷ c ∷ rest)) h = tt
  check_rule_sound n name v (one_of options) h = includes-Has options v (ground arith)
  check_rule_sound n name v (regex pattern) h =
      elim (Option-cases (reg_exp (clean_pattern pattern))) [
        | inl bad ↦ absurd (ground arith)
        | inr (test, e) ↦ (test, e, ground arith)
      ]
  check_rule_sound true name v (min bound) h = ground arith
  check_rule_sound false name v (min bound) h = ground arith
  check_rule_sound true name v (max bound) h = ground arith
  check_rule_sound false name v (max bound) h = ground arith

  check_rule_complete :
      (n : Bool) (name v : Text) (r : Rule) → Holds n v r → check_rule js n name v r ≡ []
  unfolding check_rule
  check_rule_complete n name v passive h = refl
  check_rule_complete n name v string h = refl
  check_rule_complete n name v unknown h = refl
  check_rule_complete n name v numeric h = rw h
  check_rule_complete n name v integer h = rw (h.0, h.1)
  check_rule_complete n name v boolean h = rw (Has-includes booleans v h)
  check_rule_complete n name v (between []) h = refl
  check_rule_complete n name v (between (a ∷ [])) h = refl
  check_rule_complete n name v (between (a ∷ b ∷ [])) h = ground arith
  check_rule_complete n name v (between (a ∷ b ∷ c ∷ rest)) h = refl
  check_rule_complete n name v (one_of options) h = rw (Has-includes options v h)
  check_rule_complete n name v (regex pattern) (test, e, p) = ground arith
  check_rule_complete true name v (min bound) h = ground arith
  check_rule_complete false name v (min bound) h = ground arith
  check_rule_complete true name v (max bound) h = ground arith
  check_rule_complete false name v (max bound) h = ground arith

  -- One step of the chain of tests: the rule has this text, or it has not.
  by_text :
      (P : Text → Type 0) (t rule : Text)
      → (rule ≡ t → P t)
      → ((rule == t) ≡ false → P rule)
      → P rule
  by_text P t rule hit miss = elim (Bool-cases (rule == t)) [
    | inl e ↦ let whole = (eq_iff rule t).0 e in subst P (sym whole) (hit whole)
    | inr e ↦ miss e
  ]

  by_prefix :
      (P : Text → Type 0) (t rule : Text)
      → ((a : Text) → rule ≡ t ++ a → P (t ++ a))
      → (strip_prefix t rule ≡ none → P rule)
      → P rule
  by_prefix P t rule hit miss = elim (Option-cases (strip_prefix t rule)) [
    | inl e ↦ miss e
    | inr (a, e) ↦ let whole = strip_prefix_sound t rule a e in subst P (sym whole) (hit a whole)
  ]

  at_least : (n : Bool) (v a : Text) → Holds n v (min a) ↔ AtLeast js n v a
  at_least true v a = (λ h. h, λ h. h)
  at_least false v a = (λ h. h, λ h. h)

  at_most : (n : Bool) (v a : Text) → Holds n v (max a) ↔ AtMost js n v a
  at_most true v a = (λ h. h, λ h. h)
  at_most false v a = (λ h. h, λ h. h)

  Matches-Holds : (n : Bool) (v a : Text) → Matches js v a → Holds n v (regex a)
  Matches-Holds n v a (pattern, test, meant, e, p) =
      (test, ap reg_exp (sym (IsPattern-clean_pattern a pattern meant)) ∙ e, p)

  read_rule_sound : (n : Bool) (v rule : Text) → Holds n v (read_rule rule) → Meets js n v rule
  unfolding read_rule ◌==◌ strip_prefix
  read_rule_sound n v rule h =
      let at : (t : Text) → rule ≡ t → Holds n v (read_rule t) =
        λ t e. subst (λ r. Holds n v (read_rule r)) e h in
      (
        λ e. at (codes "numeric") e,
        λ e. at (codes "integer") e,
        λ e. at (codes "boolean") e,
        λ a e. at (codes "between:" ++ a) e,
        λ a e. at (codes "in:" ++ a) e,
        λ a e.
            let (test, found, p) = at (codes "regex:" ++ a) e in
            (clean_pattern a, test, clean_pattern-IsPattern a, found, p),
        λ a e. (at_least n v a).0 (at (codes "min:" ++ a) e),
        λ a e. (at_most n v a).0 (at (codes "max:" ++ a) e),
      )

  read_rule_complete : (n : Bool) (v rule : Text) → Meets js n v rule → Holds n v (read_rule rule)
  unfolding read_rule ◌==◌ strip_prefix
  read_rule_complete n v rule (nums, ints, bools, betweens, ins, regexes, mins, maxs) =
      let P : Text → Type 0 = λ r. Holds n v (read_rule r) in
      by_text P (codes "required") rule (λ _. tt)
        (λ a.
          by_text P (codes "nullable") rule (λ _. tt)
            (λ b.
              by_text P (codes "string") rule (λ _. tt)
                (λ c. by_text P (codes "numeric") rule nums (λ d.
                  by_text P (codes "integer") rule ints (λ e.
                    by_text P (codes "boolean") rule bools (λ f.
                      by_prefix P (codes "between:") rule betweens (λ g.
                        by_prefix P (codes "in:") rule ins (λ h.
                          by_prefix P (codes "regex:") rule
                            (λ t w. Matches-Holds n v t (regexes t w))
                            (λ i.
                              by_prefix P (codes "min:") rule (λ t w. (at_least n v t).1 (mins t w))
                                (λ j.
                                  by_prefix P (codes "max:") rule
                                    (λ t w. (at_most n v t).1 (maxs t w))
                                    (λ k. rw (a, b, c, d, e, f, g, h, i, j, k) tt)))))))))))

  pub check_rules_sound :
      (n : Bool) (name v : Text) (rs : List Text)
      → check_rules js n name v rs ≡ []
      → All (Meets js n v) rs
  unfolding check_rules
  check_rules_sound n name v [] h = tt
  check_rules_sound n name v (r ∷ rs) h =
      let (here, later) = append-nil_split (check_rule js n name v (read_rule r)) _ h in
      (
        read_rule_sound n v r (check_rule_sound n name v (read_rule r) here),
        check_rules_sound n name v rs later,
      )

  pub check_rules_complete :
      (n : Bool) (name v : Text) (rs : List Text)
      → All (Meets js n v) rs
      → check_rules js n name v rs ≡ []
  unfolding check_rules
  check_rules_complete n name v [] h = refl
  check_rules_complete n name v (r ∷ rs) (h, hs) =
      rw (check_rule_complete n name v (read_rule r) (read_rule_complete n v r h))
        (check_rules_complete n name v rs hs)
