-- ===== src/Validator/Meaning.antt =====
-- What the rules of packages/backend/src/common/utils/variable-validator.ts demand of a value, rule by rule, read off
-- the text of a rule without the code.
use nexus_panel.Common.{
  ℕ, ◌≡◌, ◌⊎◌, inl, inr, refl, sym, ◌∙◌, ap, Bool, true, false, ◌||◌, none, some, List, [], ◌∷◌,
  ◌++◌, arith, length, Has, any, nat_eq, Bool-cases, Option-cases,
}
use mathlib.Core.Bool.{false≢true}
use mathlib.Core.Path.{subst}
use nexus_panel.Common.Texts.{Text, codes, ◌==◌, split_on, before_last}
use nexus_panel.Common.Js.{Js}
use nexus_panel.Validator.Rules.{clean_pattern}

abbrev pub slash : ℕ
slash = b'/'

-- A pattern between slashes is meant without them, up to the last; any other as it is.
abbrev pub IsPattern : (argument pattern : Text) → Type 0
IsPattern a pattern =
    ((rest : Text) × (a ≡ slash ∷ (pattern ++ slash ∷ rest))
      × (any (λ c. nat_eq c slash) rest ≡ false))
    ⊎ ((pattern ≡ a) × (¬ ((inner : Text) × (rest : Text) × (a ≡ slash ∷ (inner ++ slash ∷ rest)))))

-- A rule makes the value a number.
abbrev pub is_number : List Text → Bool
is_number rules = any (λ r. r == codes "numeric" || r == codes "integer") rules

module _ (js : Js) where
  open js use {of_text, of_ℕ, is_nan, is_integer, less, reg_exp}

  abbrev pub InRange : Text → List Text → Type 0
  InRange v [] = Unit
  InRange v (a ∷ []) = Unit
  InRange v (a ∷ b ∷ c ∷ rest) = Unit
  InRange v (a ∷ b ∷ []) =
      (is_nan (of_text v) ≡ false)
      × (less (of_text v) (of_text a) ≡ false)
      × (less (of_text b) (of_text v) ≡ false)

  abbrev pub Matches : Text → (argument : Text) → Type 0
  Matches v a =
      (pattern : Text) × (test : Text → Bool) × IsPattern a pattern
      × (reg_exp pattern ≡ some test)
      × (test v ≡ true)

  -- The bounds are on the number, or else on the length.
  abbrev pub AtLeast : (number : Bool) → Text → (bound : Text) → Type 0
  AtLeast true v a = (is_nan (of_text v) ≡ false) × (less (of_text v) (of_text a) ≡ false)
  AtLeast false v a = less (of_ℕ (length v)) (of_text a) ≡ false

  abbrev pub AtMost : (number : Bool) → Text → (bound : Text) → Type 0
  AtMost true v a = (is_nan (of_text v) ≡ false) × (less (of_text a) (of_text v) ≡ false)
  AtMost false v a = less (of_text a) (of_ℕ (length v)) ≡ false

  -- A value that is not empty meets the rule with this text. A text of none of these forms demands nothing.
  abbrev pub Meets : (number : Bool) → Text → (rule : Text) → Type 0
  Meets number v rule =
      (rule ≡ codes "numeric" → is_nan (of_text v) ≡ false)
      × (rule ≡ codes "integer" → (is_integer (of_text v) ≡ true) × (is_nan (of_text v) ≡ false))
      × (rule ≡ codes "boolean" → Has v (codes "true" ∷ codes "false" ∷ codes "1" ∷ codes "0" ∷ []))
      × ((a : Text) → rule ≡ codes "between:" ++ a → InRange v (split_on b',' a))
      × ((a : Text) → rule ≡ codes "in:" ++ a → Has v (split_on b',' a))
      × ((a : Text) → rule ≡ codes "regex:" ++ a → Matches v a)
      × ((a : Text) → rule ≡ codes "min:" ++ a → AtLeast number v a)
      × ((a : Text) → rule ≡ codes "max:" ++ a → AtMost number v a)

before_last-none : (c : ℕ) (s : Text) → before_last c s ≡ none → any (λ d. nat_eq d c) s ≡ false
unfolding before_last
before_last-none c [] h = refl
before_last-none c (d ∷ s) h = elim (Option-cases (before_last c s)) [
  | inl e ↦ ground (arith, before_last-none c s e)
  | inr (t, e) ↦ absurd (ground arith)
]

before_last-miss : (c : ℕ) (s : Text) → any (λ d. nat_eq d c) s ≡ false → before_last c s ≡ none
unfolding before_last
before_last-miss c [] h = refl
before_last-miss c (d ∷ s) h = ground (arith, before_last-miss c s)

before_last-some :
    (c : ℕ) (s t : Text)
    → before_last c s ≡ some t
    → (rest : Text) × (s ≡ t ++ c ∷ rest) × (any (λ d. nat_eq d c) rest ≡ false)
unfolding before_last
before_last-some c [] t h = cc
before_last-some c (d ∷ s) t h = elim (Option-cases (before_last c s)) [
  | inr (u, e) ↦
      let (rest, same, last) = before_last-some c s u e in
      let whole : d ∷ u ≡ t = ground arith in rw (← whole) (rest, ap (λ r. d ∷ r) same, last)
  | inl e ↦ elim (Bool-cases (nat_eq d c)) [
    | inl q ↦
        let whole : [] ≡ t = ground arith in
        let here : d ≡ c = ground arith in
        rw (← whole) (s, ap (λ x. x ∷ s) here, before_last-none c s e)
    | inr q ↦ absurd (ground arith)
  ]
]

before_last-append :
    (c : ℕ) (t rest : Text)
    → any (λ d. nat_eq d c) rest ≡ false
    → before_last c (t ++ c ∷ rest) ≡ some t
unfolding before_last
before_last-append c [] rest h = ground (arith, before_last-miss c rest h)
before_last-append c (d ∷ t) rest h = ground (arith, before_last-append c t rest h)

before_last-found : (c : ℕ) (t rest : Text) → any (λ d. nat_eq d c) (t ++ c ∷ rest) ≡ true
before_last-found c [] rest = ground arith
before_last-found c (d ∷ t) rest = ground (arith, before_last-found c t rest)

-- The code drops the slashes as the pattern is meant.
pub clean_pattern-IsPattern : (a : Text) → IsPattern a (clean_pattern a)
unfolding clean_pattern ◌==◌
clean_pattern-IsPattern [] = inr (refl, λ z. cc)
clean_pattern-IsPattern (c ∷ s) = elim (Bool-cases (nat_eq c slash)) [
  | inr e ↦ inr (rw (e) refl, λ z. absurd (ground arith))
  | inl e ↦ elim (Option-cases (before_last slash s)) [
    | inr (t, f) ↦
        let same : clean_pattern (c ∷ s) ≡ t = ground arith in
        let here : c ≡ slash = ground arith in
        let (rest, whole, last) = before_last-some slash s t f in
        subst (IsPattern (c ∷ s)) (sym same)
          (inl (rest, ap (λ r. c ∷ r) whole ∙ ap (λ x. x ∷ (t ++ slash ∷ rest)) here, last))
    | inl f ↦
        let same : clean_pattern (c ∷ s) ≡ c ∷ s = ground arith in
        subst (IsPattern (c ∷ s)) (sym same) (
          inr (
            refl,
            λ z.
                let tail : s ≡ z.0 ++ slash ∷ z.1 = cc in
                false≢true (
                  sym (before_last-none slash s f)
                  ∙ ap (any (λ d. nat_eq d slash)) tail
                  ∙ before_last-found slash z.0 z.1),
          ))
  ]
]

pub IsPattern-clean_pattern : (a pattern : Text) → IsPattern a pattern → pattern ≡ clean_pattern a
unfolding clean_pattern ◌==◌
IsPattern-clean_pattern a pattern (inl (rest, e, h)) =
    rw (e) (rw (before_last-append slash pattern rest h) refl)
IsPattern-clean_pattern a pattern (inr (e, bare)) = elim (clean_pattern-IsPattern a) [
  | inl (rest, f, h) ↦ absurd (bare (clean_pattern a, rest, f))
  | inr (f, _) ↦ e ∙ sym f
]
