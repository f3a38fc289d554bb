-- ===== src/Database/Rows.antt =====
-- Rows by their key: what a query by primary key finds, before and after a write.
use mathlib.Core.Option
use nexus_panel.Common.{
  ◌≡◌, refl, sym, ◌∙◌, inl, inr, Bool, true, false, not, ◌&&◌, Option, none, some, List, [], ◌∷◌,
  arith, if◌then◌else◌, ap, any, select, patch, Has, All-Has, any-false, any-Has, Option-cases,
}
use nexus_panel.Common.Texts.{Text, ◌==◌, eq_iff, ==_refl}
use nexus_panel.Database.Orm.{Orm, first, first-some}

module _ {E : Type 0} (key : E → Text) where
  -- The test of `where: { id }`.
  abbrev pub has_key : Text → E → Bool
  has_key k e = key e == k

  abbrev pub row : Text → List E → Option E
  row k t = first (has_key k) t

  -- No two rows share a key.
  abbrev pub Distinct : List E → Type 0
  Distinct [] = Unit
  Distinct (x ∷ xs) = (any (has_key (key x)) xs ≡ false) × Distinct xs

  pub row-Has :
      (k : Text) (t : List E) (e : E) → Distinct t → Has e t → key e ≡ k → row k t ≡ some e
  row-Has k [] e d h q = absurd h
  row-Has k (x ∷ xs) e d (inl h) q = ground (arith, eq_iff (key x) k)
  row-Has k (x ∷ xs) e d (inr h) q =
      let miss : (key e == key x) ≡ false =
        All-Has (λ a. has_key (key x) a ≡ false) xs (any-false (has_key (key x)) xs d.0) h in
      ground (arith, row-Has k xs e d.1 h q, eq_iff (key x) k, eq_iff (key e) (key x))

  pub any-none : (k : Text) (t : List E) → any (has_key k) t ≡ false → row k t ≡ none
  any-none k [] h = refl
  any-none k (x ∷ xs) h = ground (arith, any-none k xs)

  -- A query by key finds the row, whichever match the store prefers.
  pub find_one-row :
      (orm : Orm) (k : Text) (t : List E) → Distinct t → orm.find_one (has_key k) t ≡ row k t
  find_one-row orm k t d = elim (Option-cases (orm.find_one (has_key k) t)) [
    | inl e ↦ e ∙ sym (any-none k t (orm.find_one_none (has_key k) t e))
    | inr (x, e) ↦
        let (hit, stored) = orm.find_one_some (has_key k) t x e in
        e ∙ sym (row-Has k t x d stored ((eq_iff (key x) k).0 hit))
  ]

  pub row-key : (k : Text) (t : List E) (e : E) → row k t ≡ some e → key e ≡ k
  row-key k t e h = (eq_iff (key e) k).0 (first-some (has_key k) t e h).0

  module _ (f : E → E) (keeps : (e : E) → key (f e) ≡ key e) where
    -- A write by key changes the row under that key, and no other.
    pub row-patch :
        (j k : Text) (t : List E)
        → row k (patch (has_key j) f t) ≡ (if j == k then Option.map f (row k t) else row k t)
    row-patch j k [] = ground arith
    row-patch j k (x ∷ xs) = ground (
      arith,
      row-patch j k xs,
      keeps x,
      eq_iff (key x) j,
      eq_iff (key x) k,
      eq_iff (key (f x)) k,
      eq_iff j k,
    )

    any-patch :
        (p : E → Bool) (j : Text) (t : List E) → any (has_key j) (patch p f t) ≡ any (has_key j) t
    any-patch p j [] = refl
    any-patch p j (x ∷ xs) = ground (arith, any-patch p j xs, keeps x)

    pub Distinct-patch : (p : E → Bool) (t : List E) → Distinct t → Distinct (patch p f t)
    Distinct-patch p [] d = tt
    Distinct-patch p (x ∷ xs) d = ground (
      arith,
      Distinct-patch p xs d.1,
      any-patch p (key x) xs,
      any-patch p (key (f x)) xs,
      keeps x,
    )

  -- A delete by key keeps the rows under the other keys.
  pub any-remove_other :
      (j k : Text) (t : List E)
      → (j == k) ≡ false
      → any (has_key k) t ≡ true
      → any (has_key k) (select (λ e. not (has_key j e)) t) ≡ true
  any-remove_other j k [] n h = cc
  any-remove_other j k (x ∷ xs) n h =
      ground (arith, any-remove_other j k xs, eq_iff (key x) j, eq_iff (key x) k)

  any-select : (p q : E → Bool) (t : List E) → any q t ≡ false → any q (select p t) ≡ false
  any-select p q [] h = refl
  any-select p q (x ∷ xs) h = ground (arith, any-select p q xs)

  pub Distinct-select : (p : E → Bool) (t : List E) → Distinct t → Distinct (select p t)
  Distinct-select p [] d = tt
  Distinct-select p (x ∷ xs) d =
      ground (arith, Distinct-select p xs d.1, any-select p (has_key (key x)) xs)

  -- A delete by key removes the row under that key, and no other.
  pub row-select :
      (j k : Text) (t : List E)
      → row k (select (λ e. not (has_key j e)) t) ≡ (if j == k then none else row k t)
  row-select j k [] = ground arith
  row-select j k (x ∷ xs) =
      ground (arith, row-select j k xs, eq_iff (key x) j, eq_iff (key x) k, eq_iff j k)

-- A row put in the place of the one with its key.
module _ {E : Type 0} (key : E → Text) (u : E) where
  pub row-replace :
      (t : List E)
      → row key (key u) (patch (has_key key (key u)) (λ _. u) t)
        ≡ Option.map (λ _. u) (row key (key u) t)
  row-replace [] = refl
  row-replace (x ∷ xs) = ground (arith, row-replace xs, ==_refl (key u))

  -- A row stored under its own key keeps which keys are there.
  pub any-replace :
      (j : Text) (t : List E)
      → any (has_key key j) (patch (has_key key (key u)) (λ _. u) t) ≡ any (has_key key j) t
  any-replace j [] = refl
  any-replace j (x ∷ xs) = ground (arith, any-replace j xs, eq_iff (key x) (key u))

  pub Distinct-replace :
      (t : List E) → Distinct key t → Distinct key (patch (has_key key (key u)) (λ _. u) t)
  Distinct-replace [] d = tt
  Distinct-replace (x ∷ xs) d = ground (
    arith,
    Distinct-replace xs d.1,
    any-replace (key x) xs,
    any-replace (key u) xs,
    eq_iff (key x) (key u),
  )

-- Rows under one key after a write under any test.
module _ {E : Type 0} (key : E → Text) (f : E → E) (keeps : (e : E) → key (f e) ≡ key e) where
  pub row-patch_any :
      (p : E → Bool) (k : Text) (t : List E)
      → row key k (patch p f t) ≡ Option.map (λ e. if p e then f e else e) (row key k t)
  row-patch_any p k [] = refl
  row-patch_any p k (x ∷ xs) = ground (arith, row-patch_any p k xs, keeps x)

-- A query that one row matches finds that row.
pub find_one_only :
    {E : Type 0} (orm : Orm) (p : E → Bool) (x : E) (t : List E)
    → p x ≡ true
    → any p t ≡ false
    → orm.find_one p (x ∷ t) ≡ some x
find_one_only {E} orm p x t h n = elim (Option-cases (orm.find_one p (x ∷ t))) [
  | inl e ↦ absurd (ground (arith, orm.find_one_none p (x ∷ t) e))
  | inr (y, e) ↦
      let (hit, stored) = orm.find_one_some p (x ∷ t) y e in
      elim stored [ inl q ↦ e ∙ ap some q | inr m ↦ absurd (ground (arith, any-Has p t m hit)) ]
]

-- A query that no row matches finds none.
pub find_one_miss :
    {E : Type 0} (orm : Orm) (p : E → Bool) (t : List E) → any p t ≡ false → orm.find_one p t ≡ none
find_one_miss orm p t h = elim (Option-cases (orm.find_one p t)) [
  | inl e ↦ e
  | inr (y, e) ↦
      let (hit, stored) = orm.find_one_some p t y e in
      absurd (ground (arith, any-Has p t stored hit))
]

module _ {E : Type 0} where
  -- At most one row passes the test.
  abbrev pub Unique : (E → Bool) → List E → Type 0
  Unique p [] = Unit
  Unique p (x ∷ xs) = (p x ≡ true → any p xs ≡ false) × Unique p xs

  module _ (key : E → Text) (p : E → Bool) (f : E → E) (clears : (e : E) → p (f e) ≡ false) where
    pub clear_none :
        (k : Text) (t : List E) → any p t ≡ false → any p (patch (has_key key k) f t) ≡ false
    clear_none k [] h = refl
    clear_none k (x ∷ xs) h = ground (arith, clear_none k xs, clears x)

    -- A write that clears the only row that passes the test leaves none.
    pub clear-Unique :
        (a : E) (t : List E)
        → Unique p t
        → Has a t
        → p a ≡ true
        → any p (patch (has_key key (key a)) f t) ≡ false
    clear-Unique a [] u h e = absurd h
    clear-Unique a (x ∷ xs) u (inl h) e =
        ground (arith, clear_none (key a) xs, eq_iff (key x) (key a), clears x)
    clear-Unique a (x ∷ xs) u (inr h) e =
        ground (arith, clear-Unique a xs u.1 h e, any-Has p xs h e, clears x)

any_and :
    {E : Type 0} (key : E → Text) (k : Text) (g : E → Bool) (t : List E)
    → any (has_key key k) t ≡ false
    → any (λ e. key e == k && g e) t ≡ false
any_and key k g [] h = refl
any_and key k g (x ∷ xs) h = ground (arith, any_and key k g xs)

-- With distinct keys, at most one row has a key and passes a test.
pub Distinct-Unique :
    {E : Type 0} (key : E → Text) (k : Text) (g : E → Bool) (t : List E)
    → Distinct key t
    → Unique (λ e. key e == k && g e) t
Distinct-Unique key k g [] d = tt
Distinct-Unique key k g (x ∷ xs) d = (
  (λ h. any_and key k g xs (rw ((eq_iff (key x) k).0 (ground arith)) at d.0)),
  Distinct-Unique key k g xs d.1,
)
