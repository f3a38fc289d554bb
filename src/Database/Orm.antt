-- ===== src/Database/Orm.antt =====
-- The row store that the services reach through TypeORM repositories. It is not part of the
-- repository, so it is a parameter: its operations, and what the services rely on of them.
use nexus_panel.Common.{
  ℕ, ◌≡◌, refl, inl, inr, Bool, true, false, not, ◌&&◌, Option, none, some, List, [], ◌∷◌, arith,
  if◌then◌else◌, any, select, patch, sum_by, Has,
}

-- A table is the list of its rows, in an order that says nothing. A query for one row may return any row
-- that matches, a query for many returns them in any order; an insert is refused when a unique column clashes with a stored row, and so is
-- a save, which replaces the row under a key, when one clashes with another row; `update` and
-- `remove` touch the rows that match, and no others.
pub record Orm : Type 1 where
  pub find_one : {E : Type 0} → (E → Bool) → List E → Option E
  pub find : {E : Type 0} → (E → Bool) → List E → List E
  pub sum : {E : Type 0} → (E → Bool) → (E → ℕ) → List E → ℕ
  pub insert : {E : Type 0} → (E → E → Bool) → E → List E → Option (List E)
  pub save : {E : Type 0} → (E → E → Bool) → (E → Bool) → E → List E → Option (List E)
  pub update : {E : Type 0} → (E → Bool) → (E → E) → List E → List E
  pub remove : {E : Type 0} → (E → Bool) → List E → List E
  pub find_one_some :
      {E : Type 0} (p : E → Bool) (t : List E) (e : E)
      → find_one p t ≡ some e
      → (p e ≡ true) × Has e t
  pub find_one_none :
      {E : Type 0} (p : E → Bool) (t : List E) → find_one p t ≡ none → any p t ≡ false
  pub find_sound :
      {E : Type 0} (p : E → Bool) (t : List E) (e : E) → Has e (find p t) → (p e ≡ true) × Has e t
  pub find_complete :
      {E : Type 0} (p : E → Bool) (t : List E) (e : E) → Has e t → p e ≡ true → Has e (find p t)
  pub sum_lem :
      {E : Type 0} (p : E → Bool) (w : E → ℕ) (t : List E)
      → sum p w t ≡ sum_by (λ e. if p e then w e else 0) t
  pub insert_lem :
      {E : Type 0} (clash : E → E → Bool) (e : E) (t : List E)
      → insert clash e t ≡ (if any (clash e) t then none else some (e ∷ t))
  pub save_lem :
      {E : Type 0} (clash : E → E → Bool) (p : E → Bool) (e : E) (t : List E)
      → save clash p e t
        ≡ (if any (λ r. not (p r) && clash e r) t then none else some (patch p (λ _. e) t))
  pub update_lem : {E : Type 0} (p : E → Bool) (f : E → E) (t : List E) → update p f t ≡ patch p f t
  pub remove_lem : {E : Type 0} (p : E → Bool) (t : List E) → remove p t ≡ select (λ e. not (p e)) t

module _ {E : Type 0} where
  abbrev pub first : (E → Bool) → List E → Option E
  first p [] = none
  first p (x ∷ xs) = let rest = first p xs in if p x then some x else rest

  pub first-some : (p : E → Bool) (t : List E) (e : E) → first p t ≡ some e → (p e ≡ true) × Has e t
  first-some p [] e h = cc
  first-some p (x ∷ xs) e h = ground (arith, first-some p xs e)

  pub first-none : (p : E → Bool) (t : List E) → first p t ≡ none → any p t ≡ false
  first-none p [] h = refl
  first-none p (x ∷ xs) h = ground (arith, first-none p xs)

  pub select_sound :
      (p : E → Bool) (t : List E) (e : E) → Has e (select p t) → (p e ≡ true) × Has e t
  select_sound p [] e h = absurd h
  select_sound p (x ∷ xs) e h = ground (arith, select_sound p xs e)

  pub select_complete :
      (p : E → Bool) (t : List E) (e : E) → Has e t → p e ≡ true → Has e (select p t)
  select_complete p [] e h q = absurd h
  select_complete p (x ∷ xs) e (inl h) q = ground arith
  select_complete p (x ∷ xs) e (inr h) q = ground (arith, select_complete p xs e h q)

-- A store that meets the laws: it returns the first match.
abbrev pub list_store : Orm
list_store = record {
  find_one = λ p t. first p t;
  find = λ p t. select p t;
  sum = λ p w t. sum_by (λ e. if p e then w e else 0) t;
  insert = λ clash e t. if any (clash e) t then none else some (e ∷ t);
  save = λ clash p e t.
      if any (λ r. not (p r) && clash e r) t then none else some (patch p (λ _. e) t);
  update = λ p f t. patch p f t;
  remove = λ p t. select (λ e. not (p e)) t;
  find_one_some = λ p t e h. first-some p t e h;
  find_one_none = λ p t h. first-none p t h;
  find_sound = λ p t e h. select_sound p t e h;
  find_complete = λ p t e h q. select_complete p t e h q;
  sum_lem = λ p w t. refl;
  insert_lem = λ clash e t. refl;
  save_lem = λ clash p e t. refl;
  update_lem = λ p f t. refl;
  remove_lem = λ p t. refl;
}
