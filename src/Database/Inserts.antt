-- ===== src/Database/Inserts.antt =====
-- `repo.save` of several new rows, in one transaction: all of them are stored or none.
use nexus_panel.Common.{◌≡◌, refl, Bool, false, Option, none, some, List, [], ◌∷◌, any}
use nexus_panel.Database.Orm.{Orm}

module _ {E : Type 0} (orm : Orm) (clash : E → E → Bool) where
  unfoldable pub insert_rows : List E → List E → Option (List E)
  insert_rows [] t = some t
  insert_rows (a ∷ rows) t = elim (orm.insert clash a t) [
    | none ↦ none
    | some t' ↦ insert_rows rows t'
  ]

  -- New rows that clash neither with the table nor with one another.
  abbrev pub AllNew : List E → List E → Type 0
  AllNew [] t = Unit
  AllNew (a ∷ rows) t = (any (clash a) t ≡ false) × AllNew rows (a ∷ t)

  abbrev pub onto : List E → List E → List E
  onto [] t = t
  onto (a ∷ rows) t = onto rows (a ∷ t)

  pub insert_rows_lem : (rows t : List E) → AllNew rows t → insert_rows rows t ≡ some (onto rows t)
  unfolding insert_rows
  insert_rows_lem [] t h = refl
  insert_rows_lem (a ∷ rows) t (n, h) =
      rw (orm.insert_lem clash a t, insert_rows) (rw n (insert_rows_lem rows (a ∷ t) h))
