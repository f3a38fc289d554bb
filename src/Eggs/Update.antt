-- ===== src/Eggs/Update.antt =====
-- packages/backend/src/eggs/eggs.service.ts: an update of an egg, which replaces its variables.
use nexus_panel.Common.{
  ◌≡◌, ◌⊎◌, ◌↔◌, inl, inr, refl, ◌∙◌, Bool, true, false, not, ◌&&◌, some, List, [], ◌∷◌, any, Has,
  select, patch, arith,
}
use nexus_panel.Common.Texts.{Text, eq_comm}
use nexus_panel.Database.Entities.{Egg, EggVariable, egg_clash, egg_variable_clash}
use nexus_panel.Database.Orm.{Orm, select_sound, select_complete}
use nexus_panel.Database.Inserts.{AllNew, onto}
use nexus_panel.Database.Rows.{has_key, row, Distinct, find_one-row}
use nexus_panel.Database.Panel.{Panel, ok}
use nexus_panel.Servers.Create.{of_egg}
use nexus_panel.Eggs.Dto.{EggVariableDto, UpdateEggDto, Draw}
use nexus_panel.Eggs.Rows.{egg_id, assign, new_variables}
use nexus_panel.Eggs.Service.{replace_variables, update_egg}
use nexus_panel.Eggs.Import.{insert_variables_lem}

module _ {E : Type 0} (orm : Orm) (clash : E → E → Bool) where
  Has-onto : (e : E) (rows t : List E) → Has e (onto orm clash rows t) ↔ (Has e rows ⊎ Has e t)
  Has-onto e [] t = ((λ h. inr h), (λ h. elim h [ inl k ↦ absurd k | inr k ↦ k ]))
  Has-onto e (a ∷ rows) t =
      let (to, from) = Has-onto e rows (a ∷ t) in
      (
        (λ h. elim (to h) [
          | inl k ↦ inl (inr k)
          | inr k ↦ elim k [ inl s ↦ inl (inl s) | inr m ↦ inr m ]
        ]),
        (λ h. elim h [
          | inl k ↦ elim k [ inl s ↦ from (inr (inl s)) | inr m ↦ from (inl m) ]
          | inr k ↦ from (inr (inr k))
        ]),
      )

Has-select :
    {E : Type 0} (q : E → Bool) (t : List E) (e : E) → Has e (select q t) ↔ (Has e t × (q e ≡ true))
Has-select q t e = (
  (λ h. let (hit, stored) = select_sound q t e h in (stored, hit)),
  (λ h. select_complete q t e h.0 h.1),
)

not-true : (b : Bool) → (not b ≡ true) ↔ (b ≡ false)
not-true true = (λ h. cc, λ h. cc)
not-true false = (λ h. refl, λ h. refl)

own_id :
    (c : Egg) (id : Text) (t : List Egg)
    → c.id ≡ id
    → any (λ r. not (has_key egg_id id r) && egg_clash c r) t ≡ false
own_id c id [] h = refl
own_id c id (x ∷ xs) h = ground (arith, own_id c id xs h, eq_comm c.id x.id)

module _ (orm : Orm) where
  -- When an egg that is stored is updated with a list of variables, the ids of eggs distinct and those of the
  -- new variables new: the row of the egg is replaced by the changed one, the variables of the egg are
  -- those of the list and no others, and those of other eggs are the same as before.
  pub update_egg_lem :
      (id : Text) (dto : UpdateEggDto) (vs : List EggVariableDto) (draw : Draw) (p : Panel)
      (e : Egg)
      → Distinct egg_id p.eggs
      → row egg_id id p.eggs ≡ some e
      → dto.variables ≡ some vs
      → let rows = new_variables id draw 0 vs in
        AllNew orm egg_variable_clash rows (select (λ v. not (of_egg id v)) p.egg_variables)
        → let q = (update_egg orm id dto draw p).1 in
          ((update_egg orm id dto draw p).0 ≡ ok (record { egg = assign e dto; variables = rows }))
          × (q.eggs ≡ patch (has_key egg_id e.id) (λ _. assign e dto) p.eggs)
          × ((v : EggVariable)
              → Has v q.egg_variables
                ↔ (Has v rows ⊎ (Has v p.egg_variables × (of_egg id v ≡ false))))
  unfolding update_egg replace_variables
  update_egg_lem id dto vs draw p e d r given new =
      let rows = new_variables id draw 0 vs in
      let rest = select (λ v. not (of_egg id v)) p.egg_variables in
      let eggs = patch (has_key egg_id e.id) (λ _. assign e dto) p.eggs in
      let ends : update_egg orm id dto draw p ≡ (
        ok (record { egg = assign e dto; variables = rows }),
        record p { eggs = eggs; egg_variables = onto orm egg_variable_clash rows rest },
      ) =
        rw (find_one-row egg_id orm id p.eggs d ∙ r) (
          rw (orm.save_lem egg_clash (has_key egg_id e.id) (assign e dto) p.eggs) (
            rw (own_id (assign e dto) e.id p.eggs refl) (
              rw (given) (
                rw (orm.remove_lem (of_egg id) p.egg_variables) (
                  rw (
                    insert_variables_lem orm rows (record p { eggs = eggs; egg_variables = rest })
                      new)))))) in
      rw ends (
        refl,
        refl,
        λ v.
            let (to, from) = Has-onto orm egg_variable_clash v rows rest in
            let (out, into) = Has-select (λ v. not (of_egg id v)) p.egg_variables v in
            (
              (λ h. elim (to h) [
                | inl k ↦ inl k
                | inr k ↦ inr ((out k).0, (not-true (of_egg id v)).0 (out k).1)
              ]),
              (λ h. elim h [
                | inl k ↦ from (inl k)
                | inr k ↦ from (inr (into (k.0, (not-true (of_egg id v)).1 k.1)))
              ]),
            ),
      )
