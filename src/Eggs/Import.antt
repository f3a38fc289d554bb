-- ===== src/Eggs/Import.antt =====
-- packages/backend/src/eggs/eggs.service.ts: an egg that is exported and imported again.
use nexus_panel.Common.{ℕ, suc, ◌≡◌, refl, ◌∙◌, ap, false, some, List, [], ◌∷◌, any}
use nexus_panel.Common.Texts.{Text, codes}
use nexus_panel.Database.Entities.{Egg, EggVariable, egg_clash, egg_variable_clash}
use nexus_panel.Database.Orm.{Orm}
use nexus_panel.Database.Inserts.{AllNew, onto, insert_rows_lem}
use nexus_panel.Database.Rows.{row, Distinct, find_one-row}
use nexus_panel.Database.Panel.{Panel, ok, ◌>>=◌}
use nexus_panel.Servers.Create.{of_egg}
use nexus_panel.Eggs.Dto.{Draw}
use nexus_panel.Eggs.Rows.{
  egg_id, or_text, both, read_variable, read_variables, variable_json, variables_json,
}
use nexus_panel.Eggs.Service.{find_egg_by_id, insert_egg, insert_variables, import_egg, export_egg}

-- The copy of an egg: a new id and new dates; no description and no install script become empty ones, and an
-- empty entry and container the defaults.
abbrev pub copy_of : Egg → Draw → Egg
copy_of e draw = record e {
  id = draw.id;
  description = some (or_text e.description []);
  author = e.author;
  script_install = some (or_text e.script_install []);
  script_entry = or_text (some e.script_entry) (codes "bash");
  script_container = or_text (some e.script_container) (codes "alpine:latest");
  created_at = draw.now;
  updated_at = draw.now;
}

abbrev pub copies_of : Draw → ℕ → List EggVariable → List EggVariable
copies_of draw i [] = []
copies_of draw i (v ∷ vs) =
    record v { id = draw.id_of i; egg_id = draw.id; created_at = draw.now; updated_at = draw.now }
    ∷ copies_of draw (suc i) vs

or_text-some : (t : Text) → or_text (some t) [] ≡ t
or_text-some [] = refl
or_text-some (c ∷ s) = refl

read_variable-json :
    (egg : Text) (v : EggVariable) (id : Text) (now : ℕ)
    → read_variable egg (variable_json v) id now
      ≡ some (record v { id = id; egg_id = egg; created_at = now; updated_at = now })
read_variable-json egg v id now =
    simp (or_text-some v.description, or_text-some v.default_value, or_text-some v.rules)

read_variables-json :
    (draw : Draw) (i : ℕ) (vs : List EggVariable)
    → read_variables draw.id draw i (variables_json vs) ≡ some (copies_of draw i vs)
read_variables-json draw i [] = refl
read_variables-json draw i (v ∷ vs) = simp (read_variables-json draw (suc i) vs) (
    ap (λ o. both o (some (copies_of draw (suc i) vs)))
      (read_variable-json draw.id v (draw.id_of i) draw.now))

module _ (orm : Orm) where
  insert_egg_lem :
      (e : Egg) (p : Panel)
      → any (egg_clash e) p.eggs ≡ false
      → insert_egg orm e p ≡ (ok tt, record p { eggs = e ∷ p.eggs })
  unfolding insert_egg
  insert_egg_lem e p h = rw (orm.insert_lem egg_clash e p.eggs, insert_egg) (rw h)

  pub insert_variables_lem :
      (rows : List EggVariable) (p : Panel)
      → AllNew orm egg_variable_clash rows p.egg_variables
      → insert_variables orm rows p
        ≡ (ok tt, record p { egg_variables = onto orm egg_variable_clash rows p.egg_variables })
  unfolding insert_variables
  insert_variables_lem rows p h = rw (insert_rows_lem orm egg_variable_clash rows p.egg_variables h)

  -- An egg that is stored, the ids of eggs distinct, is exported and imported again with ids that are new: the
  -- import succeeds, stores a copy of the egg and of each of its variables, and answers them; nothing else
  -- changes. The copy differs in its id and dates, in an empty text for no description and for no
  -- install script, and in the default for an empty entry and an empty container.
  pub import_egg-export_egg :
      (id : Text) (e : Egg) (draw : Draw) (p : Panel)
      → Distinct egg_id p.eggs
      → row egg_id id p.eggs ≡ some e
      → any (egg_clash (copy_of e draw)) p.eggs ≡ false
      → let vs = copies_of draw 0 (orm.find (of_egg id) p.egg_variables) in
        AllNew orm egg_variable_clash vs p.egg_variables
        → (export_egg orm id >>= (λ json. import_egg orm json draw)) p ≡ (
          ok (record { egg = copy_of e draw; variables = vs }),
          record p {
            eggs = copy_of e draw ∷ p.eggs;
            egg_variables = onto orm egg_variable_clash vs p.egg_variables;
          },
        )
  unfolding export_egg find_egg_by_id import_egg
  import_egg-export_egg id e draw p d r n ns = rw (find_one-row egg_id orm id p.eggs d ∙ r) (
      rw (or_text-some e.author) (
        rw (insert_egg_lem (copy_of e draw) p n) (
          rw (read_variables-json draw 0 (orm.find (of_egg id) p.egg_variables)) (
            rw (
              insert_variables_lem (copies_of draw 0 (orm.find (of_egg id) p.egg_variables))
                (record p { eggs = copy_of e draw ∷ p.eggs }) ns)))))
