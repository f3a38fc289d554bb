-- ===== src/Eggs/Service.antt =====
-- packages/backend/src/eggs/eggs.service.ts. The ids of new variables are drawn from `id_of`, by their place. A
-- column that is not null and has no default refuses a row that leaves it out.
use nexus_panel.Common.{true, Option, none, some, List, [], ◌∷◌}
use mathlib.Core.Option.{get_or}
use nexus_panel.Common.Texts.{Text, codes, ◌==◌}
use nexus_panel.Database.Entities.{
  Nest, Egg, EggVariable, nest_clash, egg_clash, egg_variable_clash,
}
use nexus_panel.Database.Orm.{Orm}
use nexus_panel.Database.Inserts.{insert_rows}
use nexus_panel.Database.Rows.{has_key}
use nexus_panel.Database.Panel.{
  Panel, not_found, internal, M, ◌>>=◌, ◌>>◌, pure, gets, modify, or_throw,
}
use nexus_panel.Auth.Service.{present}
use nexus_panel.Servers.Create.{of_egg}
use nexus_panel.Eggs.Dto.{
  CreateNestDto, EggVariableDto, CreateEggDto, UpdateEggDto, EggJson, Draw, FullEgg,
}
use nexus_panel.Eggs.Rows.{
  nest_id, egg_id, author_of, or_text, new_egg, assign, new_variables, read_variables, egg_json,
  is_in,
}

module _ (orm : Orm) where
  unfoldable pub find_nest_by_id : Text → M Nest
  find_nest_by_id id = do
    found ← gets (λ p. orm.find_one (has_key nest_id id) p.nests)
    or_throw (not_found "Nest not found") found

  unfoldable pub create_nest : CreateNestDto → Draw → M Nest
  create_nest dto draw = do
    given ← or_throw internal (author_of dto)
    let nest : Nest = record {
      id = draw.id;
      author = given;
      name = dto.name;
      description = some dto.description;
      created_at = draw.now;
      updated_at = draw.now;
    }
    stored ← gets (λ p. orm.insert nest_clash nest p.nests)
    nests ← or_throw internal stored
    modify (λ p. record p { nests = nests })
    pure nest

  unfoldable pub find_egg_by_id : Text → M FullEgg
  find_egg_by_id id = do
    found ← gets (λ p. orm.find_one (has_key egg_id id) p.eggs)
    egg ← or_throw (not_found "Egg not found") found
    variables ← gets (λ p. orm.find (of_egg id) p.egg_variables)
    pure (record { egg = egg; variables = variables })

  unfoldable pub insert_egg : Egg → M (Unit {0})
  insert_egg egg = do
    stored ← gets (λ p. orm.insert egg_clash egg p.eggs)
    eggs ← or_throw internal stored
    modify (λ p. record p { eggs = eggs })

  unfoldable pub insert_variables : List EggVariable → M (Unit {0})
  insert_variables rows = do
    stored ← gets (λ p. insert_rows orm egg_variable_clash rows p.egg_variables)
    variables ← or_throw internal stored
    modify (λ p. record p { egg_variables = variables })

  unfoldable pub create_egg : CreateEggDto → Draw → M FullEgg
  create_egg dto draw = do
    _ ← find_nest_by_id dto.nest_id
    let egg = new_egg dto draw
    insert_egg egg
    let rows = new_variables egg.id draw 0 (get_or dto.variables [])
    insert_variables rows
    pure (record { egg = egg; variables = rows })

  -- Where variables are given, the old ones are deleted and the new ones stored.
  unfoldable pub replace_variables :
      Text → Draw → Option (List EggVariableDto) → M (List EggVariable)
  replace_variables id draw none = pure []
  replace_variables id draw (some vs) = do
    modify (λ p. record p { egg_variables = orm.remove (of_egg id) p.egg_variables })
    let rows = new_variables id draw 0 vs
    insert_variables rows
    pure rows

  unfoldable pub update_egg : Text → UpdateEggDto → Draw → M FullEgg
  update_egg id dto draw = do
    found ← gets (λ p. orm.find_one (has_key egg_id id) p.eggs)
    egg ← or_throw (not_found "Egg not found") found
    let changed = assign egg dto
    stored ← gets (λ p. orm.save egg_clash (has_key egg_id egg.id) changed p.eggs)
    eggs ← or_throw internal stored
    modify (λ p. record p { eggs = eggs })
    rows ← replace_variables id draw dto.variables
    pure (record { egg = changed; variables = rows })

  unfoldable pub delete_egg : Text → M (Unit {0})
  delete_egg id = do
    found ← gets (λ p. orm.find_one (has_key egg_id id) p.eggs)
    egg ← or_throw (not_found "Egg not found") found
    modify (λ p. record p { eggs = orm.remove (has_key egg_id egg.id) p.eggs })

  unfoldable pub import_egg : EggJson → Draw → M FullEgg
  import_egg json draw = do
    nest ← or_throw internal json.nest_id
    name ← or_throw internal json.name
    image ← or_throw internal json.docker_image
    startup ← or_throw internal json.startup
    let egg : Egg = record {
      id = draw.id;
      nest_id = nest;
      name = name;
      description = some (or_text json.description []);
      author = or_text json.author [];
      docker_image = image;
      docker_images = get_or json.docker_images [];
      startup = startup;
      config_files = json.config_files;
      config_startup = json.config_startup;
      config_stop = json.config_stop;
      config_logs = json.config_logs;
      script_install = some (or_text json.script_install []);
      script_entry = or_text json.script_entry (codes "bash");
      script_container = or_text json.script_container (codes "alpine:latest");
      copy_script_from = json.copy_script_from;
      created_at = draw.now;
      updated_at = draw.now;
    }
    insert_egg egg
    rows ← or_throw internal (read_variables egg.id draw 0 json.variables)
    insert_variables rows
    pure (record { egg = egg; variables = rows })

  unfoldable pub export_egg : Text → M EggJson
  export_egg id = do full ← find_egg_by_id id; pure (egg_json full)

  -- The order by name is not in the model: `find` returns the rows in any order.
  abbrev with_eggs : Panel → List Nest → List (Nest × List Egg)
  with_eggs p [] = []
  with_eggs p (n ∷ ns) = (n, orm.find (λ e. e.nest_id == n.id) p.eggs) ∷ with_eggs p ns

  unfoldable pub find_all_nests : M (List (Nest × List Egg))
  find_all_nests = gets (λ p. with_eggs p (orm.find (λ n. true) p.nests))

  abbrev with_variables : Panel → List Egg → List FullEgg
  with_variables p [] = []
  with_variables p (e ∷ es) =
      (record { egg = e; variables = orm.find (of_egg e.id) p.egg_variables }) ∷ with_variables p es

  -- All eggs, or those of a nest.
  unfoldable pub find_all_eggs : Option Text → M (List FullEgg)
  find_all_eggs nest = gets (λ p. with_variables p (orm.find (λ e. is_in (present nest) e) p.eggs))
