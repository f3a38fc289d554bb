-- ===== src/Eggs/Rows.antt =====
-- packages/backend/src/eggs/eggs.service.ts: the rows of eggs and of their variables, new, changed and imported.
use nexus_panel.Common.{ℕ, suc, Bool, true, Option, none, some, List, [], ◌∷◌}
use mathlib.Core.Option.{get_or}
use nexus_panel.Common.Texts.{Text, codes, ◌==◌}
use nexus_panel.Database.Entities.{Nest, Egg, EggVariable}
use nexus_panel.Eggs.Dto.{
  CreateNestDto, EggVariableDto, CreateEggDto, UpdateEggDto, EggVariableJson, EggJson, Draw,
  FullEgg,
}

abbrev pub nest_id : Nest → Text
nest_id n = n.id

abbrev pub egg_id : Egg → Text
egg_id e = e.id

-- `CreateNestDto` has no author, and the pipe of the framework takes off what the class does not name.
abbrev pub author_of : CreateNestDto → Option Text
author_of dto = none

abbrev or_keep {ℓ} : {A : Type ℓ} → Option A → Option A → Option A
or_keep none old = old
or_keep (some v) old = some v

-- `value || default`.
abbrev pub or_text : Option Text → Text → Text
or_text none d = d
or_text (some []) d = d
or_text (some (c ∷ s)) d = c ∷ s

abbrev pub new_egg : CreateEggDto → Draw → Egg
new_egg dto draw = record {
  id = draw.id;
  nest_id = dto.nest_id;
  name = dto.name;
  description = dto.description;
  author = dto.author;
  docker_image = dto.docker_image;
  docker_images = get_or dto.docker_images [];
  startup = dto.startup;
  config_files = dto.config_files;
  config_startup = dto.config_startup;
  config_stop = dto.config_stop;
  config_logs = dto.config_logs;
  script_install = dto.script_install;
  script_entry = get_or dto.script_entry (codes "bash");
  script_container = get_or dto.script_container (codes "alpine:latest");
  copy_script_from = dto.copy_script_from;
  created_at = draw.now;
  updated_at = draw.now;
}

-- `Object.assign(egg, eggData)`.
abbrev pub assign : Egg → UpdateEggDto → Egg
assign e dto = record e {
  name = get_or dto.name e.name;
  description = or_keep dto.description e.description;
  author = get_or dto.author e.author;
  docker_image = get_or dto.docker_image e.docker_image;
  docker_images = get_or dto.docker_images e.docker_images;
  startup = get_or dto.startup e.startup;
  config_files = or_keep dto.config_files e.config_files;
  config_startup = or_keep dto.config_startup e.config_startup;
  config_stop = or_keep dto.config_stop e.config_stop;
  config_logs = or_keep dto.config_logs e.config_logs;
  script_install = or_keep dto.script_install e.script_install;
  script_entry = get_or dto.script_entry e.script_entry;
  script_container = get_or dto.script_container e.script_container;
  copy_script_from = or_keep dto.copy_script_from e.copy_script_from;
}

abbrev pub new_variable : (egg : Text) → EggVariableDto → (id : Text) → ℕ → EggVariable
new_variable egg v id now = record {
  id = id;
  egg_id = egg;
  name = v.name;
  description = v.description;
  env_variable = v.env_variable;
  default_value = v.default_value;
  user_viewable = v.user_viewable;
  user_editable = v.user_editable;
  rules = v.rules;
  created_at = now;
  updated_at = now;
}

abbrev pub new_variables : (egg : Text) → Draw → ℕ → List EggVariableDto → List EggVariable
new_variables egg draw i [] = []
new_variables egg draw i (v ∷ vs) =
    new_variable egg v (draw.id_of i) draw.now ∷ new_variables egg draw (suc i) vs

-- The row of a variable of an import. It has none without a name and a key.
abbrev pub read_variable : (egg : Text) → EggVariableJson → (id : Text) → ℕ → Option EggVariable
read_variable egg v id now = elim v.name [
  | none ↦ none
  | some name ↦ elim v.env_variable [
    | none ↦ none
    | some env_variable ↦ some (record {
      id = id;
      egg_id = egg;
      name = name;
      description = or_text v.description [];
      env_variable = env_variable;
      default_value = or_text v.default_value [];
      user_viewable = get_or v.user_viewable true;
      user_editable = get_or v.user_editable true;
      rules = or_text v.rules [];
      created_at = now;
      updated_at = now;
    })
  ]
]

abbrev pub both : Option EggVariable → Option (List EggVariable) → Option (List EggVariable)
both none rest = none
both (some v) none = none
both (some v) (some vs) = some (v ∷ vs)

abbrev pub read_variables :
    (egg : Text) → Draw → ℕ → List EggVariableJson → Option (List EggVariable)
read_variables egg draw i [] = some []
read_variables egg draw i (v ∷ vs) =
    both (read_variable egg v (draw.id_of i) draw.now) (read_variables egg draw (suc i) vs)

abbrev pub variable_json : EggVariable → EggVariableJson
variable_json v = record {
  name = some v.name;
  description = some v.description;
  env_variable = some v.env_variable;
  default_value = some v.default_value;
  user_viewable = some v.user_viewable;
  user_editable = some v.user_editable;
  rules = some v.rules;
}

abbrev pub variables_json : List EggVariable → List EggVariableJson
variables_json [] = []
variables_json (v ∷ vs) = variable_json v ∷ variables_json vs

-- The object that `exportEgg` answers.
abbrev pub egg_json : FullEgg → EggJson
egg_json f = record {
  name = some f.egg.name;
  description = f.egg.description;
  author = some f.egg.author;
  docker_image = some f.egg.docker_image;
  docker_images = some f.egg.docker_images;
  startup = some f.egg.startup;
  config_files = f.egg.config_files;
  config_startup = f.egg.config_startup;
  config_stop = f.egg.config_stop;
  config_logs = f.egg.config_logs;
  script_install = f.egg.script_install;
  script_entry = some f.egg.script_entry;
  script_container = some f.egg.script_container;
  copy_script_from = f.egg.copy_script_from;
  variables = variables_json f.variables;
  nest_id = some f.egg.nest_id;
  export_version = some (codes "1.0");
}

abbrev pub is_in : Option Text → Egg → Bool
is_in none e = true
is_in (some nest) e = e.nest_id == nest
