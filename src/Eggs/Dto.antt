-- ===== src/Eggs/Dto.antt =====
-- packages/backend/src/eggs/dto, and the JSON that an egg is written as.
use nexus_panel.Common.{ℕ, Bool, Option, List}
use nexus_panel.Common.Texts.{Text}
use nexus_panel.Database.Entities.{Egg, EggVariable}

pub record CreateNestDto : Type 0 where
  pub name : Text
  pub description : Text

pub record EggVariableDto : Type 0 where
  pub name : Text
  pub description : Text
  pub env_variable : Text
  pub default_value : Text
  pub user_viewable : Bool
  pub user_editable : Bool
  pub rules : Text

pub record CreateEggDto : Type 0 where
  pub nest_id : Text
  pub name : Text
  pub description : Option Text
  pub author : Text
  pub docker_image : Text
  pub docker_images : Option (List (Text × Text))
  pub startup : Text
  pub config_files : Option Text
  pub config_startup : Option Text
  pub config_stop : Option Text
  pub config_logs : Option Text
  pub script_install : Option Text
  pub script_entry : Option Text
  pub script_container : Option Text
  pub copy_script_from : Option Text
  pub variables : Option (List EggVariableDto)

pub record UpdateEggDto : Type 0 where
  pub name : Option Text
  pub description : Option Text
  pub author : Option Text
  pub docker_image : Option Text
  pub docker_images : Option (List (Text × Text))
  pub startup : Option Text
  pub config_files : Option Text
  pub config_startup : Option Text
  pub config_stop : Option Text
  pub config_logs : Option Text
  pub script_install : Option Text
  pub script_entry : Option Text
  pub script_container : Option Text
  pub copy_script_from : Option Text
  pub variables : Option (List EggVariableDto)

-- What an egg is written as: JSON, in which a property may be missing or null.
pub record EggVariableJson : Type 0 where
  pub name : Option Text
  pub description : Option Text
  pub env_variable : Option Text
  pub default_value : Option Text
  pub user_viewable : Option Bool
  pub user_editable : Option Bool
  pub rules : Option Text

pub record EggJson : Type 0 where
  pub name : Option Text
  pub description : Option Text
  pub author : Option Text
  pub docker_image : Option Text
  pub docker_images : Option (List (Text × Text))
  pub startup : Option Text
  pub config_files : Option Text
  pub config_startup : Option Text
  pub config_stop : Option Text
  pub config_logs : Option Text
  pub script_install : Option Text
  pub script_entry : Option Text
  pub script_container : Option Text
  pub copy_script_from : Option Text
  pub variables : List EggVariableJson
  pub nest_id : Option Text
  pub export_version : Option Text

pub record Draw : Type 0 where
  pub id : Text
  pub id_of : ℕ → Text
  pub now : ℕ

-- An egg with its variables, where they are loaded.
pub record FullEgg : Type 0 where
  pub egg : Egg
  pub variables : List EggVariable
