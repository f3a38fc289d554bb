-- ===== src/Tests/Records.antt =====
-- packages/backend/src/eggs, packages/backend/src/users and packages/backend/src/admin at work.
use nexus_panel.Common.{
  arith, ◌+◌, ◌≡◌, ◌↔◌, ◌⊎◌, refl, true, false, none, some, [], ◌∷◌, Has, patch, if◌then◌else◌,
}
use nexus_panel.Common.Texts.{codes, ◌==◌}
use nexus_panel.Database.Entities.{User, EggVariable, egg_variable_clash}
use nexus_panel.Database.Orm.{list_store}
use nexus_panel.Database.Inserts.{onto}
use nexus_panel.Database.Rows.{has_key}
use nexus_panel.Database.Panel.{ok, err, ◌>>=◌}
use nexus_panel.Servers.Create.{of_egg}
use nexus_panel.Eggs.Dto.{Draw, EggVariableDto, UpdateEggDto}
use nexus_panel.Eggs.Rows.{egg_id, assign, new_variables}
use nexus_panel.Eggs.Service.{export_egg, import_egg, update_egg}
use nexus_panel.Eggs.Import.{copy_of, copies_of, import_egg-export_egg}
use nexus_panel.Eggs.Update.{update_egg_lem}
use nexus_panel.Users.Service
use nexus_panel.Users.Service.{UpdateUserDto, of_service, user_name, result, new_password}
use nexus_panel.Users.Writes.{others_have, update_lem}
use nexus_panel.Auth.Service.{user_id, user_email}
use nexus_panel.Allocations
use nexus_panel.Users
use nexus_panel.Users.Controller.{UserRequest, update_me, is_for_admins}
use nexus_panel.Users.Controller.Rights.{SameRights, route-SameRights}
use nexus_panel.Auth.Guards.Laws.{IsRequester}
use nexus_panel.Wings.Files.{list_files, read_file}
use nexus_panel.Wings.Files.Query.{Asks, file_queries_lem}
use nexus_panel.Tests.Pages.{list_pages}
use nexus_panel.Tests.Controllers.{of_alice, no_header}
use nexus_panel.Admin.Allocations.{CreateNodeAllocationsDto, create}
use nexus_panel.Admin.Allocations.Same.{create-create}
use nexus_panel.Tests.Data.{node, up, alice, egg, variable, panel}
use nexus_panel.Tests.Tokens.{crypto}

abbrev draw : Draw
draw = record { id = codes "e2"; id_of = λ i. (i + 100) ∷ []; now = 9 }

import_egg-export_egg_example :
    (export_egg list_store (codes "e1") >>= (λ json. import_egg list_store json draw)) panel ≡ (
      ok (record { egg = copy_of egg draw; variables = copies_of draw 0 (variable ∷ []) }),
      record panel {
        eggs = copy_of egg draw ∷ egg ∷ [];
        egg_variables =
            onto list_store egg_variable_clash (copies_of draw 0 (variable ∷ [])) (variable ∷ []);
      },
    )
unfolding ◌==◌
import_egg-export_egg_example =
    import_egg-export_egg list_store (codes "e1") egg draw panel (refl, tt) refl refl (refl, tt)

abbrev port_dto : EggVariableDto
port_dto = record {
  name = codes "Port";
  description = [];
  env_variable = codes "PORT";
  default_value = codes "1";
  user_viewable = true;
  user_editable = false;
  rules = codes "required";
}

abbrev changes : UpdateEggDto
changes = record {
  name = some (codes "new");
  description = none;
  author = none;
  docker_image = none;
  docker_images = none;
  startup = none;
  config_files = none;
  config_startup = none;
  config_stop = none;
  config_logs = none;
  script_install = none;
  script_entry = none;
  script_container = none;
  copy_script_from = none;
  variables = some (port_dto ∷ []);
}

update_egg_lem_example :
    let q = (update_egg list_store (codes "e1") changes draw panel).1 in
    let rows = new_variables (codes "e1") draw 0 (port_dto ∷ []) in
    ((update_egg list_store (codes "e1") changes draw panel).0
      ≡ ok (record { egg = assign egg changes; variables = rows }))
    × (q.eggs ≡ patch (has_key egg_id (codes "e1")) (λ _. assign egg changes) panel.eggs)
    × ((v : EggVariable)
        → Has v q.egg_variables
          ↔ (Has v rows ⊎ (Has v panel.egg_variables × (of_egg (codes "e1") v ≡ false))))
unfolding ◌==◌
update_egg_lem_example =
    update_egg_lem list_store (codes "e1") changes (port_dto ∷ []) draw panel egg (refl, tt) refl
      refl (refl, tt)

-- The first user takes the address of the second.
abbrev taken_address : UpdateUserDto
taken_address = record {
  email = some (codes "b@x");
  username = none;
  password = none;
  root_admin = none;
  enabled = none;
  avatar_url = none;
}

update_lem_example :
    let c =
      Service.assign alice taken_address
        (new_password list_store crypto none (codes "salt") alice) in
    Service.update list_store crypto of_service (codes "u1") taken_address (codes "salt") panel ≡ (
      if others_have user_email (some (codes "b@x")) alice panel.users
      then (err of_service.email_taken, panel)
      else if others_have user_name none alice panel.users
      then (err of_service.username_taken, panel)
      else (
        ok (result c),
        record panel { users = patch (has_key user_id (codes "u1")) (λ _. c) panel.users },
      ))
unfolding ◌==◌
update_lem_example =
    update_lem list_store crypto of_service (codes "u1") taken_address (codes "salt") panel alice
      (refl, (refl, tt)) (refl, (refl, tt)) (refl, (refl, tt)) refl refl refl

-- A range of which one port is there.
abbrev range : CreateNodeAllocationsDto
range = record { ip = codes "ip"; port_start = 2001; port_end = 2003; ip_alias = none }

create-create_example :
    create list_store (codes "n1") range (λ port. port ∷ []) 9 panel
    ≡ Allocations.Service.create list_store
        (codes "n1")
        (codes "ip")
        2001
        2003
        (λ port. port ∷ [])
        9
        panel
create-create_example = create-create list_store (codes "n1") range (λ port. port ∷ []) 9 panel refl

-- The first user renames itself.
abbrev renamed : UserRequest
renamed =
    update_me
      (record { email = none; username = some (codes "al"); password = none; avatar_url = none })
      (codes "salt")

route-SameRights_example :
    SameRights panel
      (Users.Controller.route list_store list_pages crypto no_header of_alice renamed panel).1
    ⊎ ((u : User) × IsRequester list_store crypto no_header of_alice panel u
        × (u.root_admin ≡ true)
        × (is_for_admins renamed ≡ true))
unfolding ◌==◌
route-SameRights_example =
    route-SameRights list_store crypto list_pages no_header of_alice renamed panel
      (refl, (refl, tt))

file_queries_lem_example :
    Asks node
      (codes "uu")
      (codes "/files?path=")
      (codes "/a b")
      panel
      (list_files up node (codes "uu") (codes "/a b") panel)
    × Asks node
        (codes "uu")
        (codes "/files/read?path=")
        (codes "/a b")
        panel
        (read_file up node (codes "uu") (codes "/a b") panel)
file_queries_lem_example =
    file_queries_lem up node (codes "uu") (codes "/a b") panel
      (omega arith, (omega arith, (omega arith, (omega arith, tt))))
