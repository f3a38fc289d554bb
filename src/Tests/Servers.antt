-- ===== src/Tests/Servers.antt =====
-- packages/backend/src/servers/servers.service.ts at work.
use nexus_panel.Common.{
  select, not, ◌&&◌, List, ◌≡◌, ◌↔◌, refl, ◌⊎◌, true, false, none, some, Option, [], ◌∷◌, arith,
  any,
}
use nexus_panel.Common.Texts.{codes, ◌==◌}
use nexus_panel.Database.Orm.{list_store}
use nexus_panel.Database.Panel.{Panel, ok}
use nexus_panel.Wings.Protocol.{start, Request, send_power_action}
use nexus_panel.Wings.Client.{map_power_action}
use nexus_panel.Wings.Client.Laws.{called, call_for}
use nexus_panel.Wings.Client.Checks.{answers}
use nexus_panel.Servers.Service.{load, power, delete, update_install_status, assigned_to}
use nexus_panel.Servers.Service.Laws.{find_by_uuid_lem, told}
use nexus_panel.Servers.Service.Power.{power_lem, blocked}
use nexus_panel.Servers.Service.Deletion.{free_rows, delete_lem}
use nexus_panel.Servers.Service.Installs.{power-update_install_status}
use nexus_panel.Servers.Create.{CreateServerDto, Fresh, create}
use nexus_panel.Servers.Create.Outcomes.{Refused, Created, create_outcomes}
use nexus_panel.Servers.Create.Capacity.{Fits, create-Fits}
use nexus_panel.Nodes.HeartbeatStore.{is_online}
use nexus_panel.Common.Texts.{trim}
use nexus_panel.Wings.Client
use nexus_panel.Wings.Protocol.{Network, decimal}
use nexus_panel.Database.Entities.{Server, ServerStatus, installing, install_failed}
use nexus_panel.Validator.Variables.{
  validate_server_variables, collect_errors, add_errors, validate_variable_value,
}
use nexus_panel.Servers.Service.{find_by_id, update_row}
use nexus_panel.Servers.Create.{
  approve, check_node, check_egg, check_allocation, check_user, check_capacity, resolve_variables,
  store, start_on_wings, substitute, merge_variables,
}
use nexus_panel.Tests.Data.{variable, js, up, down, node, server, held_server, panel, held_panel}

abbrev request : CreateServerDto
request = record {
  name = codes "new";
  description = none;
  user_id = codes "u1";
  node_id = codes "n1";
  egg_id = codes "e1";
  allocation_id = codes "a2";
  memory = 700;
  cpu = 1;
  disk = 100;
  env_variables = none;
  nest_id = codes "ne";
  swap = none;
  io = none;
  threads = none;
  oom_disabled = none;
  startup = none;
  image = none;
  external_id = none;
}

abbrev drawn : Fresh
drawn = record { id = codes "s2"; uuid = codes "u-2"; uuid_short = codes "u2"; now = 10 }

create_outcomes_example :
    Refused js list_store up 10 drawn request panel (create js list_store up 10 drawn request panel)
    ⊎ Created js list_store up 10 drawn request panel
        (create js list_store up 10 drawn request panel)
create_outcomes_example = create_outcomes js list_store up 10 drawn request panel (refl, tt)

create-Fits_example : Fits js (create js list_store up 10 drawn request panel).1
unfolding ◌==◌
create-Fits_example =
    create-Fits js list_store up 10 drawn request panel (λ a b h. refl) (refl, tt) (omega arith)
      (omega arith) (refl, tt) ((refl, refl), tt)

delete_lem_example :
    let kept =
      free_rows list_store
        (list_store.find_one (assigned_to (codes "s1")) panel.allocations)
        panel.allocations in
    (delete list_store down (codes "uu") panel ≡ (
      ok tt,
      record (told
          (load list_store panel server).node
          (Request.delete_server (codes "uu") false)
          panel) {
            servers = select (λ r. not (r.id == codes "s1")) panel.servers;
            allocations = kept;
            schedules = select (λ r. not (r.server_id == codes "s1")) panel.schedules;
            schedule_tasks =
                select
                  (λ t.
                    not (
                      any
                        (λ r. r.id == t.schedule_id && r.server_id == codes "s1")
                        panel.schedules))
                  panel.schedule_tasks;
            subusers = select (λ r. not (r.server_id == codes "s1")) panel.subusers;
            databases = select (λ r. not (r.server_id == codes "s1")) panel.databases;
          },
    ))
    × (any (assigned_to (codes "s1")) kept ≡ false)
unfolding ◌==◌
delete_lem_example =
    delete_lem list_store down (codes "uu") panel server (refl, tt) refl
      ((λ h. refl), ((λ h. refl), tt))

power-update_install_status_example :
    let q = (update_install_status list_store (codes "uu") (codes "success") held_panel).1 in
    ((power list_store up (codes "uu") start held_panel).1 ≡ held_panel)
    × ((power list_store up (codes "uu") start q).1
        ≡ called node (send_power_action (codes "uu") (map_power_action start)) q)
unfolding ◌==◌ load
power-update_install_status_example =
    power-update_install_status list_store up (codes "uu") start held_panel held_server node
      (refl, tt) refl refl refl

power_lem_example :
    ((power list_store up (codes "uu") start panel).1
      ≡ called node (send_power_action (codes "uu") (map_power_action start)) panel)
    × (((power list_store up (codes "uu") start panel).0 ≡ ok tt) ↔ (
        (blocked none ≡ false)
        × (answers (
              up.reply []
                (call_for node (send_power_action (codes "uu") (map_power_action start)) panel))
            ≡ true)))
unfolding load ◌==◌
power_lem_example =
    power_lem list_store up (codes "uu") start panel (load list_store panel server) node
      (find_by_uuid_lem list_store (codes "uu") panel server (refl, tt) refl) refl

-- A request that nothing stands against stores its server, and the daemon decides the answer.
abbrev plain_panel : Panel
plain_panel = record panel { egg_variables = record variable { rules = [] } ∷ [] }

abbrev statuses : List Server → List (Option ServerStatus)
statuses [] = []
statuses (s ∷ t) = s.status ∷ statuses t

abbrev status_after : Network → List (Option ServerStatus)
status_after net = statuses (create js list_store net 10 drawn request plain_panel).1.servers

created :
    (status_after up ≡ some installing ∷ none ∷ [])
    × (status_after down ≡ some install_failed ∷ none ∷ [])
unfolding create approve check_node check_egg check_allocation check_user check_capacity
    resolve_variables store start_on_wings ◌==◌ is_online substitute merge_variables
    Client.check_availability Client.request Client.send Client.get_client Client.cached_or_new
    Client.call_grpc Client.create_server find_by_id load update_row validate_server_variables
    collect_errors add_errors validate_variable_value trim decimal
created = (refl, refl)
