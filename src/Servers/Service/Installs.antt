-- ===== src/Servers/Service/Installs.antt =====
-- The status callback at the end of an installation, and the deletion of a server.
use nexus_panel.Common.{
  ◌≡◌, refl, ◌∙◌, Bool, true, false, Option, none, some, arith, if◌then◌else◌, patch,
}
use nexus_panel.Common.Texts.{Text, codes, ◌==◌, ==_refl}
use nexus_panel.Database.Entities.{Server, ServerStatus, install_failed, suspended, Node}
use nexus_panel.Database.Orm.{Orm}
use nexus_panel.Database.Rows.{has_key, row, Distinct, find_one-row, row-patch_any, Distinct-patch}
use nexus_panel.Database.Panel.{Panel, ok}
use nexus_panel.Wings.Protocol.{PowerAction, send_power_action, Network}
use nexus_panel.Wings.Client.{map_power_action}
use nexus_panel.Wings.Client.Laws.{called}
use nexus_panel.Servers.Service.{
  is_status, server_id, server_uuid, load, update_row, update_install_status, power,
}
use nexus_panel.Servers.Service.Laws.{find_by_uuid_lem}
use nexus_panel.Servers.Service.Power.{blocked, power_lem}

-- What the callback makes of a row, after a success or anything else.
abbrev pub installed_by : Bool → Server → Server
installed_by true s = record s { installed = 1; status = none }
installed_by false s = record s { installed = 2; status = some install_failed }

installed_by-uuid : (b : Bool) (s : Server) → (installed_by b s).uuid ≡ s.uuid
installed_by-uuid true s = refl
installed_by-uuid false s = refl

blocked_suspended : (o : Option ServerStatus) → is_status suspended o ≡ true → blocked o ≡ true
blocked_suspended o h = ground arith

module _ (orm : Orm) where
  written :
      (b : Bool) (id : Text) (p : Panel)
      → (if b
            then update_row orm id (λ s. record s { installed = 1; status = none })
            else update_row orm id (λ s. record s { installed = 2; status = some install_failed }))
          p
        ≡ (ok tt, record p { servers = patch (has_key server_id id) (installed_by b) p.servers })
  unfolding update_row
  written true id p = rw (orm.update_lem (has_key server_id id) (installed_by true) p.servers)
  written false id p = rw (orm.update_lem (has_key server_id id) (installed_by false) p.servers)

  -- The callback of a daemon on a stored server changes the row of that server and nothing else:
  -- the status "success" makes it installed, with no status of its own, and any other makes it
  -- failed. The uuids of servers are distinct.
  pub update_install_status_lem :
      (uuid status : Text) (p : Panel) (s : Server)
      → Distinct server_uuid p.servers
      → row server_uuid uuid p.servers ≡ some s
      → update_install_status orm uuid status p ≡ (
        ok tt,
        record p {
          servers =
              patch (has_key server_id s.id) (installed_by (status == codes "success")) p.servers;
        },
      )
  unfolding update_install_status
  update_install_status_lem uuid status p s d stored =
      rw (find_one-row server_uuid orm uuid p.servers d ∙ stored, update_install_status)
        (written (status == codes "success") s.id p)

  row-installed :
      (b : Bool) (uuid : Text) (p : Panel) (s : Server)
      → row server_uuid uuid p.servers ≡ some s
      → row server_uuid uuid (patch (has_key server_id s.id) (installed_by b) p.servers)
        ≡ some (installed_by b s)
  row-installed b uuid p s stored =
      rw
        (row-patch_any server_uuid (installed_by b) (installed_by-uuid b) (has_key server_id s.id)
          uuid p.servers)
        (rw stored (rw (==_refl s.id)))

  -- The success callback lifts a suspension: a power action on a stored server that is suspended
  -- changes nothing, and is sent to its stored node after the callback. The uuids of servers are
  -- distinct.
  pub power-update_install_status :
      (net : Network) (uuid : Text) (action : PowerAction) (p : Panel) (s : Server) (n : Node)
      → Distinct server_uuid p.servers
      → row server_uuid uuid p.servers ≡ some s
      → is_status suspended s.status ≡ true
      → (load orm p s).node ≡ some n
      → let q = (update_install_status orm uuid (codes "success") p).1 in
        ((power orm net uuid action p).1 ≡ p)
        × ((power orm net uuid action q).1
            ≡ called n (send_power_action s.uuid (map_power_action action)) q)
  unfolding load ◌==◌
  power-update_install_status net uuid action p s n d stored held at =
      let q = record p { servers = patch (has_key server_id s.id) (installed_by true) p.servers } in
      let d' =
        Distinct-patch server_uuid (installed_by true) (λ r. refl) (has_key server_id s.id)
          p.servers d in
      let found =
        find_by_uuid_lem orm uuid q (installed_by true s) d' (row-installed true uuid p s stored) in
      (
        (power_lem orm net uuid action p (load orm p s) n (find_by_uuid_lem orm uuid p s d stored)
              at).0
            ∙ rw (blocked_suspended s.status held),
        rw (update_install_status_lem uuid (codes "success") p s d stored)
            (power_lem orm net uuid action q (load orm q (installed_by true s)) n found at).0,
      )
