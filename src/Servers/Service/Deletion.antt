-- ===== src/Servers/Service/Deletion.antt =====
-- Deleting a server: its row goes, its allocation is given back, whatever its daemon answers.
use nexus_panel.Common.{
  ◌&&◌, ◌≡◌, refl, inl, inr, false, Option, none, some, List, Option-cases, any, patch, select, not,
}
use nexus_panel.Common.Texts.{Text, ◌==◌}
use nexus_panel.Database.Entities.{Server, Allocation}
use nexus_panel.Database.Orm.{Orm}
use nexus_panel.Database.Rows.{has_key, row, Distinct, Unique, clear-Unique}
use nexus_panel.Database.Panel.{Panel, ok}
use nexus_panel.Wings.Protocol.{Request, Network}
use nexus_panel.Wings.Client
use nexus_panel.Servers.Service.{
  server_id, server_uuid, allocation_id, assigned_to, load, free, delete, schedule_of, subuser_of,
  database_of, task_of, cascade,
}
use nexus_panel.Servers.Service.Laws.{told, ignore_lem, find_by_uuid_lem}

abbrev freed : Allocation → Allocation
freed a = record a { server_id = none }

module _ (orm : Orm) where
  -- The allocation of the row, if there is one, is given back.
  unfoldable pub free_rows : Option Allocation → List Allocation → List Allocation
  free_rows none t = t
  free_rows (some a) t = patch (has_key allocation_id a.id) freed t

  free_lem :
      (o : Option Allocation) (p : Panel)
      → free orm o p ≡ (ok tt, record p { allocations = free_rows o p.allocations })
  unfolding free free_rows
  free_lem none p = refl
  free_lem (some a) p = rw (orm.update_lem (has_key allocation_id a.id) freed p.allocations)

  free_rows-unassigned :
      (id : Text) (t : List Allocation)
      → Unique (assigned_to id) t
      → any (assigned_to id) (free_rows (orm.find_one (assigned_to id) t) t) ≡ false
  unfolding free_rows
  free_rows-unassigned id t u = elim (Option-cases (orm.find_one (assigned_to id) t)) [
    | inl e ↦ rw (e, free_rows) (orm.find_one_none (assigned_to id) t e)
    | inr (a, e) ↦
        let (hit, stored) = orm.find_one_some (assigned_to id) t a e in
        rw (e, free_rows)
          (clear-Unique allocation_id (assigned_to id) freed (λ r. refl) a t u stored hit)
  ]

  -- The deletion of a stored server succeeds, whatever its daemon answers to the one request that it is sent. Its row
  -- goes, with its schedules and their tasks, its subusers and its databases; its allocation is given back,
  -- so that none names the server any more, provided that one at most did; and nothing else changes. The
  -- uuids of servers are distinct.
  pub delete_lem :
      (net : Network) (uuid : Text) (p : Panel) (s : Server)
      → Distinct server_uuid p.servers
      → row server_uuid uuid p.servers ≡ some s
      → Unique (assigned_to s.id) p.allocations
      → let kept = free_rows (orm.find_one (assigned_to s.id) p.allocations) p.allocations in
        (delete orm net uuid p ≡ (
          ok tt,
          record (told (load orm p s).node (Request.delete_server s.uuid false) p) {
            servers = select (λ r. not (r.id == s.id)) p.servers;
            allocations = kept;
            schedules = select (λ r. not (r.server_id == s.id)) p.schedules;
            schedule_tasks =
                select
                  (λ t. not (any (λ r. r.id == t.schedule_id && r.server_id == s.id) p.schedules))
                  p.schedule_tasks;
            subusers = select (λ r. not (r.server_id == s.id)) p.subusers;
            databases = select (λ r. not (r.server_id == s.id)) p.databases;
          },
        ))
        × (any (assigned_to s.id) kept ≡ false)
  unfolding delete load told Client.delete_server cascade
  delete_lem net uuid p s d stored u =
      let o = (load orm p s).node in
      (
        rw (find_by_uuid_lem orm uuid p s d stored, delete)
            (rw (ignore_lem net o (Request.delete_server s.uuid false) p, delete)
              (rw
                (
                  free_lem (load orm p s).allocation
                      (told o (Request.delete_server s.uuid false) p),
                  delete,
                )
                (rw (orm.remove_lem (has_key server_id s.id) p.servers) (
                  rw (orm.remove_lem (task_of s.id p.schedules) p.schedule_tasks) (
                    rw (orm.remove_lem (schedule_of s.id) p.schedules) (
                      rw (orm.remove_lem (subuser_of s.id) p.subusers)
                        (rw (orm.remove_lem (database_of s.id) p.databases) refl))))))),
        free_rows-unassigned s.id p.allocations u,
      )
