-- ===== src/Servers/Service/Suspension.antt =====
-- Suspending a server and lifting the suspension.
use nexus_panel.Common.{
  ◌≡◌, refl, inl, inr, true, false, Option, none, some, if◌then◌else◌, Bool-cases,
}
use nexus_panel.Common.Texts.{Text, ==_refl}
use nexus_panel.Database.Entities.{Server, ServerStatus, suspended}
use nexus_panel.Database.Orm.{Orm}
use nexus_panel.Database.Rows.{has_key, row, Distinct, Distinct-patch}
use nexus_panel.Database.Panel.{Panel, ok, err, bad_request}
use nexus_panel.Wings.Protocol.{kill, send_power_action, Request, Network}
use nexus_panel.Wings.Client
use nexus_panel.Wings.Client.{map_power_action, send}
use nexus_panel.Servers.Service.{is_status, server_id, load, update_row, suspend, unsuspend}
use nexus_panel.Servers.Service.Laws.{told, ignore_lem, find_by_id_lem, row-update}

-- The request that `suspend` sends first.
abbrev pub kill_request : Server → Request
kill_request s = send_power_action s.uuid (map_power_action kill)

abbrev pub with_status : Option ServerStatus → Server → Server
with_status status s = record s { status = status }

module _ (orm : Orm) where
  -- The panel after the status under an id was written.
  abbrev pub set_status : Text → Option ServerStatus → Panel → Panel
  set_status id status p = record p {
    servers = orm.update (has_key server_id id) (with_status status) p.servers;
  }

  row-set_status :
      (id : Text) (status : Option ServerStatus) (p : Panel) (s : Server)
      → row server_id id p.servers ≡ some s
      → row server_id id (set_status id status p).servers ≡ some (with_status status s)
  row-set_status id status p s e =
      rw (row-update orm id id (with_status status) p.servers (λ r. refl)) (rw (==_refl id, e))

  pub set_status-Distinct :
      (id : Text) (status : Option ServerStatus) (p : Panel)
      → Distinct server_id p.servers
      → Distinct server_id (set_status id status p).servers
  set_status-Distinct id status p d =
      rw (orm.update_lem (has_key server_id id) (with_status status) p.servers) (
        Distinct-patch server_id (with_status status) (λ r. refl) (has_key server_id id) p.servers
          d)

  module _ (net : Network) where
    -- A stored server that is not suspended is suspended: its daemon is told to kill it, its row
    -- gets the status, whatever the daemon answers, and nothing else changes; the suspended row
    -- is returned. The ids of servers are distinct.
    pub suspend_lem :
        (p : Panel) (s : Server)
        → Distinct server_id p.servers
        → row server_id s.id p.servers ≡ some s
        → is_status suspended s.status ≡ false
        → let q = set_status s.id (some suspended) (told (load orm p s).node (kill_request s) p) in
          (suspend orm net s.id p ≡ (ok (load orm q (with_status (some suspended) s)), q))
          × (row server_id s.id q.servers ≡ some (with_status (some suspended) s))
    unfolding suspend update_row Client.power_action told load
    suspend_lem p s d stored live =
        let o = (load orm p s).node in
        let r = kill_request s in
        let q0 = told o r p in
        let kept = row-set_status s.id (some suspended) q0 s stored in
        let distinct = set_status-Distinct s.id (some suspended) q0 d in
        (
          rw (find_by_id_lem orm s.id p s d stored, suspend)
              (rw (live, suspend)
                (rw (ignore_lem net o r p, suspend)
                  (find_by_id_lem orm s.id (set_status s.id (some suspended) q0)
                    (with_status (some suspended) s) distinct kept))),
          kept,
        )

    -- Lifting the suspension clears the status and changes nothing else.
    pub unsuspend_lem :
        (p : Panel) (s : Server)
        → Distinct server_id p.servers
        → row server_id s.id p.servers ≡ some s
        → is_status suspended s.status ≡ true
        → let q = set_status s.id none p in
          (unsuspend orm net s.id p ≡ (ok (load orm q (with_status none s)), q))
          × (row server_id s.id q.servers ≡ some (with_status none s))
    unfolding unsuspend update_row load
    unsuspend_lem p s d stored held =
        let kept = row-set_status s.id none p s stored in
        let distinct = set_status-Distinct s.id none p d in
        (
          rw (find_by_id_lem orm s.id p s d stored, unsuspend)
              (rw (held, unsuspend)
                (find_by_id_lem orm s.id (set_status s.id none p) (with_status none s) distinct
                  kept)),
          kept,
        )

    -- To suspend a stored server that is suspended is refused, so is to lift the suspension of
    -- one that is not, and nothing changes. The ids of servers are distinct.
    suspension_refused :
        (p : Panel) (s : Server)
        → Distinct server_id p.servers
        → row server_id s.id p.servers ≡ some s
        → (if is_status suspended s.status
            then suspend orm net s.id p
            else unsuspend orm net s.id p)
          ≡ (
            err (
                bad_request (
                  if is_status suspended s.status
                  then "Server is already suspended"
                  else "Server is not suspended")),
            p,
          )
    unfolding suspend unsuspend load
    suspension_refused p s d stored = elim (Bool-cases (is_status suspended s.status)) [
      | inl e ↦
          rw (e, suspend) (rw (find_by_id_lem orm s.id p s d stored, suspend) (rw (e, suspend)))
      | inr e ↦
          rw (e, unsuspend)
            (rw (find_by_id_lem orm s.id p s d stored, unsuspend) (rw (e, unsuspend)))
    ]

    -- When a stored server that is not suspended is suspended and the suspension is lifted
    -- again, its row has no status, whatever it was before, and is otherwise as it was. The ids
    -- of servers are distinct.
    unsuspend-suspend :
        (p : Panel) (s : Server)
        → Distinct server_id p.servers
        → row server_id s.id p.servers ≡ some s
        → is_status suspended s.status ≡ false
        → row server_id s.id (unsuspend orm net s.id (suspend orm net s.id p).1).1.servers
          ≡ some (with_status none s)
    unfolding told
    unsuspend-suspend p s d stored live =
        let (done, kept) = suspend_lem p s d stored live in
        let q0 = told (load orm p s).node (kill_request s) p in
        let q = set_status s.id (some suspended) q0 in
        let distinct = set_status-Distinct s.id (some suspended) q0 d in
        rw done (
          rw (unsuspend_lem q (with_status (some suspended) s) distinct kept refl).0
            (unsuspend_lem q (with_status (some suspended) s) distinct kept refl).1)
