-- ===== src/Servers/Callbacks.antt =====
-- packages/backend/src/servers/server-callbacks.controller.ts: the report of a daemon at the end of an installation.
use nexus_panel.Common.{◌≡◌, inl, inr, Bool-cases, Bool, not, ◌||◌, some, if◌then◌else◌, patch}
use nexus_panel.Common.Texts.{Text, codes, ◌==◌}
use nexus_panel.Database.Entities.{Server, Node}
use nexus_panel.Database.Orm.{Orm}
use nexus_panel.Database.Rows.{has_key, row, Distinct}
use nexus_panel.Database.Panel.{Panel, bad_request, ok, err, M, ◌>>=◌, ◌>>◌, throw_if}
use nexus_panel.Auth.Guards.{HttpRequest, daemon_token_guard}
use nexus_panel.Servers.Service.{server_id, server_uuid, update_install_status}
use nexus_panel.Servers.Service.Installs.{installed_by, update_install_status_lem}

-- The two statuses; the empty one is neither.
abbrev pub is_status_text : Text → Bool
is_status_text status = status == codes "success" || status == codes "failed"

module _ (orm : Orm) where
  -- `installStatus`, behind the guard of its controller.
  unfoldable pub install_status : HttpRequest → (uuid status : Text) → M (Unit {0})
  install_status request uuid status = do
    _ ← daemon_token_guard orm request
    throw_if (not (is_status_text status))
        (bad_request "Invalid status: must be \"success\" or \"failed\"")
    update_install_status orm uuid status

  -- A daemon that is let in as some node reports on any stored server that it names: the row of
  -- that server changes, on whatever node the server is; any status but the two is refused. The
  -- uuids of servers are distinct.
  pub install_status_lem :
      (request : HttpRequest) (uuid status : Text) (p : Panel) (n : Node) (s : Server)
      → daemon_token_guard orm request p ≡ (ok n, p)
      → Distinct server_uuid p.servers
      → row server_uuid uuid p.servers ≡ some s
      → install_status request uuid status p ≡ (
          if is_status_text status
          then (
            ok tt,
            record p {
              servers =
                  patch
                    (has_key server_id s.id)
                    (installed_by (status == codes "success"))
                    p.servers;
            },
          )
          else (err (bad_request "Invalid status: must be \"success\" or \"failed\""), p))
  unfolding install_status
  install_status_lem request uuid status p n s g d stored =
      elim (Bool-cases (is_status_text status)) [
        | inl e ↦
            rw (g, install_status)
              (rw (e, install_status) (update_install_status_lem orm uuid status p s d stored))
        | inr e ↦ rw (g, install_status) (rw (e, install_status))
      ]
