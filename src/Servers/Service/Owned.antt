-- ===== src/Servers/Service/Owned.antt =====
-- The start of the controllers of what hangs under a server: packages/backend/src/schedules/schedules.controller.ts,
-- packages/backend/src/subusers/subusers.controller.ts, packages/backend/src/databases/databases.controller.ts.
use nexus_panel.Common.{◌≡◌, refl, Bool, true, ◌||◌, some, arith, Bool-cases, inl, inr}
use nexus_panel.Common.Texts.{Text, ◌==◌}
use nexus_panel.Database.Entities.{Server}
use nexus_panel.Database.Orm.{Orm}
use nexus_panel.Database.Rows.{row, Distinct}
use nexus_panel.Database.Panel.{Panel, ok, M, ◌>>=◌, ◌>>◌, pure}
use nexus_panel.Auth.Guards.{Identity}
use nexus_panel.Servers.Service.{Loaded, server_uuid, load, find_by_uuid, check_access}
use nexus_panel.Servers.Service.Laws.{find_by_uuid_lem}

-- `getServerWithAccess`.
unfoldable pub get_server_with_access : Orm → Text → Identity → M Loaded
get_server_with_access orm uuid user = do
  found ← find_by_uuid orm uuid
  check_access found.server user.id user.root_admin
  pure found

-- Administrators and the owner have access.
abbrev pub has_access : Identity → Server → Bool
has_access user s = user.root_admin || s.user_id == user.id

pub get_server_with_access_lem :
    (orm : Orm) (uuid : Text) (user : Identity) (p : Panel) (s : Server)
    → Distinct server_uuid p.servers
    → row server_uuid uuid p.servers ≡ some s
    → has_access user s ≡ true
    → get_server_with_access orm uuid user p ≡ (ok (load orm p s), p)
unfolding get_server_with_access check_access load
get_server_with_access_lem orm uuid user p s d r h =
    let found = find_by_uuid_lem orm uuid p s d r in
    rw (found) (elim (Bool-cases user.root_admin) [
      | inl a ↦ rw (a) refl
      | inr a ↦ elim (Bool-cases (s.user_id == user.id)) [
        | inl o ↦ rw (a, o) refl
        | inr o ↦ absurd (ground arith)
      ]
    ])
