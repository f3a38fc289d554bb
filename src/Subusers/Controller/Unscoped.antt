-- ===== src/Subusers/Controller/Unscoped.antt =====
-- packages/backend/src/subusers/subusers.controller.ts: whose subusers an owner may change.
use nexus_panel.Common.{◌≡◌, refl, ◌∙◌, true, false, not, ◌&&◌, List, any, patch, some, ℕ}
use nexus_panel.Common.Texts.{Text}
use nexus_panel.Database.Entities.{Server, ServerSubuser, subuser_clash}
use nexus_panel.Database.Orm.{Orm}
use nexus_panel.Database.Rows.{has_key, row, Distinct, find_one-row}
use nexus_panel.Database.Panel.{Panel, ok}
use nexus_panel.Auth.Guards.{Identity}
use nexus_panel.Servers.Service.{server_uuid, load}
use nexus_panel.Servers.Service.Owned.{has_access, get_server_with_access_lem}
use nexus_panel.Subusers.Service
use nexus_panel.Subusers.Service.{subuser_id}
use nexus_panel.Subusers.Controller.{update, SubuserAnswer, serve, handle}

-- Whoever has access to one stored server can set the permissions of every subuser, also those of the servers of
-- others: with distinct ids, and the row in clash with no other, the handler writes them to the stored
-- row with the id, wherever it belongs.
pub update_unscoped :
    (orm : Orm) (new_id : Text) (now : ℕ) (user : Identity) (uuid id : Text)
    (permissions : List Text) (p : Panel) (own : Server) (s : ServerSubuser)
    → Distinct server_uuid p.servers
    → row server_uuid uuid p.servers ≡ some own
    → has_access user own ≡ true
    → Distinct subuser_id p.subusers
    → row subuser_id id p.subusers ≡ some s
    → any (λ r. not (has_key subuser_id s.id r) && subuser_clash s r) p.subusers ≡ false
    → handle orm new_id now user uuid (update id permissions) p ≡ (
      ok (SubuserAnswer.subuser (record s { permissions = permissions })),
      record p {
        subusers =
            patch
              (has_key subuser_id s.id)
              (λ _. record s { permissions = permissions })
              p.subusers;
      },
    )
unfolding handle serve Service.update load
update_unscoped orm new_id now user uuid id permissions p own s d r h ds rs free =
    let changed : ServerSubuser = record s { permissions = permissions } in
    rw (get_server_with_access_lem orm uuid user p own d r h, handle)
      (rw (find_one-row subuser_id orm id p.subusers ds ∙ rs, handle)
        (rw (orm.save_lem subuser_clash (has_key subuser_id s.id) changed p.subusers, handle)
          (rw (free, handle) refl)))
