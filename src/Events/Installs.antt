-- ===== src/Events/Installs.antt =====
-- packages/backend/src/wings/event-handlers.ts and packages/backend/src/servers/servers.service.ts: two ways
-- by which the end of an installation is stored.
use nexus_panel.Common.{◌≡◌, refl, sym, ◌∙◌, inl, inr, none, some, List, [], ◌∷◌, arith, patch, Has}
use nexus_panel.Common.Texts.{Text, codes, ◌==◌, eq_iff}
use nexus_panel.Database.Entities.{Server, install_failed}
use nexus_panel.Database.Orm.{Orm}
use nexus_panel.Database.Rows.{has_key, row-Has, Distinct, find_one-row}
use nexus_panel.Database.Panel.{Panel}
use nexus_panel.Servers.Service.{server_id, server_uuid, update_row, update_install_status}
use nexus_panel.Events.Handlers.{EventHandlers, handle_install_complete, handle_install_failed}

-- With distinct ids and distinct uuids, a write by the id of a row is the write by its uuid.
patch_same :
    (f : Server → Server) (s : Server) (t : List Server)
    → ((r : Server) → Has r t → r.id == s.id ≡ r.uuid == s.uuid)
    → patch (has_key server_id s.id) f t ≡ patch (has_key server_uuid s.uuid) f t
patch_same f s [] h = refl
patch_same f s (x ∷ xs) h = ground (arith, h x (inl refl), patch_same f s xs (λ r m. h r (inr m)))

same_key :
    (r s : Server) (t : List Server)
    → Distinct server_id t
    → Distinct server_uuid t
    → Has r t
    → Has s t
    → r.id == s.id ≡ r.uuid == s.uuid
same_key r s t d u k m = ground (
  arith,
  eq_iff r.id s.id,
  eq_iff r.uuid s.uuid,
  row-Has server_id s.id t r d k,
  row-Has server_id s.id t s d m refl,
  row-Has server_uuid s.uuid t r u k,
  row-Has server_uuid s.uuid t s u m refl,
)

module _ {N : Type 0} (orm : Orm) where
  -- From the same rows, with distinct ids and uuids, the callback of a daemon on a stored server
  -- and the event of an installation write the same rows of servers.
  pub update_install_status-handle :
      (s : Server) (p : Panel) (h : EventHandlers N) (message : Text)
      → Distinct server_id p.servers
      → Distinct server_uuid p.servers
      → Has s p.servers
      → h.servers ≡ p.servers
      → ((update_install_status orm s.uuid (codes "success") p).1.servers
          ≡ (handle_install_complete orm s.uuid h).servers)
        × ((update_install_status orm s.uuid (codes "failed") p).1.servers
            ≡ (handle_install_failed orm s.uuid message h).servers)
  unfolding update_install_status handle_install_complete handle_install_failed update_row ◌==◌
  update_install_status-handle s p h message d u m e =
      let found : orm.find_one (has_key server_uuid s.uuid) p.servers ≡ some s =
        find_one-row server_uuid orm s.uuid p.servers u
        ∙ row-Has server_uuid s.uuid p.servers s u m refl in
      let agree : (r : Server) → Has r p.servers → r.id == s.id ≡ r.uuid == s.uuid =
        λ r k. same_key r s p.servers d u k m in
      let done = λ (f : Server → Server).
        orm.update_lem (has_key server_id s.id) f p.servers
        ∙ patch_same f s p.servers agree
        ∙ sym (orm.update_lem (has_key server_uuid s.uuid) f p.servers) in
      rw (found, update_install_status)
        (rw e (
          done (λ r. record r { installed = 1; status = none }),
          done (λ r. record r { installed = 2; status = some install_failed }),
        ))
