-- ===== src/Servers/Service/Power.antt =====
-- Power actions: which servers refuse them, and what leaves the panel for the others.
use nexus_panel.Common.{
  ◌≡◌, ◌↔◌, inl, inr, refl, Bool, true, false, ◌||◌, Option, some, if◌then◌else◌, Bool-cases,
}
use nexus_panel.Common.Texts.{Text}
use nexus_panel.Database.Entities.{ServerStatus, installing, suspended, Node}
use nexus_panel.Database.Orm.{Orm}
use nexus_panel.Database.Panel.{Panel, ok}
use nexus_panel.Wings.Protocol.{PowerAction, send_power_action, Network, Reply, answered, failed}
use nexus_panel.Wings.Client
use nexus_panel.Wings.Client.{map_power_action, settle, send}
use nexus_panel.Wings.Client.Laws.{called, call_for, same_text, send_lem}
use nexus_panel.Wings.Client.Checks.{answers}
use nexus_panel.Servers.Service.{is_status, find_by_uuid, Loaded, power}

-- The statuses under which `power` refuses.
abbrev pub blocked : Option ServerStatus → Bool
blocked status = is_status installing status || is_status suspended status

module _ (orm : Orm) (net : Network) where
  answer_iff : (r : Reply) → (same_text (settle r) ≡ ok tt) ↔ (answers r ≡ true)
  answer_iff (answered t) = (λ _. refl, λ _. refl)
  answer_iff (failed m) = (λ e. cc, λ e. cc)

  -- A power action on a server whose node is stored reaches the daemon, as one call with the number
  -- of the action and the uuid of the server, exactly when the server is neither installing nor
  -- suspended; otherwise nothing in the panel changes. It succeeds exactly when it was sent and the
  -- daemon answered.
  pub power_lem :
      (uuid : Text) (action : PowerAction) (p : Panel) (l : Loaded) (n : Node)
      → find_by_uuid orm uuid p ≡ (ok l, p)
      → l.node ≡ some n
      → let request = send_power_action l.server.uuid (map_power_action action) in
        ((power orm net uuid action p).1
          ≡ (if blocked l.server.status then p else called n request p))
        × (((power orm net uuid action p).0 ≡ ok tt) ↔ (
            (blocked l.server.status ≡ false)
            × (answers (net.reply p.calls (call_for n request p)) ≡ true)))
  unfolding power Client.power_action
  power_lem uuid action p l n found stored =
      let request = send_power_action l.server.uuid (map_power_action action) in
      let (to, from) = answer_iff (net.reply p.calls (call_for n request p)) in
      elim (Bool-cases (is_status installing l.server.status)) [
        | inl i ↦ rw (found, i, power) (refl, (λ e. cc, λ h. cc (h.0)))
        | inr i ↦ elim (Bool-cases (is_status suspended l.server.status)) [
          | inl s ↦ rw (found, i, s, power) (refl, (λ e. cc, λ h. cc (h.0)))
          | inr s ↦
              rw (found, i, s, stored, power)
                (rw (send_lem net n request p) (refl, (λ e. (refl, to e), λ h. from h.1)))
        ]
      ]
