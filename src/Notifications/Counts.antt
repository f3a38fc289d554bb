-- ===== src/Notifications/Counts.antt =====
-- packages/backend/src/notifications/notifications.service.ts: what is unread after a request.
use nexus_panel.Common.{ℕ, ◌≡◌, refl, List, [], ◌∷◌, patch, sum_by, arith, if◌then◌else◌}
use nexus_panel.Common.Texts.{Text, ◌==◌, eq_iff}
use nexus_panel.Database.Entities.{Notification}
use nexus_panel.Database.Orm.{Orm}
use nexus_panel.Database.Pages.{Pages}
use nexus_panel.Database.Panel.{Panel, ok}
use nexus_panel.Notifications.Service.{is_unread, set_read, mark_all_as_read, count_unread}

abbrev unread_by : Text → List Notification → ℕ
unread_by user t = sum_by (λ n. if is_unread user n then 1 else 0) t

all_read :
    (user other : Text) (t : List Notification)
    → unread_by other (patch (is_unread user) set_read t)
      ≡ (if other == user then 0 else unread_by other t)
all_read user other [] = ground arith
all_read user other (x ∷ xs) = ground (
  arith,
  all_read user other xs,
  eq_iff other user,
  eq_iff x.user_id user,
  eq_iff x.user_id other,
)

-- Once a user has marked all as read, the count of unread notifications is 0 for that user and what it was for
-- every other.
pub mark_all_as_read-count_unread :
    (orm : Orm) (pages : Pages) (user other : Text) (p : Panel)
    → count_unread pages other (mark_all_as_read orm user p).1 ≡ (
      ok (if other == user then 0 else pages.count (is_unread other) p.notifications),
      (mark_all_as_read orm user p).1,
    )
unfolding count_unread mark_all_as_read
mark_all_as_read-count_unread orm pages user other p =
    rw (orm.update_lem (is_unread user) set_read p.notifications) (
      rw (pages.count_lem (is_unread other) (patch (is_unread user) set_read p.notifications)) (
        rw (all_read user other p.notifications)
          (rw (pages.count_lem (is_unread other) p.notifications) refl)))
