-- ===== src/Notifications/Service.antt =====
-- packages/backend/src/notifications/notifications.service.ts, and the handlers of
-- packages/backend/src/notifications/notifications.controller.ts that hand on to it.
use nexus_panel.Common.{ℕ, Bool, true, false, not, ◌&&◌, Option, List, any}
use nexus_panel.Common.Texts.{Text, ◌==◌}
use nexus_panel.Database.Entities.{Notification, notification_clash}
use nexus_panel.Database.Orm.{Orm}
use nexus_panel.Database.Pages.{page_or, Pages, Paged, paginate}
use nexus_panel.Database.Panel.{internal, M, ◌>>=◌, ◌>>◌, pure, gets, modify, or_throw}

abbrev pub of_user : Text → Notification → Bool
of_user user n = n.user_id == user

abbrev pub is_unread : Text → Notification → Bool
is_unread user n = n.user_id == user && not n.read

-- `{ id: In(ids), userId }`.
abbrev pub is_among : List Text → Text → Notification → Bool
is_among ids user n = any (λ id. n.id == id) ids && n.user_id == user

abbrev pub set_read : Notification → Notification
set_read n = record n { read = true }

abbrev pub new_notification :
    (user_id type title message : Text)
    → (resource_type resource_id : Option Text) → (id : Text) → ℕ
    → Notification
new_notification user_id type title message resource_type resource_id id now = record {
  id = id;
  user_id = user_id;
  type = type;
  title = title;
  message = message;
  read = false;
  resource_type = resource_type;
  resource_id = resource_id;
  created_at = now;
  updated_at = now;
}

module _ (orm : Orm) where
  unfoldable pub create : Notification → M Notification
  create notification = do
    stored ← gets (λ p. orm.insert notification_clash notification p.notifications)
    notifications ← or_throw internal stored
    modify (λ p. record p { notifications = notifications })
    pure notification

  unfoldable pub mark_as_read : List Text → Text → M (Unit {0})
  mark_as_read ids user =
      modify
        (λ p. record p { notifications = orm.update (is_among ids user) set_read p.notifications })

  unfoldable pub mark_all_as_read : Text → M (Unit {0})
  mark_all_as_read user =
      modify
        (λ p. record p { notifications = orm.update (is_unread user) set_read p.notifications })

module _ (pages : Pages) where
  unfoldable pub find_by_user : Text → (page per_page : ℕ) → M (Paged Notification)
  find_by_user user page per_page =
      paginate pages (λ p. p.notifications) (of_user user) page per_page

  unfoldable pub count_unread : Text → M ℕ
  count_unread user = gets (λ p. pages.count (is_unread user) p.notifications)

-- The endpoints, for the user of the token.
pub data NotificationRequest : Type 0 where
  find_all : (page per_page : Option ℕ) → NotificationRequest
  unread_count : NotificationRequest
  mark_read : (notification_ids : List Text) → NotificationRequest
  mark_all_read : NotificationRequest

pub data NotificationAnswer : Type 0 where
  listed : Paged Notification → NotificationAnswer
  counted : ℕ → NotificationAnswer
  marked : NotificationAnswer

unfoldable pub handle : Orm → Pages → Text → NotificationRequest → M NotificationAnswer
handle orm pages user (find_all page per_page) = do
  found ← find_by_user pages user (page_or page 1) (page_or per_page 25)
  pure (listed found)
handle orm pages user unread_count = do count ← count_unread pages user; pure (counted count)
handle orm pages user (mark_read notification_ids) = do
  mark_as_read orm notification_ids user
  pure marked
handle orm pages user mark_all_read = do mark_all_as_read orm user; pure marked
