-- ===== src/Auth/AuditLog.antt =====
-- packages/backend/src/audit-log/audit-log.service.ts: the list of the audit log. The user of an entry, which the
-- query joins, is not in the answer here.
use nexus_panel.Common.{ℕ, Bool, true, false, ◌&&◌, Option, none, some}
use nexus_panel.Common.Texts.{Text, ◌==◌}
use nexus_panel.Database.Entities.{AuditLog}
use nexus_panel.Database.Pages.{Pages, Paged, paginate}
use nexus_panel.Database.Panel.{M}
use nexus_panel.Auth.Service.{present}

-- `audit.event = :event`, where an event is given.
abbrev pub is_event : Option Text → AuditLog → Bool
is_event none a = true
is_event (some event) a = a.event == event

abbrev is_same : Text → Option Text → Bool
is_same user none = false
is_same user (some id) = id == user

-- `audit.userId = :userId`, where a user is given.
abbrev pub is_by : Option Text → AuditLog → Bool
is_by none a = true
is_by (some user) a = is_same user a.user_id

unfoldable pub find_all :
    Pages → (page per_page : ℕ) → (event user_id : Option Text) → M (Paged AuditLog)
find_all pages page per_page event user_id =
    paginate pages (λ p. p.audit_logs)
      (λ a. is_event (present event) a && is_by (present user_id) a) page per_page
