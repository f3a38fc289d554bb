-- ===== src/Tests/Controllers.antt =====
-- The controllers of packages/backend/src/servers, files, auth, schedules and notifications at work.
use nexus_panel.Common.{
  ℕ, ◌≡◌, refl, ◌⊎◌, inl, true, false, not, Option, none, some, List, [], ◌∷◌, select,
}
use nexus_panel.Common.Texts.{Text, codes, ◌==◌}
use nexus_panel.Database.Entities.{User, Schedule}
use nexus_panel.Database.Orm.{list_store}
use nexus_panel.Database.Rows.{has_key}
use nexus_panel.Database.Panel.{Panel, Failure, forbidden, ok, err}
use nexus_panel.Wings.Protocol.{start}
use nexus_panel.Auth.Service.{access_claims}
use nexus_panel.Auth.Guards.{HttpRequest, identity, extract_token, jwt_auth_guard}
use nexus_panel.Auth.Guards.Laws.{IsRequester}
use nexus_panel.Auth.Login.{entered}
use nexus_panel.Auth.Service.{validate_user}
use nexus_panel.Auth.Controller.{Exchange, clear_cookie, session_cookie, refresh, logout}
use nexus_panel.Auth.Controller.Cookies.{logout-refresh}
use nexus_panel.Servers.Service.Owned.{has_access}
use nexus_panel.Servers.Service.{load}
use nexus_panel.Servers.Controller.{Endpoint, power, route}
use nexus_panel.Servers.Controller.Access.{Allowed, route-Allowed}
use nexus_panel.Files.Controller.{FileRequest, read_file, handle}
use nexus_panel.Files.Access.{Sends, handle-Sends}
use nexus_panel.Schedules.Service.{Draw, schedule_id}
use nexus_panel.Schedules.Controller
use nexus_panel.Schedules.Laws.{delete_unscoped}
use nexus_panel.Tests.Data.{js, alice, node, server, panel, up}
use nexus_panel.Tests.Tokens.{crypto}
use nexus_panel.Tests.Pages.{list_pages}
use nexus_panel.Tests.Auth.{visit}

abbrev pub no_header : Option Text → Option Text
no_header o = none

abbrev pub of_alice : HttpRequest
of_alice = record {
  authorization = none;
  nexus_session = some (crypto.sign 5 900 (access_claims alice));
  now = 6000;
}

abbrev start_server : Endpoint
start_server = power (codes "uu") start

route-Allowed_example :
    ((x : Failure) × (route js list_store list_pages up crypto no_header of_alice start_server panel
        ≡ (err x, panel)))
    ⊎ ((u : User) × IsRequester list_store crypto no_header of_alice panel u
        × Allowed panel u.id u.root_admin start_server)
route-Allowed_example =
    route-Allowed js list_store list_pages up crypto no_header of_alice start_server panel
      (refl, tt)

abbrev to_string : List ℕ → Text
to_string bytes = bytes

abbrev log_file : FileRequest
log_file = read_file (codes "/log")

handle-Sends_example :
    ((has_access (identity alice) server ≡ false)
      × (handle list_store up to_string (identity alice) (codes "uu") log_file panel
          ≡ (err (forbidden "You do not have access to this server"), panel)))
    ⊎ ((has_access (identity alice) server ≡ true)
        × Sends node
            (codes "uu")
            panel
            (handle list_store up to_string (identity alice) (codes "uu") log_file panel).1)
unfolding ◌==◌ load
handle-Sends_example =
    handle-Sends list_store up to_string (identity alice) (codes "uu") log_file panel server node
      (refl, tt) refl refl

-- A login of the first user, and the requests after it.
abbrev signed : Panel
signed = entered alice visit panel

abbrev out : Exchange
out = record {
  http = of_alice;
  refresh_cookie = some (codes "r9");
  https = true;
  production = true;
}

abbrev back : Exchange
back = record {
  http = record { authorization = none; nexus_session = none; now = 7000 };
  refresh_cookie = some (codes "r9");
  https = true;
  production = true;
}

logout-refresh_example :
    (refresh list_store crypto back signed).0
    ≡ ok (
      crypto.sign 7 900 (access_claims alice),
      session_cookie back (crypto.sign 7 900 (access_claims alice)) ∷ [],
    )
unfolding ◌==◌ logout jwt_auth_guard extract_token validate_user
logout-refresh_example =
    logout-refresh list_store crypto no_header alice visit panel signed out back
      (clear_cookie (codes "refreshToken") ∷ clear_cookie (codes "nexus_session") ∷ [])
      (refl, (refl, tt)) (inl refl) refl refl refl refl

-- A schedule of a server that is not the one of the request.
abbrev nightly : Schedule
nightly = record {
  id = codes "h1";
  server_id = codes "s9";
  name = codes "nightly";
  cron_day_of_week = codes "*";
  cron_day_of_month = codes "*";
  cron_month = codes "*";
  cron_hour = codes "4";
  cron_minute = codes "0";
  is_active = true;
  is_processing = false;
  last_run_at = none;
  next_run_at = none;
  created_at = 0;
  updated_at = 0;
}

abbrev scheduled : Panel
scheduled = record panel { schedules = nightly ∷ [] }

abbrev draw : Draw
draw = record { id = codes "h2"; id_of = λ i. i ∷ []; now = 9 }

delete_unscoped_example :
    Controller.handle list_store draw
      (identity alice)
      (codes "uu")
      (Controller.ScheduleRequest.delete (codes "h1"))
      scheduled
    ≡ (
      ok Controller.ScheduleAnswer.no_content,
      record scheduled {
        schedules = select (λ r. not (has_key schedule_id (codes "h1") r)) (nightly ∷ []);
      },
    )
unfolding ◌==◌
delete_unscoped_example =
    delete_unscoped list_store draw (identity alice) (codes "uu") (codes "h1") scheduled server
      nightly (refl, tt) refl refl (refl, tt) refl
