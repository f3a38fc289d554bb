-- ===== src/Schedules/Controller.antt =====
-- packages/backend/src/schedules/schedules.controller.ts, behind its guard of the token.
use nexus_panel.Common.{List, String}
use nexus_panel.Common.Texts.{Text}
use nexus_panel.Database.Orm.{Orm}
use nexus_panel.Database.Panel.{M, ◌>>=◌, ◌>>◌, pure}
use nexus_panel.Auth.Guards.{Identity}
use nexus_panel.Servers.Service.Owned.{get_server_with_access}
use nexus_panel.Schedules.Service
use nexus_panel.Schedules.Service.{CreateScheduleDto, UpdateScheduleDto, FullSchedule, Draw}

pub data ScheduleRequest : Type 0 where
  list : ScheduleRequest
  show : (id : Text) → ScheduleRequest
  create : CreateScheduleDto → ScheduleRequest
  update : (id : Text) → UpdateScheduleDto → ScheduleRequest
  delete : (id : Text) → ScheduleRequest
  execute : (id : Text) → ScheduleRequest

pub data ScheduleAnswer : Type 0 where
  schedules : List FullSchedule → ScheduleAnswer
  schedule : FullSchedule → ScheduleAnswer
  no_content : ScheduleAnswer
  message : String → ScheduleAnswer

module _ (orm : Orm) (draw : Draw) where
  -- What the handlers do once the user has access to the server with this id.
  unfoldable pub serve : ScheduleRequest → (server_id : Text) → M ScheduleAnswer
  serve list server_id = do found ← Service.find_by_server orm server_id; pure (schedules found)
  serve (show id) server_id = do found ← Service.find_by_id orm id; pure (schedule found)
  serve (create dto) server_id = do
    made ← Service.create orm server_id dto draw
    pure (schedule made)
  serve (update id dto) server_id = do
    changed ← Service.update orm id dto draw
    pure (schedule changed)
  serve (delete id) server_id = do Service.delete orm id; pure no_content
  serve (execute id) server_id = do
    answer ← Service.execute_schedule orm draw.now id
    pure (message answer)

  unfoldable pub handle : Identity → (uuid : Text) → ScheduleRequest → M ScheduleAnswer
  handle user uuid request = do
    found ← get_server_with_access orm uuid user
    serve request found.server.id
