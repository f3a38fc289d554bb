-- ===== src/Schedules/Service.antt =====
-- packages/backend/src/schedules/schedules.service.ts. The ids of new tasks are drawn from `id_of`, by their
-- place. The cron columns are text that nothing here reads.
use nexus_panel.Common.{ℕ, suc, Bool, false, Option, none, some, List, [], ◌∷◌, String}
use mathlib.Core.Option.{get_or}
use nexus_panel.Common.Texts.{Text, ◌==◌}
use nexus_panel.Database.Entities.{
  Schedule, ScheduleTask, ScheduleTaskAction, schedule_clash, schedule_task_clash,
}
use nexus_panel.Database.Orm.{Orm}
use nexus_panel.Database.Inserts.{insert_rows}
use nexus_panel.Database.Rows.{has_key}
use nexus_panel.Database.Panel.{
  Panel, not_found, internal, M, ◌>>=◌, ◌>>◌, pure, gets, modify, or_throw,
}

pub record ScheduleTaskDto : Type 0 where
  pub sequence : ℕ
  pub action : ScheduleTaskAction
  pub payload : Text
  pub time_offset : Option ℕ

pub record CreateScheduleDto : Type 0 where
  pub name : Text
  pub cron_minute : Text
  pub cron_hour : Text
  pub cron_day_of_month : Text
  pub cron_month : Text
  pub cron_day_of_week : Text
  pub is_active : Bool
  pub tasks : List ScheduleTaskDto

pub record UpdateScheduleDto : Type 0 where
  pub name : Option Text
  pub cron_minute : Option Text
  pub cron_hour : Option Text
  pub cron_day_of_month : Option Text
  pub cron_month : Option Text
  pub cron_day_of_week : Option Text
  pub is_active : Option Bool
  pub tasks : Option (List ScheduleTaskDto)

pub record Draw : Type 0 where
  pub id : Text
  pub id_of : ℕ → Text
  pub now : ℕ

-- A schedule with its tasks.
pub record FullSchedule : Type 0 where
  pub schedule : Schedule
  pub tasks : List ScheduleTask

abbrev pub schedule_id : Schedule → Text
schedule_id s = s.id

abbrev pub of_server : Text → Schedule → Bool
of_server id s = s.server_id == id

abbrev pub of_schedule : Text → ScheduleTask → Bool
of_schedule id t = t.schedule_id == id

abbrev pub new_task : (schedule : Text) → ScheduleTaskDto → (id : Text) → ℕ → ScheduleTask
new_task schedule t id now = record {
  id = id;
  schedule_id = schedule;
  action = t.action;
  sequence = t.sequence;
  payload = t.payload;
  time_offset = get_or t.time_offset 0;
  created_at = now;
  updated_at = now;
}

abbrev pub new_tasks : (schedule : Text) → Draw → ℕ → List ScheduleTaskDto → List ScheduleTask
new_tasks schedule draw i [] = []
new_tasks schedule draw i (t ∷ ts) =
    new_task schedule t (draw.id_of i) draw.now ∷ new_tasks schedule draw (suc i) ts

abbrev pub new_schedule : (server : Text) → CreateScheduleDto → Draw → Schedule
new_schedule server dto draw = record {
  id = draw.id;
  server_id = server;
  name = dto.name;
  cron_day_of_week = dto.cron_day_of_week;
  cron_day_of_month = dto.cron_day_of_month;
  cron_month = dto.cron_month;
  cron_hour = dto.cron_hour;
  cron_minute = dto.cron_minute;
  is_active = dto.is_active;
  is_processing = false;
  last_run_at = none;
  next_run_at = none;
  created_at = draw.now;
  updated_at = draw.now;
}

abbrev pub assign : Schedule → UpdateScheduleDto → Schedule
assign s dto = record s {
  name = get_or dto.name s.name;
  cron_minute = get_or dto.cron_minute s.cron_minute;
  cron_hour = get_or dto.cron_hour s.cron_hour;
  cron_day_of_month = get_or dto.cron_day_of_month s.cron_day_of_month;
  cron_month = get_or dto.cron_month s.cron_month;
  cron_day_of_week = get_or dto.cron_day_of_week s.cron_day_of_week;
  is_active = get_or dto.is_active s.is_active;
}

module _ (orm : Orm) where
  abbrev pub with_tasks : Panel → List Schedule → List FullSchedule
  with_tasks p [] = []
  with_tasks p (s ∷ ss) =
      (record { schedule = s; tasks = orm.find (of_schedule s.id) p.schedule_tasks })
      ∷ with_tasks p ss

  -- The order by the time of creation is not in the model: `find` returns the rows in any order.
  unfoldable pub find_by_server : Text → M (List FullSchedule)
  find_by_server server = gets (λ p. with_tasks p (orm.find (of_server server) p.schedules))

  unfoldable pub find_by_id : Text → M FullSchedule
  find_by_id id = do
    found ← gets (λ p. orm.find_one (has_key schedule_id id) p.schedules)
    schedule ← or_throw (not_found "Schedule not found") found
    tasks ← gets (λ p. orm.find (of_schedule schedule.id) p.schedule_tasks)
    pure (record { schedule = schedule; tasks = tasks })

  unfoldable pub insert_tasks : List ScheduleTask → M (Unit {0})
  insert_tasks rows = do
    stored ← gets (λ p. insert_rows orm schedule_task_clash rows p.schedule_tasks)
    tasks ← or_throw internal stored
    modify (λ p. record p { schedule_tasks = tasks })

  -- `scheduleRepo.save` of a row that is stored.
  unfoldable pub save_schedule : Schedule → M (Unit {0})
  save_schedule changed = do
    stored ←
        gets (λ p. orm.save schedule_clash (has_key schedule_id changed.id) changed p.schedules)
    schedules ← or_throw internal stored
    modify (λ p. record p { schedules = schedules })

  unfoldable pub create : (server : Text) → CreateScheduleDto → Draw → M FullSchedule
  create server dto draw = do
    let schedule = new_schedule server dto draw
    stored ← gets (λ p. orm.insert schedule_clash schedule p.schedules)
    schedules ← or_throw internal stored
    modify (λ p. record p { schedules = schedules })
    let rows = new_tasks schedule.id draw 0 dto.tasks
    insert_tasks rows
    pure (record { schedule = schedule; tasks = rows })

  -- Where tasks are given, the old ones are deleted before the schedule is saved with the new ones.
  unfoldable pub update : Text → UpdateScheduleDto → Draw → M FullSchedule
  update id dto draw = do
    found ← find_by_id id
    let changed = assign found.schedule dto
    elim dto.tasks [
      | none ↦ (do save_schedule changed; pure (record { schedule = changed; tasks = found.tasks }))
      | some ts ↦ (do
        modify (λ p. record p { schedule_tasks = orm.remove (of_schedule id) p.schedule_tasks })
        save_schedule changed
        let rows = new_tasks id draw 0 ts
        insert_tasks rows
        pure (record { schedule = changed; tasks = rows }))
    ]

  unfoldable pub delete : Text → M (Unit {0})
  delete id = do
    found ← find_by_id id
    modify (λ p. record p {
      schedules = orm.remove (has_key schedule_id found.schedule.id) p.schedules;
    })

  -- `executeSchedule`: it writes the time of the run, and runs no task.
  unfoldable pub execute_schedule : ℕ → Text → M String
  execute_schedule now id = do
    found ← find_by_id id
    save_schedule (record found.schedule { last_run_at = some now })
    pure "execution triggered"
