-- ===== src/Schedules/Laws.antt =====
-- packages/backend/src/schedules/schedules.service.ts: an update, and a run.
use nexus_panel.Common.{
  ◌≡◌, inl, inr, refl, ◌∙◌, true, false, not, ◌&&◌, Option, none, some, List, [], ◌∷◌, any, select,
  patch, arith, Option-cases, ℕ, String,
}
use nexus_panel.Common.Texts.{Text, eq_comm}
use nexus_panel.Database.Entities.{Schedule, ScheduleTask, schedule_clash, schedule_task_clash}
use nexus_panel.Database.Orm.{Orm}
use nexus_panel.Database.Inserts.{insert_rows_lem, AllNew, onto}
use nexus_panel.Database.Rows.{has_key, row, Distinct, find_one-row}
use nexus_panel.Database.Panel.{Panel, Result, ok, err, not_found}
use nexus_panel.Auth.Guards.{Identity}
use nexus_panel.Servers.Service.{server_uuid, load}
use nexus_panel.Servers.Service.Owned.{has_access, get_server_with_access_lem}
use nexus_panel.Database.Entities.{Server}
use nexus_panel.Schedules.Service
use nexus_panel.Schedules.Service.{
  FullSchedule, ScheduleTaskDto, UpdateScheduleDto, Draw, schedule_id, of_schedule, assign,
  new_tasks, find_by_id, save_schedule, insert_tasks, execute_schedule,
}
use nexus_panel.Schedules.Controller.{delete, ScheduleAnswer, handle, serve}

own_id :
    (c : Schedule) (id : Text) (t : List Schedule)
    → c.id ≡ id
    → any (λ r. not (has_key schedule_id id r) && schedule_clash c r) t ≡ false
own_id c id [] h = refl
own_id c id (x ∷ xs) h = ground (arith, own_id c id xs h, eq_comm c.id x.id)

module _ (orm : Orm) where
  save_schedule_lem :
      (c : Schedule) (p : Panel)
      → save_schedule orm c p
        ≡ (ok tt, record p { schedules = patch (has_key schedule_id c.id) (λ _. c) p.schedules })
  unfolding save_schedule
  save_schedule_lem c p =
      rw (orm.save_lem schedule_clash (has_key schedule_id c.id) c p.schedules)
        (rw (own_id c c.id p.schedules refl) refl)

  insert_tasks_lem :
      (rows : List ScheduleTask) (p : Panel)
      → AllNew orm schedule_task_clash rows p.schedule_tasks
      → insert_tasks orm rows p
        ≡ (ok tt, record p { schedule_tasks = onto orm schedule_task_clash rows p.schedule_tasks })
  unfolding insert_tasks
  insert_tasks_lem rows p new =
      rw (insert_rows_lem orm schedule_task_clash rows p.schedule_tasks new) refl

  -- How an execution ends, by the row of the schedule.
  abbrev pub executed : ℕ → Panel → Option Schedule → Result String × Panel
  executed now p none = (err (not_found "Schedule not found"), p)
  executed now p (some s) = (
    ok "execution triggered",
    record p {
      schedules =
          patch (has_key schedule_id s.id) (λ _. record s { last_run_at = some now }) p.schedules;
    },
  )

  -- With distinct ids of schedules, an execution of a schedule that is not stored is refused and changes
  -- nothing; of one that is stored, it writes the time of the run to the row and changes nothing
  -- else: no command, power action or backup of its tasks leaves for a daemon.
  pub execute_schedule_lem :
      (now : ℕ) (id : Text) (p : Panel)
      → Distinct schedule_id p.schedules
      → execute_schedule orm now id p ≡ executed now p (row schedule_id id p.schedules)
  unfolding execute_schedule find_by_id
  execute_schedule_lem now id p d = elim (Option-cases (row schedule_id id p.schedules)) [
    | inl e ↦ rw (e) (rw (find_one-row schedule_id orm id p.schedules d ∙ e) refl)
    | inr (s, e) ↦ rw (e) (
        rw (find_one-row schedule_id orm id p.schedules d ∙ e, execute_schedule)
          (rw (save_schedule_lem (record s { last_run_at = some now }) p) refl))
  ]

  module _ (draw : Draw) where
    -- Whoever has access to one stored server can delete every schedule, also of the servers of others: the
    -- handler removes the stored row with the id, wherever it belongs.
    pub delete_unscoped :
        (user : Identity) (uuid id : Text) (p : Panel) (own : Server) (s : Schedule)
        → Distinct server_uuid p.servers
        → row server_uuid uuid p.servers ≡ some own
        → has_access user own ≡ true
        → Distinct schedule_id p.schedules
        → row schedule_id id p.schedules ≡ some s
        → handle orm draw user uuid (delete id) p ≡ (
          ok ScheduleAnswer.no_content,
          record p { schedules = select (λ r. not (has_key schedule_id s.id r)) p.schedules },
        )
    unfolding handle serve Service.delete find_by_id load
    delete_unscoped user uuid id p own s d r h ds rs =
        rw (get_server_with_access_lem orm uuid user p own d r h, handle)
          (rw (find_one-row schedule_id orm id p.schedules ds ∙ rs, handle)
            (rw (orm.remove_lem (has_key schedule_id s.id) p.schedules) refl))
