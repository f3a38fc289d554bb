-- ===== src/Events/Delivery.antt =====
-- Who is told of what, and what the caches hold.
use nexus_panel.Common.{
  ◌≡◌, refl, sym, ap, ◌∙◌, ◌⊎◌, inl, inr, Bool, true, none, some, List, [], ◌∷◌, if◌then◌else◌,
  arith, Has, Has-append, ◌↔◌, Bool-cases,
}
use nexus_panel.Common.Texts.{Text, codes, ◌==◌, ==_refl}
use nexus_panel.Common.Dicts
use nexus_panel.Common.Dicts.{lookup-insert, lookup-erase}
use nexus_panel.Database.Orm.{Orm}
use nexus_panel.Events.Sse.{
  SseConnection, SseEvent, Message, SseService, should_receive, push_to, emit, remove_connection,
}
use nexus_panel.Events.Handlers.{
  EventData, EventHandlers, DaemonEvent, state_changed, installed, install_failed_with, stats,
  console, status_data, install_complete_data, install_failed_data, stats_data, console_data,
  event_of, handle, handle_state_changed, handle_install_complete, handle_install_failed,
  handle_stats, handle_console, get_server_state, clear_server_cache,
}

erased :
    (id : Text) (c : SseConnection) (cs : List (Text × SseConnection))
    → ¬ Has (id, c) (Dicts.erase id cs)
erased id c [] h = h
erased id c ((j, x) ∷ cs) h = elim (Bool-cases (j == id)) [
  | inl e ↦ erased id c cs (rw e at h)
  | inr e ↦ elim (rw e at h) [
    | inl q ↦
        let same : id ≡ j = ap (λ (z : Text × SseConnection). z.0) q in
        absurd (ground (arith, same, ==_refl id))
    | inr k ↦ erased id c cs k
  ]
]

module _ {D : Type 0} where
  abbrev pub message_of : SseEvent D → Message D
  message_of event = record { type = event.type; data_ = event.data_ }

  -- The connection under the id passes the test, and the message is that of the event.
  abbrev Reached :
      (SseConnection → Bool) → SseEvent D → List (Text × SseConnection) → Text → Message D → Type 0
  Reached test event cs id m =
      (c : SseConnection) × Has (id, c) cs × (test c ≡ true) × (m ≡ message_of event)

  push_to_sound :
      (test : SseConnection → Bool) (event : SseEvent D) (cs : List (Text × SseConnection))
      (id : Text) (m : Message D)
      → Has (id, m) (push_to test event cs)
      → Reached test event cs id m
  unfolding push_to
  push_to_sound test event [] id m h = absurd h
  push_to_sound test event ((j, x) ∷ cs) id m h = elim (Bool-cases (test x)) [
    | inl e ↦ elim (rw e at h) [
      | inl q ↦ (
        x,
        inl (ap (λ i. (i, x)) (ap (λ (z : Text × Message D). z.0) q)),
        e,
        ap (λ (z : Text × Message D). z.1) q,
      )
      | inr k ↦ let (c, n, t, q) = push_to_sound test event cs id m k in (c, inr n, t, q)
    ]
    | inr e ↦ let (c, n, t, q) = push_to_sound test event cs id m (rw e at h) in (c, inr n, t, q)
  ]

  push_to_complete :
      (test : SseConnection → Bool) (event : SseEvent D) (cs : List (Text × SseConnection))
      (id : Text) (c : SseConnection)
      → Has (id, c) cs
      → test c ≡ true
      → Has (id, message_of event) (push_to test event cs)
  unfolding push_to
  push_to_complete test event [] id c h t = absurd h
  push_to_complete test event ((j, x) ∷ cs) id c (inl q) t =
      let same : c ≡ x = ap (λ (z : Text × SseConnection). z.1) q in
      let hit : test x ≡ true = rw same at t in
      rw hit (inl (ap (λ i. (i, message_of event)) (ap (λ (z : Text × SseConnection). z.0) q)))
  push_to_complete test event ((j, x) ∷ cs) id c (inr k) t = elim (Bool-cases (test x)) [
    | inl e ↦ rw e (inr (push_to_complete test event cs id c k t))
    | inr e ↦ rw e (push_to_complete test event cs id c k t)
  ]

  -- An event reaches the connections that should receive it, each with the data of the event, and no
  -- other; nothing that was pushed before is lost.
  pub emit_iff :
      (event : SseEvent D) (s : SseService D) (id : Text) (m : Message D)
      → Has (id, m) (emit event s).pushed
        ↔ (Has (id, m) s.pushed ⊎ Reached (λ c. should_receive c event) event s.connections id m)
  unfolding emit
  emit_iff event s id m =
      let sent = push_to (λ c. should_receive c event) event s.connections in
      (
        (λ h. elim ((Has-append (id, m) s.pushed sent).0 h) [
          | inl k ↦ inl k
          | inr k ↦ inr (push_to_sound (λ c. should_receive c event) event s.connections id m k)
        ]),
        (λ h. elim h [
          | inl k ↦ (Has-append (id, m) s.pushed sent).1 (inl k)
          | inr (c, n, t, q) ↦ (Has-append (id, m) s.pushed sent).1 (
              inr (
                rw q (push_to_complete (λ x. should_receive x event) event s.connections id c n t)))
        ]),
      )

  -- Once a connection is removed, no event is pushed to it.
  pub remove_connection-emit :
      (event : SseEvent D) (s : SseService D) (id : Text) (m : Message D)
      → Has (id, m) (emit event (remove_connection id s)).pushed
      → Has (id, m) s.pushed
  unfolding remove_connection
  remove_connection-emit event s id m h =
      elim ((emit_iff event (remove_connection id s) id m).0 h) [
        | inl k ↦ k
        | inr (c, n, t, q) ↦ absurd (erased id c s.connections n)
      ]

-- What each daemon event tells its listeners.
abbrev pub told_by : {N : Type 0} → DaemonEvent N → SseEvent (EventData N)
told_by (state_changed uuid previous new) =
    event_of (codes "server.status") (status_data uuid new previous)
told_by (installed uuid) = event_of (codes "server.install.complete") (install_complete_data uuid)
told_by (install_failed_with uuid message) =
    event_of (codes "server.install.failed") (install_failed_data uuid message)
told_by (stats e) = event_of (codes "server.stats") (
    stats_data e.uuid e.cpu_percent e.memory_bytes e.memory_limit e.network_rx_bytes
      e.network_tx_bytes e.disk_bytes)
told_by (console uuid line) = event_of (codes "server.console") (console_data uuid line)

module _ {N : Type 0} (orm : Orm) where
  handle_emits :
      (d : DaemonEvent N) (h : EventHandlers N) → (handle orm d h).sse ≡ emit (told_by d) h.sse
  unfolding handle handle_state_changed handle_install_complete handle_install_failed handle_stats
      handle_console
  handle_emits (state_changed uuid previous new) h = refl
  handle_emits (installed uuid) h = refl
  handle_emits (install_failed_with uuid message) h = refl
  handle_emits (stats e) h = refl
  handle_emits (console uuid line) h = refl

  for_admins : (d : DaemonEvent N) (c : SseConnection) → should_receive c (told_by d) ≡ c.is_admin
  unfolding should_receive ◌==◌
  for_admins (state_changed uuid previous new) c = refl
  for_admins (installed uuid) c = refl
  for_admins (install_failed_with uuid message) c = refl
  for_admins (stats e) c = refl
  for_admins (console uuid line) c = refl

  -- What a daemon reports of a server is pushed to the connections of administrators, and to no other
  -- connection: the owner of the server is not told.
  pub handle_iff :
      (d : DaemonEvent N) (h : EventHandlers N) (id : Text) (m : Message (EventData N))
      → Has (id, m) (handle orm d h).sse.pushed ↔ (
          Has (id, m) h.sse.pushed
          ⊎ ((c : SseConnection) × Has (id, c) h.sse.connections
              × (c.is_admin ≡ true)
              × (m ≡ message_of (told_by d))))
  handle_iff d h id m = rw (handle_emits d h) (
    (λ k. elim ((emit_iff (told_by d) h.sse id m).0 k) [
      | inl j ↦ inl j
      | inr (c, n, t, q) ↦ inr (c, n, sym (for_admins d c) ∙ t, q)
    ]),
    (λ k. elim k [
      | inl j ↦ (emit_iff (told_by d) h.sse id m).1 (inl j)
      | inr (c, n, t, q) ↦ (emit_iff (told_by d) h.sse id m).1 (inr (c, n, for_admins d c ∙ t, q))
    ]),
  )

-- The state of a server is the last that its daemon reported, for as long as the cache is not cleared;
-- reports of other servers do not touch it.
pub handle_state_changed-get_server_state :
    {N : Type 0} (uuid other previous new : Text) (h : EventHandlers N)
    → (get_server_state other (handle_state_changed uuid previous new h)
        ≡ (if uuid == other then some new else get_server_state other h))
      × (get_server_state other (clear_server_cache uuid h)
          ≡ (if uuid == other then none else get_server_state other h))
unfolding get_server_state handle_state_changed clear_server_cache
handle_state_changed-get_server_state uuid other previous new h =
    (lookup-insert uuid other new h.server_states, lookup-erase uuid other h.server_states)
