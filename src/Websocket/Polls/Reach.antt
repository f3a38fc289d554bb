-- ===== src/Websocket/Polls/Reach.antt =====
-- packages/backend/src/websocket/websocket.gateway.ts: whom a round of polling tells, and how often it asks.
use nexus_panel.Common.{
  suc, ◌+◌, ◌≤◌, ◌≡◌, refl, ◌∙◌, inl, inr, Bool, true, false, Option, none, some, List, [], ◌∷◌,
  length, length-append, Has, arith, Bool-cases, Option-cases,
}
use nexus_panel.Common.Texts.{Text, includes}
use nexus_panel.Database.Orm.{Orm}
use nexus_panel.Database.Panel.{Panel, Result, ok, err}
use nexus_panel.Database.Rows.{has_key}
use nexus_panel.Wings.Protocol.{Network, Request}
use nexus_panel.Wings
use nexus_panel.Wings.Client.Laws.{request_lem, called}
use nexus_panel.Auth.Service.{present}
use nexus_panel.Servers.Service.{find_by_uuid, load, server_uuid}
use nexus_panel.Websocket.Gateway.{Subscriptions}
use nexus_panel.Websocket.Polls.{
  ServerStatus, RoomMessage, Client, in_room, tell_room, has_subscribed, add, add_if, stats_update,
  power_state, subscribed_from, subscribed, wants_stats, wants_console, tell_state, tell_stats,
  tell_console, ask, round, poll_stats, poll_console,
}

length-add : (uuid : Text) (uuids : List Text) → length (add uuid uuids) ≤ suc (length uuids)
length-add uuid uuids = elim (Bool-cases (includes uuids uuid)) [
  | inl e ↦ rw (e) (omega arith)
  | inr e ↦ rw (e) (omega (arith, length-append uuids (uuid ∷ [])))
]

length-add_if :
    (b : Bool) (o : Option Text) (uuids : List Text)
    → length (add_if b o uuids) ≤ suc (length uuids)
length-add_if false o uuids = omega arith
length-add_if true none uuids = omega arith
length-add_if true (some uuid) uuids = length-add uuid uuids

length-subscribed_from :
    (test : Subscriptions → Bool) (clients : List Client) (uuids : List Text)
    → length (subscribed_from test clients uuids) ≤ length uuids + length clients
unfolding subscribed_from
length-subscribed_from test [] uuids = omega arith
length-subscribed_from test (c ∷ clients) uuids =
    let next = add_if (has_subscribed test c.socket) (present c.socket.server_uuid) uuids in
    omega (
      arith,
      length-subscribed_from test clients next,
      length-add_if (has_subscribed test c.socket) (present c.socket.server_uuid) uuids,
    )

tell_room-Has :
    (uuid : Text) (m : RoomMessage) (c : Client) (clients : List Client)
    → in_room uuid c ≡ false
    → Has c clients
    → Has c (tell_room uuid m clients)
tell_room-Has uuid m c [] h k = k
tell_room-Has uuid m c (x ∷ xs) h (inl e) =
    let out : in_room uuid x ≡ false = rw (← e) h in inl (rw (out) e)
tell_room-Has uuid m c (x ∷ xs) h (inr k) = inr (tell_room-Has uuid m c xs h k)

tell_state-Has :
    (uuid : Text) (o : Option Text) (c : Client) (clients : List Client)
    → in_room uuid c ≡ false
    → Has c clients
    → Has c (tell_state uuid o clients)
tell_state-Has uuid none c clients h k = k
tell_state-Has uuid (some s) c clients h k = tell_room-Has uuid (power_state s) c clients h k

module _ (read_status : Text → ServerStatus) where
  tell_stats-Has :
      (uuid : Text) (r : Result Text) (c : Client) (clients : List Client)
      → in_room uuid c ≡ false
      → Has c clients
      → Has c (tell_stats read_status uuid r clients)
  tell_stats-Has uuid (err e) c clients h k = k
  tell_stats-Has uuid (ok t) c clients h k =
      tell_state-Has uuid (read_status t).state c _ h
        (tell_room-Has uuid (stats_update (read_status t)) c clients h k)

  module _ (orm : Orm) (net : Network) where
    length-ask :
        (uuid : Text) (p : Panel)
        → length (ask read_status orm net uuid p).1.calls ≤ suc (length p.calls)
    unfolding ask find_by_uuid load Wings.Client.get_server_status called
    length-ask uuid p = elim (Option-cases (orm.find_one (has_key server_uuid uuid) p.servers)) [
      | inl e ↦ rw (e) (omega arith)
      | inr (s, e) ↦ elim (Option-cases (load orm p s).node) [
        | inl f ↦ rw (e) (rw (f) (omega arith))
        | inr (n, f) ↦
            rw (e)
              (rw (f) (rw (request_lem net n (Request.get_server_status uuid) p) (omega arith)))
      ]
    ]

    length-round :
        (tell : Text → Result Text → List Client → List Client) (uuids : List Text)
        (clients : List Client) (p : Panel)
        → length (round read_status orm net tell uuids (clients, p)).1.calls
          ≤ length p.calls + length uuids
    unfolding round
    length-round tell [] clients p = omega arith
    length-round tell (uuid ∷ uuids) clients p =
        let a = ask read_status orm net uuid p in
        omega (arith, length-round tell uuids (tell uuid a.0 clients) a.1, length-ask uuid p)

    round-Has :
        (uuids : List Text) (c : Client) (clients : List Client) (p : Panel)
        → ((uuid : Text) → Has uuid uuids → in_room uuid c ≡ false)
        → Has c clients
        → Has c (round read_status orm net (tell_stats read_status) uuids (clients, p)).0
    unfolding round
    round-Has [] c clients p h k = k
    round-Has (uuid ∷ uuids) c clients p h k =
        round-Has uuids c _ _ (λ u m. h u (inr m))
          (tell_stats-Has uuid (ask read_status orm net uuid p).0 c clients (h uuid (inl refl)) k)

    tell_console-same :
        (uuid : Text) (r : Result Text) (clients : List Client)
        → tell_console read_status uuid r clients ≡ clients
    tell_console-same uuid (ok t) clients = refl
    tell_console-same uuid (err e) clients = refl

    round-console :
        (uuids : List Text) (clients : List Client) (p : Panel)
        → (round read_status orm net (tell_console read_status) uuids (clients, p)).0 ≡ clients
    unfolding round
    round-console [] clients p = refl
    round-console (uuid ∷ uuids) clients p =
        round-console uuids
          (tell_console read_status uuid (ask read_status orm net uuid p).0 clients)
          (ask read_status orm net uuid p).1
        ∙ tell_console-same uuid (ask read_status orm net uuid p).0 clients

    -- A round of statistics makes at most one call for each socket, however many of them watch one server, and
    -- leaves a socket as it was that is in the room of no server that a socket has subscribed to. A round
    -- of the console makes at most as many calls, and tells no socket anything.
    pub polls_lem :
        (clients : List Client) (p : Panel) (c : Client)
        → Has c clients
        → ((uuid : Text) → Has uuid (subscribed wants_stats clients) → in_room uuid c ≡ false)
        → (length (poll_stats read_status orm net (clients, p)).1.calls
            ≤ length p.calls + length clients)
          × Has c (poll_stats read_status orm net (clients, p)).0
          × (length (poll_console read_status orm net (clients, p)).1.calls
              ≤ length p.calls + length clients)
          × ((poll_console read_status orm net (clients, p)).0 ≡ clients)
    polls_lem clients p c k h = (
      omega (
        arith,
        length-round (tell_stats read_status) (subscribed wants_stats clients) clients p,
        length-subscribed_from wants_stats clients [],
      ),
      round-Has (subscribed wants_stats clients) c clients p h k,
      omega (
        arith,
        length-round (tell_console read_status) (subscribed wants_console clients) clients p,
        length-subscribed_from wants_console clients [],
      ),
      round-console (subscribed wants_console clients) clients p,
    )
