-- ===== src/Events/Sse.antt =====
-- packages/backend/src/sse/sse.service.ts: the open connections and what is pushed to them. The data of an
-- event is any type: the service passes it on unread. The ticks of the keep-alive timer are not modelled.
use nexus_panel.Common.{Bool, true, Option, none, some, List, [], ◌∷◌, ◌++◌, if◌then◌else◌, any}
use nexus_panel.Common.Texts.{Text, codes, ◌==◌}
use nexus_panel.Common.Dicts

pub record SseConnection : Type 0 where
  pub user_id : Text
  pub is_admin : Bool

module _ (D : Type 0) where
  pub record SseEvent : Type 0 where
    pub type : Text
    pub data_ : D
    pub target_user_ids : Option (List Text)

  pub record Message : Type 0 where
    pub type : Text
    pub data_ : D

  -- The map of connections, in insertion order, and what has been pushed to each, oldest first.
  pub record SseService : Type 0 where
    pub connections : List (Text × SseConnection)
    pub pushed : List (Text × Message)

abbrev pub admin_only_events : List Text
admin_only_events = codes "node.status" ∷ codes "node.heartbeat" ∷ []

abbrev pub owner_events : List Text
owner_events =
    codes "server.status"
    ∷ codes "server.install.complete"
    ∷ codes "server.install.failed"
    ∷ codes "server.created"
    ∷ codes "server.deleted"
    ∷ codes "server.stats"
    ∷ codes "server.console"
    ∷ []

abbrev pub has : List Text → Text → Bool
has ts t = any (λ s. s == t) ts

-- `event.targetUserIds?.length` is falsy for a missing and for an empty list.
abbrev targets : Option (List Text) → List Text
targets none = []
targets (some ts) = ts

abbrev untargeted : SseConnection → Text → Bool
untargeted conn type =
    if has admin_only_events type
    then conn.is_admin
    else if has owner_events type
    then conn.is_admin
    else true

abbrev among : List Text → SseConnection → Text → Bool
among [] conn type = untargeted conn type
among (t ∷ ts) conn type = has (t ∷ ts) conn.user_id

module _ {D : Type 0} where
  unfoldable pub should_receive : SseConnection → SseEvent D → Bool
  should_receive conn event = among (targets event.target_user_ids) conn event.type

  unfoldable pub add_connection :
      (id user_id : Text) → (is_admin : Bool) → SseService D → SseService D
  add_connection id user_id is_admin s = record s {
    connections = Dicts.insert id (record { user_id = user_id; is_admin = is_admin }) s.connections;
  }

  unfoldable pub remove_connection : Text → SseService D → SseService D
  remove_connection id s = record s { connections = Dicts.erase id s.connections }

  -- The loop over the connections.
  unfoldable pub push_to :
      (SseConnection → Bool) → SseEvent D → List (Text × SseConnection) → List (Text × Message D)
  push_to test event [] = []
  push_to test event ((id, conn) ∷ cs) =
      let rest = push_to test event cs in
      if test conn then (id, record { type = event.type; data_ = event.data_ }) ∷ rest else rest

  unfoldable pub emit : SseEvent D → SseService D → SseService D
  emit event s = record s {
    pushed = s.pushed ++ push_to (λ conn. should_receive conn event) event s.connections;
  }

  unfoldable pub emit_to_user : Text → SseEvent D → SseService D → SseService D
  emit_to_user user event s = record s {
    pushed = s.pushed ++ push_to (λ conn. conn.user_id == user) event s.connections;
  }
