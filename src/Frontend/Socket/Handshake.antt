-- ===== src/Frontend/Socket/Handshake.antt =====
-- packages/frontend/src/hooks/useServerWebSocket.ts against packages/backend/src/websocket/websocket.gateway.ts:
-- what the gateway makes of the first messages of the page of a server.
use nexus_panel.Common.{ℕ, ◌/◌, ◌≡◌, refl, true, Option, none, some, List, [], ◌∷◌}
use nexus_panel.Common.Texts.{Text}
use nexus_panel.Database.Orm.{Orm}
use nexus_panel.Database.Panel.{Panel}
use nexus_panel.Wings.Protocol.{Network}
use nexus_panel.Auth.Crypto.{Crypto}
use nexus_panel.Auth.Service.{present}
use nexus_panel.Websocket.Gateway
use nexus_panel.Websocket.Gateway.{
  ClientMessage, AuthenticatedSocket, State, emit, handle_disconnect, handle_auth,
  handle_connection, joined, known_by, receive,
}
use nexus_panel.Frontend.Socket.{connect, onto_sent, step, initial}

-- What the hook has emitted, in order, as it arrives at a time.
abbrev stamp : ℕ → List ClientMessage → List (ℕ × ClientMessage)
stamp now [] = []
stamp now (m ∷ ms) = (now, m) ∷ stamp now ms

abbrev pub arrivals : ℕ → List ClientMessage → List (ℕ × ClientMessage)
arrivals now sent = stamp now (onto_sent sent [])

module _ (crypto : Crypto) where
  joined-connected :
      (server : Option Text) (s : AuthenticatedSocket)
      → s.connected ≡ true
      → (joined crypto server s).connected ≡ true
  joined-connected none s h = h
  joined-connected (some uuid) s h = h

  known_by-connected :
      (now : ℕ) (cookie server : Option Text) (s : AuthenticatedSocket)
      → s.connected ≡ true
      → (known_by crypto now cookie server s).connected ≡ true
  known_by-connected now none server s h = h
  known_by-connected now (some t) server s h =
      elim (crypto.verify (now / 1000) t)
        as (λ o.
          let after : AuthenticatedSocket = elim o [
            | none ↦ s
            | some payload ↦
                joined crypto (present server) (record s { user_id = some payload.sub })
          ] in
          after.connected ≡ true) [
            | none ↦ h
            | some payload ↦
                joined-connected (present server) (record s { user_id = some payload.sub }) h
          ]

  handle_connection-connected :
      (now : ℕ) (session_cookie server_query : Option Text)
      → (handle_connection crypto now session_cookie server_query).connected ≡ true
  unfolding handle_connection
  handle_connection-connected now session_cookie server_query =
      known_by-connected now (present session_cookie) server_query _ refl

module _ (crypto : Crypto) (orm : Orm) (net : Network) (now : ℕ) (p : Panel) where
  rejected :
      (uuid : Text) (s : AuthenticatedSocket)
      → s.connected ≡ true
      → crypto.verify (now / 1000) [] ≡ none
      → receive crypto orm net now (ClientMessage.auth [] uuid) (s, p)
        ≡ (handle_disconnect (emit (Gateway.ServerMessage.error "Authentication failed") s), p)
  unfolding receive handle_auth handle_disconnect
  rejected uuid s c h = rw (c, receive) (rw (h, handle_auth) refl)

  unheard :
      (m : ClientMessage) (s : AuthenticatedSocket)
      → receive crypto orm net now m (handle_disconnect s, p) ≡ (handle_disconnect s, p)
  unfolding receive handle_disconnect
  unheard m s = refl

-- While the browser has no access token stored, and no signature makes the empty text a token, the gateway
-- throws the page of a server out, whatever its cookie had let it join: the message `auth` that the
-- page emits on each connection ends it, and the subscriptions after it are not read.
pub connect-run :
    (crypto : Crypto) (orm : Orm) (net : Network) (now : ℕ) (uuid : Text)
    (session_cookie : Option Text) (p : Panel)
    → crypto.verify (now / 1000) [] ≡ none
    → let s = handle_connection crypto now session_cookie (some uuid) in
      Gateway.run crypto orm net (arrivals now (step none uuid connect initial).sent) (s, p)
      ≡ (handle_disconnect (emit (Gateway.ServerMessage.error "Authentication failed") s), p)
unfolding Gateway.run step
connect-run crypto orm net now uuid session_cookie p h =
    let s = handle_connection crypto now session_cookie (some uuid) in
    let out = emit (Gateway.ServerMessage.error "Authentication failed") s in
    rw
      (rejected crypto orm net now p uuid s
        (handle_connection-connected crypto now session_cookie (some uuid)) h)
      (rw (unheard crypto orm net now p ClientMessage.subscribe_console out)
        (unheard crypto orm net now p ClientMessage.subscribe_stats out))
