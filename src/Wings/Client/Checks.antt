-- ===== src/Wings/Client/Checks.antt =====
-- The health check of a node, the credentials of a cached client, and the numbers of the power
-- actions.
use nexus_panel.Common.{◌≡◌, ◌≢◌, refl, Bool, true, false, ◌||◌, some, ◌∷◌, arith}
use nexus_panel.Common.Texts.{codes, ◌==◌, ==_refl}
use nexus_panel.Common.Dicts
use nexus_panel.Database.Entities.{Node}
use nexus_panel.Database.Panel.{Panel, ok, rescue, after, pure, gets}
use nexus_panel.Wings.Protocol.{
  other_action, PowerAction, Request, NodeGrpcClient, GrpcCall, Reply, answered, failed, Network,
}
use nexus_panel.Wings.Client.{
  grpc_address, bearer, build_http_url, map_power_action, settle, request, check_availability,
}
use nexus_panel.Wings.Client.Laws.{called, call_for, request_lem}

abbrev pub answers : Reply → Bool
answers (answered t) = true
answers (failed m) = false

abbrev is_known : PowerAction → Bool
is_known (other_action action) = false
is_known _ = true

module _ (net : Network) where
  health_or :
      (r : Reply) (node : Node) (q : Panel)
      → rescue {A = Bool}
          (after (settle r, q) (λ _. pure true))
          (λ _. gets (λ p. net.health p.calls (build_http_url node (codes "/health"))))
        ≡ (ok (answers r || net.health q.calls (build_http_url node (codes "/health"))), q)
  health_or (answered t) node q = refl
  health_or (failed m) node q = refl

  -- The check of a node never throws: it says whether the daemon answers over gRPC or, if not, whether
  -- the HTTP health check passes. It changes the client cache and the log of calls, which it
  -- extends by the one gRPC call, and nothing else.
  pub check_availability_lem :
      (node : Node) (p : Panel)
      → check_availability net node p ≡ (
        ok (
            answers (net.reply p.calls (call_for node Request.get_system_info p))
            || net.health
                (called node Request.get_system_info p).calls
                (build_http_url node (codes "/health"))),
        called node Request.get_system_info p,
      )
  unfolding check_availability
  check_availability_lem node p =
      rw (request_lem net node Request.get_system_info p, check_availability)
        (health_or (net.reply p.calls (call_for node Request.get_system_info p)) node
          (called node Request.get_system_info p))

  -- As long as the address of the node stays the same, the next call goes out through the cached
  -- client, with the credentials it was made with, also after the scheme of the node has changed.
  request-stale_scheme :
      (node : Node) (message : Request) (p : Panel) (c : NodeGrpcClient)
      → Dicts.lookup node.id p.clients ≡ some c
      → c.address ≡ grpc_address node
      → c.secure ≢ (node.scheme == codes "https")
      → (call : GrpcCall) × ((request net node message p).1.calls ≡ call ∷ p.calls)
        × (call.request ≡ message)
        × (call.authorization ≡ bearer node)
        × (call.client.secure ≢ (node.scheme == codes "https"))
  unfolding called
  request-stale_scheme node message p c found same differs = (
    record { client = c; authorization = bearer node; request = message },
    rw (request_lem net node message p) (rw (found, same) (rw (==_refl (grpc_address node)))),
    refl,
    refl,
    differs,
  )

-- Each power action of the enumeration has a number of its own.
map_power_action-injective :
    (a b : PowerAction)
    → is_known a ≡ true
    → is_known b ≡ true
    → map_power_action a ≡ map_power_action b
    → a ≡ b
unfolding map_power_action
map_power_action-injective a b j k h = ground arith
