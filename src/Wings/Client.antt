-- ===== src/Wings/Client.antt =====
-- packages/backend/src/wings/wings.service.ts: the gRPC client cache, the calls and the HTTP fallback
-- of the health check. grpc-js and fetch are the parameter `net`.
pub mod Laws
pub mod Checks
use nexus_panel.Common.{
  ℕ, ◌+◌, ◌≡◌, refl, Bool, true, false, Option, none, some, List, [], ◌∷◌, ◌++◌, if◌then◌else◌,
}
use nexus_panel.Common.Texts.{Text, codes, ◌==◌}
use nexus_panel.Common.Dicts
use mathlib.Core.Option.{get_or}
use nexus_panel.Database.Entities.{Node}
use nexus_panel.Database.Panel.{
  Panel, Failure, Result, ok, err, wings_error, M, after, rescue, ◌>>=◌, ◌>>◌, pure, throw, gets,
  modify, catch,
}
use nexus_panel.Wings.Protocol.{
  PowerAction, start, stop, restart, kill, other_action, WingsServerConfig, Request,
  send_power_action, NodeGrpcClient, GrpcCall, Reply, answered, failed, Network, decimal,
}

-- The port and the address that `getClient` computes.
abbrev pub grpc_port : Node → ℕ
grpc_port node = if node.behind_proxy then node.daemon_port else node.daemon_port + 1

abbrev pub grpc_address : Node → Text
grpc_address node = node.fqdn ++ b':' ∷ decimal (grpc_port node)

abbrev pub fresh_client : Node → NodeGrpcClient
fresh_client node = record { address = grpc_address node; secure = node.scheme == codes "https" }

remember_client : Node → M NodeGrpcClient
remember_client node p =
    let c = fresh_client node in (ok c, record p { clients = Dicts.insert node.id c p.clients })

-- The cached client serves as long as its address is the node's.
unfoldable pub cached_or_new : Node → Option NodeGrpcClient → M NodeGrpcClient
unfolding remember_client
cached_or_new node none p = remember_client node p
cached_or_new node (some c) p =
    if c.address == grpc_address node then (ok c, p) else remember_client node p

unfoldable pub get_client : Node → M NodeGrpcClient
unfolding cached_or_new
get_client node p = cached_or_new node (Dicts.lookup node.id p.clients) p

-- The bearer token of a node, in gRPC metadata and in HTTP headers.
abbrev pub bearer : Node → Text
bearer node = codes "Bearer " ++ (node.daemon_token_id ++ b'.' ∷ node.daemon_token)

abbrev pub build_http_url : Node → Text → Text
build_http_url node path =
    node.scheme
    ++ (codes "://" ++ (node.fqdn ++ (b':' ∷ (decimal node.daemon_port ++ (codes "/api" ++ path)))))

unfoldable pub map_power_action : PowerAction → ℕ
map_power_action start = 0
map_power_action stop = 1
map_power_action restart = 2
map_power_action kill = 3
map_power_action (other_action action) = 0

abbrev pub settle : Reply → Result Text
settle (answered t) = ok t
settle (failed message) = err (wings_error message)

-- `callGrpc` rejects with a Wings error when the daemon, or the network, reports one.
module _ (net : Network) where
  unfoldable pub call_grpc : NodeGrpcClient → Text → Request → M Text
  call_grpc c metadata request p =
      let call : GrpcCall = record { client = c; authorization = metadata; request = request } in
      (settle (net.reply p.calls call), record p { calls = call ∷ p.calls })

  -- The body that the methods of the service share: the client, the metadata, the call.
  unfoldable pub request : Node → Request → M Text
  unfolding call_grpc get_client
  request node message = do c ← get_client node; call_grpc c (bearer node) message

  -- The same where the answer is dropped.
  unfoldable pub send : Node → Request → M (Unit {0})
  unfolding request
  send node message = do _ ← request node message; pure tt

  unfoldable pub create_server : Node → WingsServerConfig → Option Text → Option Text → M (Unit {0})
  create_server node config script image =
      send node (Request.create_server config (get_or script []) (get_or image []))

  unfoldable pub delete_server : Node → Text → M (Unit {0})
  delete_server node uuid = send node (Request.delete_server uuid false)

  unfoldable pub power_action : Node → Text → PowerAction → M (Unit {0})
  power_action node uuid action = send node (send_power_action uuid (map_power_action action))

  unfoldable pub send_command : Node → Text → Text → M (Unit {0})
  send_command node uuid command = send node (Request.send_command uuid command)

  unfoldable pub update_resources : Node → Text → ℕ → ℕ → ℕ → M (Unit {0})
  update_resources node uuid memory cpu disk =
      send node (Request.update_resources uuid memory cpu disk)

  unfoldable pub get_server_status : Node → Text → M Text
  get_server_status node uuid = request node (Request.get_server_status uuid)

  unfoldable pub get_system_info : Node → M Text
  get_system_info node = request node Request.get_system_info

  unfoldable pub sync_server_config : Node → WingsServerConfig → M (Unit {0})
  sync_server_config node config = send node (Request.sync_server_config config)

  unfoldable pub install_server : Node → WingsServerConfig → Text → Text → M (Unit {0})
  install_server node config script image = send node (Request.reinstall_server config script image)

  unfoldable pub reinstall_server : Node → WingsServerConfig → Text → Text → M (Unit {0})
  reinstall_server node config script image = install_server node config script image

  -- gRPC first, then the health check over HTTP.
  unfoldable pub check_availability : Node → M Bool
  unfolding request
  check_availability node =
      catch (request node Request.get_system_info >> pure true)
        (λ _. gets (λ p. net.health p.calls (build_http_url node (codes "/health"))))
