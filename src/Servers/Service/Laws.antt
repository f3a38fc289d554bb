-- ===== src/Servers/Service/Laws.antt =====
-- What the service's lookups find and what its calls of the daemon leave behind, the daemon's answer
-- ignored or not.
use mathlib.Core.Option
use nexus_panel.Common.{◌≡◌, refl, ap, ◌∙◌, Option, none, some, List, ◌∷◌, if◌then◌else◌}
use nexus_panel.Common.Texts.{Text, ◌==◌}
use nexus_panel.Database.Entities.{Server, Node}
use nexus_panel.Database.Orm.{Orm}
use nexus_panel.Database.Rows.{has_key, row, Distinct, find_one-row, row-patch}
use nexus_panel.Database.Panel.{Panel, Result, ok, err, rescue, ◌>>=◌, pure}
use nexus_panel.Wings.Protocol.{Request, NodeGrpcClient, GrpcCall, Network}
use nexus_panel.Wings.Client.{send}
use nexus_panel.Wings.Client.Laws.{called, call_for, send_lem}
use nexus_panel.Servers.Service.{
  server_id, server_uuid, find_by_id, find_by_uuid, load, ignore, need,
}

told_clients : Option Node → Request → Panel → List (Text × NodeGrpcClient)
told_clients none r p = p.clients
told_clients (some n) r p = (called n r p).clients

told_calls : Option Node → Request → Panel → List GrpcCall
told_calls none r p = p.calls
told_calls (some n) r p = call_for n r p ∷ p.calls

-- The panel after a request to a node that may be missing.
unfoldable pub told : Option Node → Request → Panel → Panel
unfolding told_clients told_calls
told o r p = record p { clients = told_clients o r p; calls = told_calls o r p }

pub told-some : (n : Node) (r : Request) (p : Panel) → told (some n) r p ≡ called n r p
unfolding told called
told-some n r p = refl

module _ (net : Network) where
  rescued : (r : Result (Unit {0})) (q : Panel) → rescue (r, q) (λ _. pure tt) ≡ (ok tt, q)
  rescued (ok tt) q = refl
  rescued (err e) q = refl

  -- With its failure ignored, a request to the node of a server leaves the told panel.
  pub ignore_lem :
      (o : Option Node) (r : Request) (p : Panel)
      → ignore (need o >>= (λ n. send net n r)) p ≡ (ok tt, told o r p)
  unfolding told called
  ignore_lem none r p = refl
  ignore_lem (some n) r p = rw (send_lem net n r p) (rescued _ (called n r p))

module _ (orm : Orm) where
  pub find_by_id_lem :
      (id : Text) (p : Panel) (s : Server)
      → Distinct server_id p.servers
      → row server_id id p.servers ≡ some s
      → find_by_id orm id p ≡ (ok (load orm p s), p)
  unfolding find_by_id
  find_by_id_lem id p s d e = rw (find_one-row server_id orm id p.servers d ∙ e)

  pub find_by_uuid_lem :
      (uuid : Text) (p : Panel) (s : Server)
      → Distinct server_uuid p.servers
      → row server_uuid uuid p.servers ≡ some s
      → find_by_uuid orm uuid p ≡ (ok (load orm p s), p)
  unfolding find_by_uuid
  find_by_uuid_lem uuid p s d e = rw (find_one-row server_uuid orm uuid p.servers d ∙ e)

  -- The rows after `serverRepo.update` by id.
  pub row-update :
      (j k : Text) (f : Server → Server) (t : List Server)
      → ((s : Server) → (f s).id ≡ s.id)
      → row server_id k (orm.update (has_key server_id j) f t)
        ≡ (if j == k then Option.map f (row server_id k t) else row server_id k t)
  row-update j k f t keeps =
      ap (row server_id k) (orm.update_lem (has_key server_id j) f t)
      ∙ row-patch server_id f keeps j k t
