-- ===== src/Wings/Client/Laws.antt =====
-- What a call of the Wings service does: which client it takes, what it logs, what it leaves alone.
use nexus_panel.Common.{
  ◌≡◌, sym, ◌∙◌, inl, inr, refl, Option, none, some, List, ◌∷◌, arith, if◌then◌else◌, Bool-cases,
}
use nexus_panel.Common.Texts.{Text, ◌==◌, eq_iff, ==_refl}
use nexus_panel.Common.Dicts
use nexus_panel.Common.Dicts.{lookup-insert}
use nexus_panel.Database.Entities.{Node}
use nexus_panel.Database.Panel.{Panel, Result, ok, err, ok_inj, pure, after}
use nexus_panel.Wings.Protocol.{Request, NodeGrpcClient, GrpcCall, Network}
use nexus_panel.Wings.Client.{
  grpc_address, fresh_client, get_client, cached_or_new, bearer, settle, request, send,
}

abbrev use_cached : Node → Option NodeGrpcClient → NodeGrpcClient
use_cached node none = fresh_client node
use_cached node (some c) = if c.address == grpc_address node then c else fresh_client node

-- The client that a call for the node uses.
abbrev pub client_for : Node → Panel → NodeGrpcClient
client_for node p = use_cached node (Dicts.lookup node.id p.clients)

abbrev pub call_for : Node → Request → Panel → GrpcCall
call_for node message p = record {
  client = client_for node p;
  authorization = bearer node;
  request = message;
}

unfoldable pub keep_client :
    Node → Option NodeGrpcClient → List (Text × NodeGrpcClient) → List (Text × NodeGrpcClient)
keep_client node none m = Dicts.insert node.id (fresh_client node) m
keep_client node (some c) m =
    if c.address == grpc_address node then m else Dicts.insert node.id (fresh_client node) m

-- The panel after a call: the client cache and the log, and nothing else, have changed.
unfoldable pub called : Node → Request → Panel → Panel
called node message p = record p {
  clients = keep_client node (Dicts.lookup node.id p.clients) p.clients;
  calls = call_for node message p ∷ p.calls;
}

cached_or_new_lem :
    (node : Node) (o : Option NodeGrpcClient) (p : Panel)
    → cached_or_new node o p
      ≡ (ok (use_cached node o), record p { clients = keep_client node o p.clients })
unfolding cached_or_new keep_client
cached_or_new_lem node none p = refl
cached_or_new_lem node (some c) p = elim (Bool-cases (c.address == grpc_address node)) [
  | inl e ↦ rw e
  | inr e ↦ rw e
]

get_client_lem :
    (node : Node) (p : Panel)
    → get_client node p ≡ (
      ok (client_for node p),
      record p { clients = keep_client node (Dicts.lookup node.id p.clients) p.clients },
    )
unfolding get_client
get_client_lem node p = cached_or_new_lem node (Dicts.lookup node.id p.clients) p

use_cached-address :
    (node : Node) (o : Option NodeGrpcClient) → (use_cached node o).address ≡ grpc_address node
use_cached-address node none = refl
use_cached-address node (some c) = ground (arith, eq_iff c.address (grpc_address node))

abbrev pub same_text : Result Text → Result (Unit {0})
same_text (ok t) = ok tt
same_text (err e) = err e

lookup-keep_client :
    (node : Node) (o : Option NodeGrpcClient) (m : List (Text × NodeGrpcClient))
    → Dicts.lookup node.id m ≡ o
    → Dicts.lookup node.id (keep_client node o m) ≡ some (use_cached node o)
unfolding keep_client
lookup-keep_client node none m e =
    ground (arith, lookup-insert node.id node.id (fresh_client node) m, ==_refl node.id)
lookup-keep_client node (some c) m e =
    ground (arith, lookup-insert node.id node.id (fresh_client node) m, ==_refl node.id)

get_client_again :
    (node : Node) (p : Panel)
    → let q = record p { clients = keep_client node (Dicts.lookup node.id p.clients) p.clients } in
      get_client node q ≡ (ok (client_for node p), q)
unfolding get_client cached_or_new
get_client_again node p =
    rw
      (
        lookup-keep_client node (Dicts.lookup node.id p.clients) p.clients refl,
        get_client,
        cached_or_new,
      )
      (rw (use_cached-address node (Dicts.lookup node.id p.clients), cached_or_new)
        (rw (==_refl (grpc_address node), cached_or_new)))

drop_answer :
    (r : Result Text) (q : Panel) → after {B = Unit {0}} (r, q) (λ _. pure tt) ≡ (same_text r, q)
drop_answer (ok t) q = refl
drop_answer (err e) q = refl

-- A call to a node goes to the node's present address, whatever the cache holds; the client that it
-- used is the one that the cache holds for the node afterwards, so that an equal call reuses it.
get_client_address :
    (node : Node) (p q : Panel) (c : NodeGrpcClient)
    → get_client node p ≡ (ok c, q)
    → (c.address ≡ grpc_address node)
      × (Dicts.lookup node.id q.clients ≡ some c)
      × (get_client node q ≡ (ok c, q))
get_client_address node p q c e =
    let (hc, hq) = ok_inj (sym (get_client_lem node p) ∙ e) in
    rw (← hc, ← hq)
      (
        use_cached-address node (Dicts.lookup node.id p.clients),
        lookup-keep_client node (Dicts.lookup node.id p.clients) p.clients refl,
        get_client_again node p,
      )

module _ (net : Network) where
  pub request_lem :
      (node : Node) (message : Request) (p : Panel)
      → request net node message p
        ≡ (settle (net.reply p.calls (call_for node message p)), called node message p)
  unfolding request called
  request_lem node message p = rw (get_client_lem node p, request)

  pub send_lem :
      (node : Node) (message : Request) (p : Panel)
      → send net node message p
        ≡ (same_text (settle (net.reply p.calls (call_for node message p))), called node message p)
  unfolding send
  send_lem node message p =
      rw (request_lem node message p, send)
        (drop_answer (settle (net.reply p.calls (call_for node message p))) (called node message p))
