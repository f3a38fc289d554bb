-- ===== src/Servers/Create/Approve.antt =====
-- What `create` has checked when it stores a server, and what its checks leave alone.
use nexus_panel.Common.{
  ℕ, ◌≡◌, sym, ap, ◌∙◌, inl, inr, Bool, true, false, ◌||◌, some, List, [], Option-cases, arith,
}
use nexus_panel.Common.Texts.{Text, codes, eq_iff}
use nexus_panel.Common.Js.{Js}
use nexus_panel.Database.Entities.{Server, Node, Egg, Allocation, User}
use nexus_panel.Database.Orm.{Orm}
use nexus_panel.Database.Rows.{has_key}
use nexus_panel.Database.Panel.{Panel, ok_inj, internal, ok, or_throw}
use nexus_panel.Database.Requests.{bind_ok, then_ok, or_throw_ok}
use nexus_panel.Nodes.HeartbeatStore.{is_online}
use nexus_panel.Validator.Variables.{validate_server_variables}
use nexus_panel.Wings.Protocol.{Request, Network}
use nexus_panel.Wings.Client.{build_http_url}
use nexus_panel.Wings.Client.Laws.{called, call_for}
use nexus_panel.Wings.Client.Checks.{answers, check_availability_lem}
use nexus_panel.Servers.Service.{node_id, egg_id, user_id, allocation_id}
use nexus_panel.Servers.Create.{
  CreateServerDto, Fresh, on_node, of_egg, is_assigned, or_default, merge_variables, new_server,
  exceeds, substitute, check_node, check_egg, check_allocation, check_user, check_capacity,
  resolve_variables, approve,
}

-- The daemon answers over gRPC, or its health check passes.
abbrev pub is_available : Network → Node → Panel → Bool
is_available net node p =
    answers (net.reply p.calls (call_for node Request.get_system_info p))
    || net.health (called node Request.get_system_info p).calls
        (build_http_url node (codes "/health"))

module _ (orm : Orm) where
  check_node_ok :
      (net : Network) (now : ℕ) (dto : CreateServerDto) (p : Panel) {node : Node} {q : Panel}
      → check_node orm net now dto p ≡ (ok node, q)
      → (orm.find_one (has_key node_id dto.node_id) p.nodes ≡ some node)
        × (is_online now node.id p.heartbeats ≡ true)
        × (is_available net node p ≡ true)
        × (q ≡ called node Request.get_system_info p)
  unfolding check_node
  check_node_ok net now dto p h =
      elim (Option-cases (orm.find_one (has_key node_id dto.node_id) p.nodes)) [
        | inl e ↦ absurd (ground arith)
        | inr (n, e) ↦ ground (arith, check_availability_lem net n p)
      ]

  check_egg_ok :
      (dto : CreateServerDto) (p : Panel) {egg : Egg} {q : Panel}
      → check_egg orm dto p ≡ (ok egg, q)
      → (orm.find_one (has_key egg_id dto.egg_id) p.eggs ≡ some egg) × (p ≡ q)
  unfolding check_egg
  check_egg_ok dto p h = ground arith

  check_allocation_ok :
      (dto : CreateServerDto) (p : Panel) {q : Panel}
      → check_allocation orm dto p ≡ (ok tt, q)
      → (a : Allocation) × (orm.find_one (has_key allocation_id dto.allocation_id) p.allocations
          ≡ some a)
        × (a.node_id ≡ dto.node_id)
        × (is_assigned a ≡ false)
        × (p ≡ q)
  unfolding check_allocation
  check_allocation_ok dto p h =
      elim (Option-cases (orm.find_one (has_key allocation_id dto.allocation_id) p.allocations)) [
        | inl e ↦ absurd (ground arith)
        | inr (a, e) ↦
            (a, e, ground (arith, eq_iff a.node_id dto.node_id), ground arith, ground arith)
      ]

  check_user_ok :
      (dto : CreateServerDto) (p : Panel) {q : Panel}
      → check_user orm dto p ≡ (ok tt, q)
      → (u : User) × (orm.find_one (has_key user_id dto.user_id) p.users ≡ some u) × (p ≡ q)
  unfolding check_user
  check_user_ok dto p h = elim (Option-cases (orm.find_one (has_key user_id dto.user_id) p.users)) [
    | inl e ↦ absurd (ground arith)
    | inr (u, e) ↦ (u, e, ground arith)
  ]

module _ (js : Js) (orm : Orm) where
  check_capacity_ok :
      (node : Node) (dto : CreateServerDto) (p : Panel) {q : Panel}
      → check_capacity js orm node dto p ≡ (ok tt, q)
      → (exceeds js
            (orm.sum (on_node dto.node_id) (λ s. s.memory) p.servers)
            dto.memory
            node.memory
            node.memory_overallocate
          ≡ false)
        × (exceeds js
              (orm.sum (on_node dto.node_id) (λ s. s.disk) p.servers)
              dto.disk
              node.disk
              node.disk_overallocate
            ≡ false)
        × (p ≡ q)
  unfolding check_capacity
  check_capacity_ok node dto p h = ground arith

  resolve_variables_ok :
      (dto : CreateServerDto) (p : Panel) {env : List (Text × Text)} {q : Panel}
      → resolve_variables js orm dto p ≡ (ok env, q)
      → (env ≡ merge_variables dto.env_variables [] (orm.find (of_egg dto.egg_id) p.egg_variables))
        × ((validate_server_variables js env (orm.find (of_egg dto.egg_id) p.egg_variables)).valid
            ≡ true)
        × (p ≡ q)
  unfolding resolve_variables
  resolve_variables_ok dto p h = ground arith

  -- What stands when a request to create a server is let through: the rows that it names are stored, the
  -- node is online and reachable, the allocation is on the node and free, memory and disk of the new
  -- server fit the node with what is allocated on it, and the variables pass their rules.
  pub record Approved (net : Network) (now : ℕ) (fresh : Fresh) (dto : CreateServerDto) (p : Panel)
      (s : Server) : Type 0 where
    pub node : Node
    pub egg : Egg
    pub allocation : Allocation
    pub user : User
    pub startup : Text
    pub env : List (Text × Text)
    pub node_found : orm.find_one (has_key node_id dto.node_id) p.nodes ≡ some node
    pub online : is_online now node.id p.heartbeats ≡ true
    pub reachable : is_available net node p ≡ true
    pub egg_found : orm.find_one (has_key egg_id dto.egg_id) p.eggs ≡ some egg
    pub allocation_found :
        orm.find_one (has_key allocation_id dto.allocation_id) p.allocations ≡ some allocation
    pub on_that_node : allocation.node_id ≡ dto.node_id
    pub free : is_assigned allocation ≡ false
    pub user_found : orm.find_one (has_key user_id dto.user_id) p.users ≡ some user
    pub memory_fits :
        exceeds js
          (orm.sum (on_node dto.node_id) (λ r. r.memory) p.servers)
          dto.memory
          node.memory
          node.memory_overallocate
        ≡ false
    pub disk_fits :
        exceeds js
          (orm.sum (on_node dto.node_id) (λ r. r.disk) p.servers)
          dto.disk
          node.disk
          node.disk_overallocate
        ≡ false
    pub merged :
        env ≡ merge_variables dto.env_variables [] (orm.find (of_egg dto.egg_id) p.egg_variables)
    pub variables_pass :
        (validate_server_variables js env (orm.find (of_egg dto.egg_id) p.egg_variables)).valid
        ≡ true
    pub substituted : substitute js egg.startup env ≡ some startup
    pub built : s ≡ new_server dto fresh startup (or_default dto.image egg.docker_image) env

  pub approve_ok :
      (net : Network) (now : ℕ) (fresh : Fresh) (dto : CreateServerDto) (p : Panel) {s : Server}
      {q : Panel}
      → approve js orm net now fresh dto p ≡ (ok s, q)
      → (a : Approved net now fresh dto p s) × (q ≡ called a.node Request.get_system_info p)
  unfolding approve called
  approve_ok net now fresh dto p h =
      let (node, p1, h1, k1) = bind_ok (check_node orm net now dto) _ p h in
      let (node_found, online, reachable, e1) = check_node_ok orm net now dto p h1 in
      let (egg, p2, h2, k2) = bind_ok (check_egg orm dto) _ p1 k1 in
      let (egg_found, e2) = check_egg_ok orm dto p1 h2 in
      let (u3, p3, h3, k3) = then_ok (check_allocation orm dto) _ p2 k2 in
      let (allocation, allocation_found, on_that_node, free, e3) =
        check_allocation_ok orm dto p2 h3 in
      let (u4, p4, h4, k4) = then_ok (check_user orm dto) _ p3 k3 in
      let (user, user_found, e4) = check_user_ok orm dto p3 h4 in
      let (u5, p5, h5, k5) = then_ok (check_capacity js orm node dto) _ p4 k4 in
      let (memory_fits, disk_fits, e5) = check_capacity_ok node dto p4 h5 in
      let (env, p6, h6, k6) = bind_ok (resolve_variables js orm dto) _ p5 k5 in
      let (merged, variables_pass, e6) = resolve_variables_ok dto p5 h6 in
      let (startup, p7, h7, k7) =
        bind_ok (or_throw internal (substitute js egg.startup env)) _ p6 k6 in
      let (substituted, e7) = or_throw_ok internal (substitute js egg.startup env) p6 h7 in
      let to1 : called node Request.get_system_info p ≡ p1 = sym e1 in
      let to2 = to1 ∙ e2 in
      let to3 = to2 ∙ e3 in
      let to4 = to3 ∙ e4 in
      let to5 = to4 ∙ e5 in
      let to6 = to5 ∙ e6 in
      let done = ok_inj k7 in
      (
        record {
          node = node;
          egg = egg;
          allocation = allocation;
          user = user;
          startup = startup;
          env = env;
          node_found = node_found;
          online = online;
          reachable = reachable;
          egg_found =
              ap (λ (x : Panel). orm.find_one (has_key egg_id dto.egg_id) x.eggs) to1 ∙ egg_found;
          allocation_found =
              ap
                (λ (x : Panel).
                  orm.find_one (has_key allocation_id dto.allocation_id) x.allocations)
                to2
              ∙ allocation_found;
          on_that_node = on_that_node;
          free = free;
          user_found =
              ap (λ (x : Panel). orm.find_one (has_key user_id dto.user_id) x.users) to3
              ∙ user_found;
          memory_fits = rw (← to4) at memory_fits;
          disk_fits = rw (← to4) at disk_fits;
          merged =
              merged
              ∙ ap
                  (λ (x : Panel).
                    merge_variables dto.env_variables []
                      (orm.find (of_egg dto.egg_id) x.egg_variables))
                  (sym to5);
          variables_pass = rw (← to5) at variables_pass;
          substituted = substituted;
          built = sym done.0;
        },
        sym (to6 ∙ e7 ∙ done.1),
      )
