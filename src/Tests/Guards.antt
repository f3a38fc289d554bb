-- ===== src/Tests/Guards.antt =====
-- packages/backend/src/common/guards and packages/backend/src/auth/strategies at work.
use nexus_panel.Common.{◌≡◌, refl, true, false, none, some, Option, [], ◌∷◌, ◌++◌, arith, Has}
use nexus_panel.Common.Texts.{Text, codes, ◌==◌, strip_prefix, cut_at}
use nexus_panel.Database.Entities.{User, Node}
use nexus_panel.Database.Orm.{list_store}
use nexus_panel.Database.Rows.{has_key}
use nexus_panel.Database.Panel.{Panel, ok}
use nexus_panel.Auth.Service.{user_id, two_factor_claims, access_claims, view, login}
use nexus_panel.Auth.ApiKeys
use nexus_panel.Auth.ApiKeys.{CreateApiKeyDto, FreshKey, new_api_key}
use nexus_panel.Auth.ApiKeys.Laws.{create-api_key_guard}
use nexus_panel.Servers.Service.Installs.{installed_by}
use nexus_panel.Servers.Callbacks.{install_status, install_status_lem}
use nexus_panel.Auth.Guards.{
  HttpRequest, identity, extract_token, daemon_token_guard, api_key_guard, jwt_auth_guard,
}
use nexus_panel.Auth.Guards.Laws.{daemon_token_guard_ok, login-jwt_auth_guard}
use nexus_panel.Tests.Data.{alice, bob, node, server, panel}
use nexus_panel.Tests.Tokens.{crypto}
use nexus_panel.Tests.Auth.{visit, password_of_bob}

abbrev pub no_header : Option Text → Option Text
no_header o = none

abbrev pub of_daemon : HttpRequest
of_daemon = record {
  authorization = some (codes "Bearer ti.tok");
  nexus_session = none;
  now = 6000;
}

daemon_token_guard_ok_example :
    Has node panel.nodes
    × (some (codes "Bearer ti.tok")
        ≡ some (codes "Bearer " ++ (node.daemon_token_id ++ 46 ∷ node.daemon_token)))
    × (panel ≡ panel)
unfolding ◌==◌ daemon_token_guard strip_prefix cut_at
daemon_token_guard_ok_example = daemon_token_guard_ok list_store of_daemon panel panel node refl

abbrev of_alice : HttpRequest
of_alice = record {
  authorization = none;
  nexus_session = some (crypto.sign 5 900 (access_claims alice));
  now = 6000;
}

-- The token that `bob` gets for the password alone.
abbrev of_bob : HttpRequest
of_bob = record {
  authorization = none;
  nexus_session = some (crypto.sign 5 300 (two_factor_claims bob));
  now = 60_000;
}

login-jwt_auth_guard_example :
    (u : User) × (u.uses_totp ≡ true)
    × (u.id ≡ codes "u2")
    × (jwt_auth_guard list_store crypto no_header of_bob panel ≡ (ok (identity u), panel))
unfolding ◌==◌ login extract_token
login-jwt_auth_guard_example =
    login-jwt_auth_guard list_store crypto no_header password_of_bob visit panel panel
      (crypto.sign 5 300 (two_factor_claims bob)) (view bob) of_bob (refl, (refl, tt)) refl refl
      (omega arith) (omega arith)

abbrev dto : CreateApiKeyDto
dto = record { memo = none; allowed_ips = none }

abbrev drawn_key : FreshKey
drawn_key = record { id = codes "k2"; hex = codes "0123456789abcdef"; salt = codes "salt"; now = 7 }

abbrev of_new_key : HttpRequest
of_new_key = record {
  authorization = some (codes "Bearer ptlc_0123456789abcdef");
  nexus_session = none;
  now = 8000;
}

create-api_key_guard_example :
    ((ApiKeys.create list_store crypto (codes "u1") dto drawn_key panel).0
      ≡ ok (codes "ptlc_0123456789abcdef"))
    × ((ApiKeys.create list_store crypto (codes "u1") dto drawn_key panel).1
        ≡ record panel { api_keys = new_api_key crypto (codes "u1") dto drawn_key ∷ [] })
    × ((api_key_guard list_store crypto of_new_key
          (ApiKeys.create list_store crypto (codes "u1") dto drawn_key panel).1).0
        ≡ ok (list_store.find_one (has_key user_id (codes "u1")) panel.users))
create-api_key_guard_example =
    create-api_key_guard list_store crypto (codes "u1") dto drawn_key of_new_key panel refl refl
      refl

-- The daemon of another node.
abbrev other_node : Node
other_node = record node { id = codes "n2"; name = codes "two"; daemon_token_id = codes "tj" }

abbrev two_nodes : Panel
two_nodes = record panel { nodes = node ∷ other_node ∷ [] }

abbrev of_other : HttpRequest
of_other = record { authorization = some (codes "Bearer tj.tok"); nexus_session = none; now = 6000 }

install_status_lem_example :
    install_status list_store of_other (codes "uu") (codes "failed") two_nodes
    ≡ (ok tt, record two_nodes { servers = installed_by false server ∷ [] })
unfolding ◌==◌ daemon_token_guard strip_prefix cut_at
install_status_lem_example =
    install_status_lem list_store of_other (codes "uu") (codes "failed") two_nodes other_node server
      refl (refl, tt) refl
