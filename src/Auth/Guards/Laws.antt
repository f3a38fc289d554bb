-- ===== src/Auth/Guards/Laws.antt =====
-- packages/backend/src/common/guards: what a request that is let in has shown.
use nexus_panel.Common.{
  ℕ, ◌+◌, ◌≤◌, ◌/◌, ◌≡◌, refl, ap, ◌∙◌, ◌⊎◌, inl, inr, true, false, ◌&&◌, Option, none, some, List,
  [], ◌∷◌, ◌++◌, arith, Option-cases, Bool-cases, any-Has, Has, nat_eq,
}
use nexus_panel.Common.Texts.{
  Text, codes, ◌==◌, ==_refl, eq_iff, strip_prefix_sound, strip_prefix-append, cut_at,
}
use nexus_panel.Database.Entities.{User, Node, ApiKey}
use nexus_panel.Database.Orm.{Orm}
use nexus_panel.Database.Rows.{has_key, row-Has, Distinct}
use nexus_panel.Database.Panel.{
  Failure, unauthorized, Panel, internal, Result, ok, err, after, rescue, ok_inj, ◌>>=◌, pure,
  throw,
}
use nexus_panel.Database.Requests.{bind_ok}
use nexus_panel.Auth.Crypto.{Crypto, Claims}
use nexus_panel.Auth.Service.{
  Visit, LoginDto, UserView, requires_two_factor, user_id, user_email, two_factor_claims,
  validate_user, login,
}
use nexus_panel.Auth.Login.{login_ok, sign_in-requires_two_factor}
use nexus_panel.Auth.Guards.{
  HttpRequest, Identity, identity, bearer_token, is_api_key, node_token_id, any_token,
  daemon_token_guard, api_key_guard, extract_token, jwt_auth_guard, combined_auth_guard,
}
use nexus_panel.Auth.ApiKeys.{take, key_start, find_by_key_start, update_last_used}

cut_at_sound : (c : ℕ) (s a b : Text) → cut_at c s ≡ some (a, b) → s ≡ a ++ c ∷ b
unfolding cut_at
cut_at_sound c [] a b h = cc
cut_at_sound c (d ∷ s) a b h = elim (Bool-cases (nat_eq d c)) [
  | inl e ↦ ground arith
  | inr e ↦ elim (Option-cases (cut_at c s)) [
    | inl f ↦ absurd (ground arith)
    | inr ((x, y), f) ↦ ground (arith, cut_at_sound c s x y f)
  ]
]

bearer_is : (o : Option Text) (t : Text) → bearer_token o ≡ some t → o ≡ some (codes "Bearer " ++ t)
bearer_is none t h = cc
bearer_is (some s) t h = ap some (strip_prefix_sound (codes "Bearer ") s t h)

pub valid_user :
    (orm : Orm) (u : User) (t : List User)
    → Distinct user_id t
    → Has u t
    → u.enabled ≡ true
    → orm.find_one (λ x. x.id == u.id && x.enabled) t ≡ some u
valid_user orm u t d m e = elim (Option-cases (orm.find_one (λ x. x.id == u.id && x.enabled) t)) [
  | inl f ↦ absurd (
      ground (
        arith,
        orm.find_one_none (λ x. x.id == u.id && x.enabled) t f,
        any-Has (λ x. x.id == u.id && x.enabled) t m,
        ==_refl u.id,
      ))
  | inr (y, f) ↦
      let (hit, stored) = orm.find_one_some (λ x. x.id == u.id && x.enabled) t y f in
      f
      ∙ ground (
        arith,
        row-Has user_id u.id t y d stored (ground (arith, eq_iff y.id u.id)),
        row-Has user_id u.id t u d m refl,
      )
]

module _ (orm : Orm) where
  -- A daemon is let in as a node only with the token of that node, after its token id and a dot.
  pub daemon_token_guard_ok :
      (request : HttpRequest) (p q : Panel) (n : Node)
      → daemon_token_guard orm request p ≡ (ok n, q)
      → Has n p.nodes
        × (request.authorization
            ≡ some (codes "Bearer " ++ (n.daemon_token_id ++ 46 ∷ n.daemon_token)))
        × (p ≡ q)
  unfolding daemon_token_guard
  daemon_token_guard_ok request p q n h = elim (Option-cases (bearer_token request.authorization)) [
    | inl e ↦ absurd (ground arith)
    | inr (t, e) ↦ elim (Option-cases (cut_at 46 t)) [
      | inl f ↦ absurd (ground arith)
      | inr ((a, b), f) ↦ elim (Option-cases (orm.find_one (has_key node_token_id a) p.nodes)) [
        | inl g ↦ absurd (ground arith)
        | inr (x, g) ↦
            let (hit, stored) = orm.find_one_some (has_key node_token_id a) p.nodes x g in
            let id : x.daemon_token_id ≡ a = (eq_iff x.daemon_token_id a).0 hit in
            let token : b ≡ x.daemon_token = ground (arith, eq_iff b x.daemon_token) in
            let same : x ≡ n = ground arith in
            rw (← same) (
              stored,
              bearer_is request.authorization t e
                  ∙ ap (λ r. some (codes "Bearer " ++ r))
                      (cut_at_sound 46 t a b f ∙ rw id (rw token refl)),
              ground arith,
            )
      ]
    ]
  ]

  module _ (crypto : Crypto) where
    -- An API key lets its owner in when its start is stored and its hash matches. Nothing else is asked:
    -- neither whether the owner is enabled, nor where the request comes from.
    pub api_key_guard_lem :
        (request : HttpRequest) (token : Text) (p : Panel) (key : ApiKey)
        → request.authorization ≡ some (codes "Bearer " ++ (codes "ptlc_" ++ token))
        → orm.find_one (has_key key_start (take 16 (codes "ptlc_" ++ token))) p.api_keys ≡ some key
        → crypto.compare (codes "ptlc_" ++ token) key.token ≡ true
        → (api_key_guard orm crypto request p).0
          ≡ ok (orm.find_one (has_key user_id key.user_id) p.users)
    unfolding api_key_guard find_by_key_start update_last_used
    api_key_guard_lem request token p key a k c =
        rw (a, api_key_guard)
          (rw (strip_prefix-append (codes "Bearer ") (codes "ptlc_" ++ token), api_key_guard)
            (rw (strip_prefix-append (codes "ptlc_") token, api_key_guard)
              (rw (k, api_key_guard) (rw c))))

    module _ (from_auth_header : Option Text → Option Text) where
      -- The guard of the token changes nothing.
      pub jwt_auth_guard-cases :
          (request : HttpRequest) (p : Panel)
          → ((x : Failure) × (jwt_auth_guard orm crypto from_auth_header request p ≡ (err x, p)))
            ⊎ ((i : Identity) × (jwt_auth_guard orm crypto from_auth_header request p ≡ (ok i, p)))
      unfolding jwt_auth_guard validate_user
      jwt_auth_guard-cases request p =
          elim (Option-cases (extract_token orm crypto from_auth_header request)) [
            | inl e ↦ inl (unauthorized "Unauthorized", rw (e))
            | inr (t, e) ↦ elim (Option-cases (crypto.verify (request.now / 1000) t)) [
              | inl f ↦ inl (unauthorized "Unauthorized", rw (e, jwt_auth_guard) (rw (f)))
              | inr (c, f) ↦
                  elim (Option-cases (orm.find_one (λ u. u.id == c.sub && u.enabled) p.users)) [
                    | inl g ↦ inl (
                      unauthorized "Unauthorized",
                      rw (e, jwt_auth_guard) (rw (f, jwt_auth_guard) (rw g)),
                    )
                    | inr (u, g) ↦
                        inr (identity u, rw (e, jwt_auth_guard) (rw (f, jwt_auth_guard) (rw g)))
                  ]
            ]
          ]

      -- A request that is let in by its token is the request of a user that is enabled.
      pub jwt_auth_guard_ok :
          (request : HttpRequest) (p q : Panel) (i : Identity)
          → jwt_auth_guard orm crypto from_auth_header request p ≡ (ok i, q)
          → (t : Text) × (c : Claims) × (u : User) × (extract_token orm crypto from_auth_header
                request
              ≡ some t)
            × (crypto.verify (request.now / 1000) t ≡ some c)
            × Has u p.users
            × (u.id ≡ c.sub)
            × (u.enabled ≡ true)
            × (i ≡ identity u)
            × (p ≡ q)
      unfolding jwt_auth_guard validate_user
      jwt_auth_guard_ok request p q i h =
          elim (Option-cases (extract_token orm crypto from_auth_header request)) [
            | inl e ↦ absurd (ground arith)
            | inr (t, e) ↦ elim (Option-cases (crypto.verify (request.now / 1000) t)) [
              | inl f ↦ absurd (ground arith)
              | inr (c, f) ↦
                  elim (Option-cases (orm.find_one (λ u. u.id == c.sub && u.enabled) p.users)) [
                    | inl g ↦ absurd (ground arith)
                    | inr (u, g) ↦
                        let (hit, stored) =
                          orm.find_one_some (λ u. u.id == c.sub && u.enabled) p.users u g in
                        (
                          t,
                          c,
                          u,
                          e,
                          f,
                          stored,
                          ground (arith, eq_iff u.id c.sub),
                          ground arith,
                          ground arith,
                          ground arith,
                        )
                  ]
            ]
          ]

      -- The request bears a token, not expired, whose subject is this stored, enabled user.
      abbrev pub IsRequester : HttpRequest → Panel → User → Type 0
      IsRequester request p u =
          (t : Text) × (c : Claims) × (extract_token orm crypto from_auth_header request ≡ some t)
          × (crypto.verify (request.now / 1000) t ≡ some c)
          × (u.id ≡ c.sub)
          × Has u p.users
          × (u.enabled ≡ true)

      pub jwt_auth_guard-IsRequester :
          (request : HttpRequest) (p q : Panel) (i : Identity)
          → jwt_auth_guard orm crypto from_auth_header request p ≡ (ok i, q)
          → (u : User) × IsRequester request p u × (i ≡ identity u)
      jwt_auth_guard-IsRequester request p q i h =
          let (t, c, u, token, verified, stored, subject, live, same, _) =
            jwt_auth_guard_ok request p q i h in
          (u, (t, c, token, verified, subject, stored, live), same)

      settled :
          (request : HttpRequest) (p q : Panel) (i : Option Identity) (r : Result Identity × Panel)
          → rescue
              (after r (λ u. pure (some u)))
              (λ _. do _ ← api_key_guard orm crypto request; throw internal)
            ≡ (ok i, q)
          → (j : Identity) × (i ≡ some j) × (r ≡ (ok j, q))
      settled request p q i (ok j, z) h = (j, cc, cc)
      settled request p q i (err e, z) h =
          let (u, x, g, k) = bind_ok (api_key_guard orm crypto request) (λ _. throw internal) z h in
          cc

      -- The combined guard lets a request in by its API key when it bears one, else by its token, and in no
      -- other way.
      pub combined_auth_guard_ok :
          (request : HttpRequest) (p q : Panel) (i : Option Identity)
          → combined_auth_guard orm crypto from_auth_header request p ≡ (ok i, q)
          → (any_token is_api_key (bearer_token request.authorization) ≡ true)
              × ((u : Option User) × (api_key_guard orm crypto request p ≡ (ok u, q)))
            ⊎ (any_token is_api_key (bearer_token request.authorization) ≡ false)
              × ((j : Identity) × (i ≡ some j)
                  × (jwt_auth_guard orm crypto from_auth_header request p ≡ (ok j, q)))
      unfolding combined_auth_guard
      combined_auth_guard_ok request p q i h =
          elim (Bool-cases (any_token is_api_key (bearer_token request.authorization))) [
            | inl e ↦
                let (u, r, g, k) = bind_ok (api_key_guard orm crypto request) _ p (rw e at h) in
                inl (e, (u, g ∙ ap (λ z. (ok u, z)) (ok_inj k).1))
            | inr e ↦ inr (
              e,
              settled request p q i (jwt_auth_guard orm crypto from_auth_header request p)
                  (rw e at h),
            )
          ]

      -- The token that a login hands out before the second factor is asked passes for an access
      -- token: for its five minutes it lets the bearer in as the user, by the password alone.
      -- The ids of users are distinct.
      pub login-jwt_auth_guard :
          (dto : LoginDto) (v : Visit) (p q : Panel) (t : Text) (w : UserView)
          (request : HttpRequest)
          → Distinct user_id p.users
          → login orm crypto dto v p ≡ (ok (requires_two_factor t w), q)
          → extract_token orm crypto from_auth_header request ≡ some t
          → v.now / 1000 ≤ request.now / 1000
          → request.now / 1000 + 1 ≤ v.now / 1000 + 300
          → (u : User) × (u.uses_totp ≡ true)
            × (u.id ≡ w.id)
            × (jwt_auth_guard orm crypto from_auth_header request q ≡ (ok (identity u), q))
      unfolding jwt_auth_guard validate_user
      login-jwt_auth_guard dto v p q t w request d h x a b =
          let (u, found, on, valid, rest) =
            login_ok orm crypto dto v p (requires_two_factor t w) q h in
          elim rest [
            | inl (totp, r, z) ↦
                let (hit, stored) =
                  orm.find_one_some (has_key user_email dto.email) p.users u found in
                let token : t ≡ crypto.sign (v.now / 1000) 300 (two_factor_claims u) = cc in
                (
                  u,
                  totp,
                  cc,
                  rw (← z) (
                      rw (x, jwt_auth_guard, validate_user)
                        (rw token (
                          rw
                            (
                              crypto.verify_sign (v.now / 1000) 300 (request.now / 1000)
                                  (two_factor_claims u) a b,
                              jwt_auth_guard,
                              validate_user,
                            )
                            (rw (valid_user orm u p.users d stored on))))),
                )
            | inr (totp, r) ↦ absurd (sign_in-requires_two_factor orm crypto u v p t w q r)
          ]
