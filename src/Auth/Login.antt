-- ===== src/Auth/Login.antt =====
-- packages/backend/src/auth/auth.service.ts: what `register` and `login` promise.
use nexus_panel.Common.{
  ℕ, ◌/◌, ◌≡◌, refl, ◌∙◌, ◌⊎◌, inl, inr, true, false, none, some, List, [], ◌∷◌, if◌then◌else◌,
  arith, Option-cases, Bool-cases, any, patch, any-Has,
}
use nexus_panel.Common.Texts.{Text, codes, ==_refl, eq_comm}
use nexus_panel.Database.Entities.{User, AuditLog, user_clash, session_clash, audit_log_clash}
use nexus_panel.Database.Orm.{Orm}
use nexus_panel.Database.Rows.{has_key, Distinct, find_one-row}
use nexus_panel.Database.Panel.{Panel, conflict, internal, ok, err, ◌>>◌, or_throw}
use nexus_panel.Database.Requests.{bind_ok, ends_ok}
use nexus_panel.Auth.Crypto.{Crypto}
use nexus_panel.Auth.Service.{
  Visit, FreshUser, UserView, LoginDto, RegisterDto, LoginResult, requires_two_factor, signed_in,
  user_id, user_email, view, access_claims, two_factor_claims, new_user, new_session, is_taken, log,
  sign_in, login, register,
}

abbrev pub login_entry : User → Visit → AuditLog
login_entry u v = record {
  id = v.audit_id;
  user_id = some u.id;
  event = codes "user.login";
  ip = some v.ip;
  created_at = v.now;
}

-- The panel after a login: a session, the time of the login, and a line in the audit log.
abbrev pub entered : User → Visit → Panel → Panel
entered u v p = record p {
  sessions = new_session u v ∷ p.sessions;
  users = patch (has_key user_id u.id) (λ x. record x { last_login = some v.now }) p.users;
  audit_logs = login_entry u v ∷ p.audit_logs;
}

-- The ids drawn for the login are new.
abbrev pub IsNew : User → Visit → Panel → Type 0
IsNew u v p =
    (any (session_clash (new_session u v)) p.sessions ≡ false)
    × (any (audit_log_clash (login_entry u v)) p.audit_logs ≡ false)

abbrev pub register_entry : FreshUser → AuditLog
register_entry fresh = record {
  id = fresh.audit_id;
  user_id = some fresh.id;
  event = codes "user.created";
  ip = some [];
  created_at = fresh.now;
}

pub new_user_unique :
    (u : User) (t : List User)
    → any (has_key user_id u.id) t ≡ false
    → any (is_taken u.email u.username) t ≡ false
    → any (user_clash u) t ≡ false
new_user_unique u [] c h = refl
new_user_unique u (x ∷ xs) c h = ground (
  arith,
  new_user_unique u xs,
  eq_comm u.id x.id,
  eq_comm u.email x.email,
  eq_comm u.username x.username,
)

no_email :
    (email username : Text) (t : List User)
    → any (is_taken email username) t ≡ false
    → any (has_key user_email email) t ≡ false
no_email email username [] h = refl
no_email email username (x ∷ xs) h = ground (arith, no_email email username xs)

not_both :
    (a b t : Text) (x w : UserView)
    → let l : LoginResult = signed_in a b x in ¬ (l ≡ requires_two_factor t w)
not_both a b t x w h = absurd (cc h)

module _ (orm : Orm) where
  pub log_lem :
      (id user event ip : Text) (now : ℕ) (p : Panel)
      → let entry : AuditLog = record {
        id = id;
        user_id = some user;
        event = event;
        ip = some ip;
        created_at = now;
      } in
        log orm id user event ip now p ≡ (
          if any (audit_log_clash entry) p.audit_logs
          then (err internal, p)
          else (ok tt, record p { audit_logs = entry ∷ p.audit_logs }))
  unfolding log
  log_lem id user event ip now p =
      let entry : AuditLog = record {
        id = id;
        user_id = some user;
        event = event;
        ip = some ip;
        created_at = now;
      } in
      rw (orm.insert_lem audit_log_clash entry p.audit_logs, log)
        (elim (Bool-cases (any (audit_log_clash entry) p.audit_logs)) [
          | inl e ↦ rw e
          | inr e ↦ rw e
        ])

  module _ (crypto : Crypto) where
    abbrev pub registered_user : RegisterDto → FreshUser → User
    registered_user dto fresh = new_user dto (crypto.hash fresh.salt 12 dto.password) fresh

    abbrev pub registered : RegisterDto → FreshUser → Panel → Panel
    registered dto fresh p = record p {
      users = registered_user dto fresh ∷ p.users;
      audit_logs = register_entry fresh ∷ p.audit_logs;
    }

    pub sign_in_lem :
        (u : User) (v : Visit) (p : Panel)
        → IsNew u v p
        → sign_in orm crypto u v p ≡ (
          ok (
              signed_in
                (crypto.sign (v.now / 1000) 900 (access_claims u))
                v.refresh_token
                (view u)),
          entered u v p,
        )
    unfolding sign_in
    sign_in_lem u v p (s, l) =
        rw (orm.insert_lem session_clash (new_session u v) p.sessions, sign_in)
          (rw (s, sign_in)
            (rw
              (
                orm.update_lem (has_key user_id u.id) (λ x. record x { last_login = some v.now })
                    p.users,
                sign_in,
              )
              (rw
                (
                  log_lem v.audit_id u.id (codes "user.login") v.ip v.now
                      (record (entered u v p) { audit_logs = p.audit_logs }),
                  sign_in,
                )
                (rw l))))

    pub sign_in-requires_two_factor :
        (u : User) (v : Visit) (p : Panel) (t : Text) (w : UserView) (q : Panel)
        → ¬ (sign_in orm crypto u v p ≡ (ok (requires_two_factor t w), q))
    unfolding sign_in
    sign_in-requires_two_factor u v p t w q h =
        let (x, p1, h1, k1) =
          bind_ok (or_throw internal (orm.insert session_clash (new_session u v) p.sessions)) _ p
            h in
        not_both (crypto.sign (v.now / 1000) 900 (access_claims u)) v.refresh_token t (view u) w (
          ends_ok (log orm v.audit_id u.id (codes "user.login") v.ip v.now)
            (signed_in (crypto.sign (v.now / 1000) 900 (access_claims u)) v.refresh_token (view u))
            (record p1 {
              sessions = x;
              users =
                  orm.update (has_key user_id u.id) (λ r. record r { last_login = some v.now })
                    p1.users;
            })
            k1)

    -- A login that succeeds names a user who is enabled and gives the password of that user. A user
    -- with a second factor gets the token of the second step, and nothing is stored; any other gets an
    -- access token of a quarter of an hour and the refresh token.
    pub login_ok :
        (dto : LoginDto) (v : Visit) (p : Panel) (r : LoginResult) (q : Panel)
        → login orm crypto dto v p ≡ (ok r, q)
        → (u : User) × (orm.find_one (has_key user_email dto.email) p.users ≡ some u)
          × (u.enabled ≡ true)
          × (crypto.compare dto.password u.password ≡ true)
          × ((u.uses_totp ≡ true)
                × (r
                    ≡ requires_two_factor
                        (crypto.sign (v.now / 1000) 300 (two_factor_claims u))
                        (view u))
                × (p ≡ q)
              ⊎ (u.uses_totp ≡ false) × (sign_in orm crypto u v p ≡ (ok r, q)))
    unfolding login
    login_ok dto v p r q h =
        elim (Option-cases (orm.find_one (has_key user_email dto.email) p.users)) [
          | inl e ↦ absurd (ground arith)
          | inr (u, e) ↦ (
            u,
            e,
            ground arith,
            ground arith,
            elim (Bool-cases u.uses_totp) [
              | inl t ↦ inl (t, ground arith, ground arith)
              | inr t ↦ inr (t, ground arith)
            ],
          )
        ]

    -- With ids of the user and of the audit entry that are new, a registration is refused as a
    -- conflict when the address or the name is taken, and nothing is stored; else the user is
    -- stored, without rights and without a second factor.
    pub register_lem :
        (dto : RegisterDto) (fresh : FreshUser) (p : Panel)
        → any (has_key user_id fresh.id) p.users ≡ false
        → any (audit_log_clash (register_entry fresh)) p.audit_logs ≡ false
        → register orm crypto dto fresh p ≡ (
            if any (is_taken dto.email dto.username) p.users
            then (err (conflict "Email or username already exists"), p)
            else (ok (registered_user dto fresh), registered dto fresh p))
    unfolding register
    register_lem dto fresh p c l =
        elim (Option-cases (orm.find_one (is_taken dto.email dto.username) p.users)) [
          | inl e ↦
              let free = orm.find_one_none (is_taken dto.email dto.username) p.users e in
              rw (e, register)
                (rw free (
                  rw (orm.insert_lem user_clash (registered_user dto fresh) p.users, register)
                    (rw (new_user_unique (registered_user dto fresh) p.users c free, register)
                      (rw
                        (
                          log_lem fresh.audit_id fresh.id (codes "user.created") [] fresh.now
                              (record (registered dto fresh p) { audit_logs = p.audit_logs }),
                          register,
                        )
                        (rw l)))))
          | inr (u, e) ↦
              let (hit, stored) = orm.find_one_some (is_taken dto.email dto.username) p.users u e in
              rw (e, register) (rw (any-Has (is_taken dto.email dto.username) p.users stored hit))
        ]

    -- When the ids that are drawn are new and neither the address nor the name is taken, a
    -- registration followed by a login with its address and password signs the new user in,
    -- whatever the salt. The addresses of users are distinct.
    pub register-login :
        (dto : RegisterDto) (fresh : FreshUser) (v : Visit) (p : Panel)
        → Distinct user_email p.users
        → any (has_key user_id fresh.id) p.users ≡ false
        → any (is_taken dto.email dto.username) p.users ≡ false
        → any (audit_log_clash (register_entry fresh)) p.audit_logs ≡ false
        → IsNew (registered_user dto fresh) v (registered dto fresh p)
        → (register orm crypto dto fresh
              >> login orm crypto
                  (record { email = dto.email; password = dto.password; two_factor_code = none })
                  v)
            p
          ≡ (
            ok (
                signed_in
                  (crypto.sign (v.now / 1000) 900 (access_claims (registered_user dto fresh)))
                  v.refresh_token
                  (view (registered_user dto fresh))),
            entered (registered_user dto fresh) v (registered dto fresh p),
          )
    unfolding login
    register-login dto fresh v p d c t l n =
        let q = registered dto fresh p in
        let distinct : Distinct user_email q.users =
          (no_email dto.email dto.username p.users t, d) in
        let found : orm.find_one (has_key user_email dto.email) q.users
            ≡ some (registered_user dto fresh) =
          find_one-row user_email orm dto.email q.users distinct
          ∙ ground (arith, ==_refl dto.email) in
        rw (register_lem dto fresh p c l) (
          rw t (
            rw (found, login)
              (rw (crypto.compare_hash fresh.salt 12 dto.password, login)
                (sign_in_lem (registered_user dto fresh) v q n))))
