-- ===== src/Auth/Sessions.antt =====
-- packages/backend/src/auth/auth.service.ts: refresh tokens, from the login to the revocation.
use nexus_panel.Common.{
  ℕ, ◌/◌, ◌≡◌, refl, ◌∙◌, inl, inr, true, false, not, ◌&&◌, some, List, [], ◌∷◌, arith,
  Option-cases, any, patch, Has,
}
use nexus_panel.Common.Texts.{Text, ==_refl, eq_iff, eq_comm}
use nexus_panel.Database.Entities.{User, Session, session_clash}
use nexus_panel.Database.Orm.{Orm}
use nexus_panel.Database.Rows.{
  has_key, row, row-Has, row-patch, Distinct, Distinct-patch, find_one-row, find_one_only,
  find_one_miss, clear-Unique, clear_none, Distinct-Unique,
}
use nexus_panel.Database.Panel.{Panel, unauthorized, ok, err}
use nexus_panel.Auth.Crypto.{Crypto}
use nexus_panel.Auth.Service.{
  Visit, user_id, session_id, access_claims, new_session, is_live, is_own, save_session,
  refresh_token, revoke_session,
}
use nexus_panel.Auth.Login.{entered}

abbrev pub session_token : Session → Text
session_token s = s.refresh_token

module _ (orm : Orm) where
  -- The key is the only unique column of a session.
  save_session-clash :
      (s : Session) (t : List Session)
      → any (λ r. not (has_key session_id s.id r) && session_clash s r) t ≡ false
  save_session-clash s [] = refl
  save_session-clash s (x ∷ xs) = ground (arith, save_session-clash s xs, eq_comm s.id x.id)

  pub save_session_lem :
      (s : Session) (p : Panel)
      → save_session orm s p
        ≡ (ok tt, record p { sessions = patch (has_key session_id s.id) (λ _. s) p.sessions })
  unfolding save_session
  save_session_lem s p =
      rw (orm.save_lem session_clash (has_key session_id s.id) s p.sessions, save_session)
        (rw (save_session-clash s p.sessions))

  -- Once it is revoked, no session answers to the token of a session.
  no_live :
      (s : Session) (t : List Session)
      → Distinct session_token t
      → Has s t
      → any
          (is_live s.refresh_token)
          (patch (has_key session_id s.id) (λ _. record s { revoked = true }) t)
        ≡ false
  no_live s t d m = elim (Option-cases (orm.find_one (is_live s.refresh_token) t)) [
    | inl e ↦
        clear_none session_id (is_live s.refresh_token) (λ _. record s { revoked = true })
          (λ r. ground arith) s.id t (orm.find_one_none (is_live s.refresh_token) t e)
    | inr (x, e) ↦
        let (hit, stored) = orm.find_one_some (is_live s.refresh_token) t x e in
        let same : x ≡ s = ground (
          arith,
          row-Has session_token s.refresh_token t x d stored
              (ground (arith, eq_iff x.refresh_token s.refresh_token)),
          row-Has session_token s.refresh_token t s d m refl,
        ) in
        clear-Unique session_id (is_live s.refresh_token) (λ _. record s { revoked = true })
          (λ r. ground arith) s t
          (Distinct-Unique session_token s.refresh_token (λ r. not r.revoked) t d) m
          (rw same at hit)
  ]

  missed :
      (u : User) (v : Visit) (t : List Session)
      → any (has_key session_token v.refresh_token) t ≡ false
      → any (is_live v.refresh_token) t ≡ false
  missed u v [] h = refl
  missed u v (x ∷ xs) h = ground (arith, missed u v xs)

  module _ (crypto : Crypto) where
    -- A refresh token is honoured only for a session that is not revoked and whose user is enabled; the
    -- answer is a token for that user, and only the time of the session changes.
    pub refresh_token_ok :
        (token : Text) (now : ℕ) (p : Panel) (t : Text) (q : Panel)
        → refresh_token orm crypto token now p ≡ (ok t, q)
        → (s : Session) × (u : User) × Has s p.sessions
          × (s.refresh_token ≡ token)
          × (s.revoked ≡ false)
          × (orm.find_one (has_key user_id s.user_id) p.users ≡ some u)
          × (u.enabled ≡ true)
          × (t ≡ crypto.sign (now / 1000) 900 (access_claims u))
          × (record p {
            sessions =
                patch (has_key session_id s.id) (λ _. record s { last_active_at = now }) p.sessions;
          }
              ≡ q)
    unfolding refresh_token
    refresh_token_ok token now p t q h =
        elim (Option-cases (orm.find_one (is_live token) p.sessions)) [
          | inl e ↦ absurd (ground arith)
          | inr (s, e) ↦ elim (Option-cases (orm.find_one (has_key user_id s.user_id) p.users)) [
            | inl f ↦ absurd (ground arith)
            | inr (u, f) ↦
                let (hit, stored) = orm.find_one_some (is_live token) p.sessions s e in
                let saved = save_session_lem (record s { last_active_at = now }) p in
                (
                  s,
                  u,
                  stored,
                  ground (arith, eq_iff s.refresh_token token),
                  ground arith,
                  f,
                  ground arith,
                  ground (arith, saved),
                  ground (arith, saved),
                )
          ]
        ]

    -- The refresh token of a login of a stored, enabled user is honoured from then on, when no
    -- session had that token before. The ids of users are distinct.
    pub entered-refresh_token :
        (u : User) (v : Visit) (p : Panel) (now : ℕ)
        → Distinct user_id p.users
        → Has u p.users
        → u.enabled ≡ true
        → any (has_key session_token v.refresh_token) p.sessions ≡ false
        → (refresh_token orm crypto v.refresh_token now (entered u v p)).0
          ≡ ok (crypto.sign (now / 1000) 900 (access_claims u))
    unfolding refresh_token
    entered-refresh_token u v p now d m e n =
        let s = new_session u v in
        let q = entered u v p in
        let touch : User → User = λ x. record x { last_login = some v.now } in
        let live : orm.find_one (is_live v.refresh_token) q.sessions ≡ some s =
          find_one_only orm (is_live v.refresh_token) s p.sessions
            (ground (arith, ==_refl v.refresh_token)) (missed u v p.sessions n) in
        let owner : orm.find_one (has_key user_id u.id) q.users ≡ some (touch u) =
          find_one-row user_id orm u.id q.users
            (Distinct-patch user_id touch (λ x. refl) (has_key user_id u.id) p.users d)
          ∙ row-patch user_id touch (λ x. refl) u.id u.id p.users
          ∙ ground (arith, ==_refl u.id, row-Has user_id u.id p.users u d m refl) in
        rw (live, refresh_token)
          (rw (owner, refresh_token)
            (rw (e, refresh_token) (rw (save_session_lem (record s { last_active_at = now }) q))))

    -- A session that is revoked ends its refresh token.
    pub revoke_session-refresh_token :
        (user : Text) (s : Session) (p q : Panel) (now : ℕ)
        → Distinct session_id p.sessions
        → Distinct session_token p.sessions
        → row session_id s.id p.sessions ≡ some s
        → revoke_session orm user s.id p ≡ (ok tt, q)
        → refresh_token orm crypto s.refresh_token now q
          ≡ (err (unauthorized "Invalid refresh token"), q)
    unfolding refresh_token revoke_session
    revoke_session-refresh_token user s p q now d t e h =
        elim (Option-cases (orm.find_one (is_own user s.id) p.sessions)) [
          | inl f ↦ absurd (ground arith)
          | inr (x, f) ↦
              let (hit, stored) = orm.find_one_some (is_own user s.id) p.sessions x f in
              let same : x ≡ s = ground (
                arith,
                row-Has session_id s.id p.sessions x d stored (ground (arith, eq_iff x.id s.id)),
              ) in
              let saved = save_session_lem (record x { revoked = true }) p in
              let done : record p {
                sessions =
                    patch (has_key session_id x.id) (λ _. record x { revoked = true }) p.sessions;
              }
                  ≡ q =
                ground (arith, saved) in
              let gone : any (is_live s.refresh_token) q.sessions ≡ false =
                rw (← done) (rw same (no_live s p.sessions t (rw (← same) stored))) in
              rw (find_one_miss orm (is_live s.refresh_token) q.sessions gone)
        ]
