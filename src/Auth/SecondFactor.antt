-- ===== src/Auth/SecondFactor.antt =====
-- packages/backend/src/auth/auth.service.ts: what the second step of a login asks, backup codes, and what is left when the
-- second factor is disabled.
use nexus_panel.Common.{
  ℕ, suc, ◌/◌, ◌≡◌, refl, sym, ap, ◌∙◌, ◌⊎◌, inl, inr, Bool, true, false, not, ◌&&◌, Option, none,
  some, List, [], ◌∷◌, arith, Option-cases, Bool-cases, any, patch, Has, length,
}
use mathlib.Core.Option
use mathlib.Core.Option.{get_or}
use nexus_panel.Common.Texts.{Text, eq_iff}
use nexus_panel.Database.Entities.{User, user_clash}
use nexus_panel.Database.Orm.{Orm}
use nexus_panel.Database.Rows.{
  has_key, row, row-key, row-Has, row-replace, Distinct, Distinct-replace, find_one-row, Unique,
}
use nexus_panel.Database.Panel.{Panel, bad_request, unauthorized, ok, err, throw_if, or_throw}
use nexus_panel.Database.Requests.{bind_ok, then_ok, or_throw_ok, throw_if_ok}
use nexus_panel.Auth.Crypto.{Crypto, Claims}
use nexus_panel.Auth.Service.{
  Visit, LoginResult, user_id, two_factor, present, enabled, save_user, sign_in,
}
use nexus_panel.Auth.TwoFactor.{
  is_two_factor, take_code, check_second_factor, verify_two_factor_login, disable_two_factor,
}

-- A backup code is found when some stored hash matches it; one hash is taken out then.
pub take_code_lem :
    (matches : Text → Bool) (hs rest : List Text)
    → take_code matches hs ≡ some rest
    → (any matches hs ≡ true) × (length hs ≡ suc (length rest))
unfolding take_code
take_code_lem matches [] rest h = cc
take_code_lem matches (x ∷ xs) rest h = elim (Bool-cases (matches x)) [
  | inl e ↦ ground arith
  | inr e ↦ elim (Option-cases (take_code matches xs)) [
    | inl f ↦ absurd (ground arith)
    | inr (t, f) ↦
        let same : x ∷ t ≡ rest = ground arith in
        rw (← same) (ground (arith, take_code_lem matches xs t f))
  ]
]

-- A hash that alone matches the code is gone afterwards.
take_code-gone :
    (matches : Text → Bool) (hs rest : List Text)
    → take_code matches hs ≡ some rest
    → Unique matches hs
    → any matches rest ≡ false
unfolding take_code
take_code-gone matches [] rest h u = cc
take_code-gone matches (x ∷ xs) rest h u = elim (Bool-cases (matches x)) [
  | inl e ↦ let same : xs ≡ rest = ground arith in rw (← same) (u.0 e)
  | inr e ↦ elim (Option-cases (take_code matches xs)) [
    | inl f ↦ absurd (ground arith)
    | inr (t, f) ↦
        let same : x ∷ t ≡ rest = ground arith in
        rw (← same) (rw e (take_code-gone matches xs t f u.1))
  ]
]

take_code_miss :
    (matches : Text → Bool) (hs : List Text) → any matches hs ≡ false → take_code matches hs ≡ none
unfolding take_code
take_code_miss matches [] h = refl
take_code_miss matches (x ∷ xs) h = ground (arith, take_code_miss matches xs)

present-some : (o : Option Text) (t : Text) → present o ≡ some t → o ≡ some t
present-some none t h = h
present-some (some []) t h = cc
present-some (some (c ∷ s)) t h = h

purpose_is : (c : Claims) → is_two_factor c ≡ true → c.purpose ≡ some two_factor
purpose_is c h = elim (Option-cases c.purpose) [
  | inl e ↦ absurd (ground arith)
  | inr (t, e) ↦ ground (arith, eq_iff t two_factor)
]

enabled_some : (o : Option User) (u : User) → enabled o ≡ some u → (o ≡ some u) × (u.enabled ≡ true)
enabled_some none u h = cc
enabled_some (some x) u h = ground arith

module _ (crypto : Crypto) (orm : Orm) where
  save_user_ok :
      (u : User) (p : Panel) {q : Panel}
      → save_user orm u p ≡ (ok tt, q)
      → record p { users = patch (has_key user_id u.id) (λ _. u) p.users } ≡ q
  unfolding save_user
  save_user_ok u p h =
      elim (Bool-cases (any (λ r. not (has_key user_id u.id r) && user_clash u r) p.users)) [
        | inl e ↦ absurd (ground (arith, orm.save_lem user_clash (has_key user_id u.id) u p.users))
        | inr e ↦ ground (arith, orm.save_lem user_clash (has_key user_id u.id) u p.users)
      ]

  replaced :
      (u u' : User) (t z : List User)
      → u'.id ≡ u.id
      → Distinct user_id t
      → patch (has_key user_id u.id) (λ _. u') t ≡ z
      → row user_id u.id t ≡ some u
      → (row user_id u.id z ≡ some u') × (orm.find_one (has_key user_id u.id) z ≡ some u')
  replaced u u' t z i d e r =
      let stored : row user_id u.id z ≡ some u' =
        ap (row user_id u.id) (sym e)
        ∙ rw (← i) (
            row-replace user_id u' t
            ∙ ap (Option.map (λ _. u')) (ap (λ k. row user_id k t) i ∙ r)) in
      (
        stored,
        find_one-row user_id orm u.id z (rw (← e) (rw (← i) (Distinct-replace user_id u' t d)))
            ∙ stored,
      )

  -- The code of the authenticator leaves the user as it is; else a backup code is taken out.
  pub check_second_factor_ok :
      (u : User) (secret code : Text) (now : ℕ) (p q : Panel)
      → check_second_factor crypto orm u secret code now p ≡ (ok tt, q)
      → (crypto.totp now code secret ≡ true) × (p ≡ q)
        ⊎ ((rest : List Text) × (take_code (crypto.compare code) (get_or u.backup_codes [])
              ≡ some rest)
            × (record p {
              users =
                  patch (has_key user_id u.id) (λ _. record u { backup_codes = some rest }) p.users;
            }
                ≡ q))
  unfolding check_second_factor
  check_second_factor_ok u secret code now p q h = elim (Bool-cases (crypto.totp now code secret)) [
    | inl e ↦ inl (e, ground arith)
    | inr e ↦ elim (Option-cases (take_code (crypto.compare code) (get_or u.backup_codes []))) [
      | inl f ↦ absurd (ground arith)
      | inr (rest, f) ↦
          inr (rest, f, save_user_ok (record u { backup_codes = some rest }) p (ground arith))
    ]
  ]

  second_factor_used :
      (u : User) (secret code : Text) (now : ℕ) (p q : Panel)
      → check_second_factor crypto orm u secret code now p ≡ (ok tt, q)
      → (crypto.totp now code secret ≡ true) × (p ≡ q)
        ⊎ ((rest : List Text) × (any (crypto.compare code) (get_or u.backup_codes []) ≡ true)
            × (length (get_or u.backup_codes []) ≡ suc (length rest))
            × (record p {
              users =
                  patch (has_key user_id u.id) (λ _. record u { backup_codes = some rest }) p.users;
            }
                ≡ q))
  second_factor_used u secret code now p q h =
      elim (check_second_factor_ok u secret code now p q h) [
        | inl a ↦ inl a
        | inr (rest, f, e) ↦
            let (hit, count) =
              take_code_lem (crypto.compare code) (get_or u.backup_codes []) rest f in
            inr (rest, hit, count, e)
      ]

  -- The second step of a login succeeds only with the token of the first step, for a user that is enabled
  -- and has a secret. Either the authenticator gives the code, and the user stays as it was; or some
  -- backup code matches, and the row of the user is stored with one code less. Then the user is
  -- signed in.
  pub verify_two_factor_login_ok :
      (session_token code : Text) (v : Visit) (p : Panel) (r : LoginResult) (q : Panel)
      → verify_two_factor_login crypto orm session_token code v p ≡ (ok r, q)
      → (c : Claims) × (u : User) × (secret : Text) × (p' : Panel) × (crypto.verify
            (v.now / 1000)
            session_token
          ≡ some c)
        × (c.purpose ≡ some two_factor)
        × (orm.find_one (has_key user_id c.sub) p.users ≡ some u)
        × (u.enabled ≡ true)
        × (u.totp_secret ≡ some secret)
        × ((crypto.totp v.now code secret ≡ true) × (p ≡ p')
            ⊎ ((rest : List Text) × (any (crypto.compare code) (get_or u.backup_codes []) ≡ true)
                × (length (get_or u.backup_codes []) ≡ suc (length rest))
                × (record p {
                  users =
                      patch
                        (has_key user_id u.id)
                        (λ _. record u { backup_codes = some rest })
                        p.users;
                }
                    ≡ p')))
        × (sign_in orm crypto u v p' ≡ (ok r, q))
  unfolding verify_two_factor_login
  verify_two_factor_login_ok session_token code v p r q h =
      let (c, p1, h1, k1) =
        bind_ok
          (or_throw (unauthorized "Invalid or expired session token")
            (crypto.verify (v.now / 1000) session_token))
          _ p h in
      let (verified, e1) =
        or_throw_ok (unauthorized "Invalid or expired session token")
          (crypto.verify (v.now / 1000) session_token) p h1 in
      let (u2, p2, h2, k2) =
        then_ok (throw_if (not (is_two_factor c)) (unauthorized "Invalid session token")) _ p1 k1 in
      let (purpose, e2) =
        throw_if_ok (not (is_two_factor c)) (unauthorized "Invalid session token") p1 h2 in
      let found = orm.find_one (has_key user_id c.sub) p2.users in
      let (u, p3, h3, k3) =
        bind_ok (or_throw (unauthorized "User not found or disabled") (enabled found)) _ p2 k2 in
      let (allowed, e3) =
        or_throw_ok (unauthorized "User not found or disabled") (enabled found) p2 h3 in
      let (secret, p4, h4, k4) =
        bind_ok
          (or_throw (bad_request "Two-factor authentication is not configured")
            (present u.totp_secret))
          _ p3 k3 in
      let (set_up, e4) =
        or_throw_ok (bad_request "Two-factor authentication is not configured")
          (present u.totp_secret) p3 h4 in
      let (u5, p5, h5, k5) = then_ok (check_second_factor crypto orm u secret code v.now) _ p4 k4 in
      let to = e1 ∙ e2 in
      (
        c,
        u,
        secret,
        p5,
        verified,
        purpose_is c (ground arith),
        ap (λ (x : Panel). orm.find_one (has_key user_id c.sub) x.users) to
            ∙ (enabled_some found u allowed).0,
        (enabled_some found u allowed).1,
        present-some u.totp_secret secret set_up,
        second_factor_used u secret code v.now p p5
            (ap (check_second_factor crypto orm u secret code v.now) (to ∙ e3 ∙ e4) ∙ h5),
        k5,
      )

  -- A backup code works once. When a login of a stored user has used a code that matches exactly
  -- one stored hash and is not the authenticator's, a later use of it is refused and changes
  -- nothing, if the authenticator does not show the same code then. The ids of users are
  -- distinct.
  pub check_second_factor-once :
      (u : User) (secret code : Text) (now later : ℕ) (p q : Panel)
      → crypto.totp now code secret ≡ false
      → Unique (crypto.compare code) (get_or u.backup_codes [])
      → check_second_factor crypto orm u secret code now p ≡ (ok tt, q)
      → Distinct user_id p.users
      → Has u p.users
      → crypto.totp later code secret ≡ false
      → (u' : User) × (orm.find_one (has_key user_id u.id) q.users ≡ some u')
        × (length (get_or u.backup_codes []) ≡ suc (length (get_or u'.backup_codes [])))
        × (check_second_factor crypto orm u' secret code later q
            ≡ (err (unauthorized "Invalid two-factor code"), q))
  unfolding check_second_factor
  check_second_factor-once u secret code now later p q t n h d m z =
      elim (check_second_factor_ok u secret code now p q h) [
        | inl (e, f) ↦ absurd (ground arith)
        | inr (rest, e, f) ↦
            let u' : User = record u { backup_codes = some rest } in
            let gone =
              take_code_miss (crypto.compare code) rest
                (take_code-gone (crypto.compare code) (get_or u.backup_codes []) rest e n) in
            (
              u',
              (replaced u u' p.users q.users refl d (ap (λ (x : Panel). x.users) f)
                  (row-Has user_id u.id p.users u d m refl)).1,
              (take_code_lem (crypto.compare code) (get_or u.backup_codes []) rest e).1,
              rw z (rw gone),
            )
      ]

  -- When the second factor of a user is disabled, the secret and the backup codes stay in the
  -- user's row. The ids of users are distinct.
  disable_two_factor-kept :
      (id code : Text) (now : ℕ) (p q : Panel)
      → Distinct user_id p.users
      → disable_two_factor crypto orm id code now p ≡ (ok tt, q)
      → (u : User) × (row user_id id p.users ≡ some u)
        × (u.uses_totp ≡ true)
        × (row user_id id q.users ≡ some (record u { uses_totp = false }))
  unfolding disable_two_factor
  disable_two_factor-kept id code now p q d h =
      elim (Option-cases (orm.find_one (has_key user_id id) p.users)) [
        | inl e ↦ absurd (ground arith)
        | inr (u, e) ↦
            let stored : row user_id id p.users ≡ some u =
              sym (find_one-row user_id orm id p.users d) ∙ e in
            let off : User = record u { uses_totp = false } in
            let own : u.id ≡ id = row-key user_id id p.users u stored in
            let saved : save_user orm off p ≡ (ok tt, q) = ground arith in
            (
              u,
              stored,
              ground arith,
              ap (λ k. row user_id k q.users) (sym own)
                  ∙ (replaced u off p.users q.users refl d
                      (ap (λ (x : Panel). x.users) (save_user_ok off p saved))
                      (ap (λ k. row user_id k p.users) own ∙ stored)).0,
            )
      ]
