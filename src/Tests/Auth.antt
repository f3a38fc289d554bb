-- ===== src/Tests/Auth.antt =====
-- packages/backend/src/auth/auth.service.ts at work.
use nexus_panel.Common.{
  ◌⊎◌, any, patch, List, suc, length, ◌≡◌, refl, inl, inr, true, none, some, [], ◌∷◌,
}
use mathlib.Core.Option.{get_or}
use nexus_panel.Common.Texts.{Text, codes, ◌==◌}
use nexus_panel.Database.Entities.{User}
use nexus_panel.Database.Orm.{list_store}
use nexus_panel.Database.Rows.{has_key}
use nexus_panel.Database.Panel.{Panel, ok, err, unauthorized, ◌>>◌}
use nexus_panel.Auth.Crypto.{Claims}
use nexus_panel.Auth.Service.{
  Visit, FreshUser, LoginDto, RegisterDto, signed_in, view, access_claims, two_factor_claims,
  user_id, register, login, refresh_token, revoke_session, sign_in, save_session, save_user,
  two_factor, log,
}
use nexus_panel.Auth.TwoFactor.{check_second_factor, verify_two_factor_login, take_code}
use nexus_panel.Auth.Login.{entered, register-login, registered, registered_user}
use nexus_panel.Auth.Sessions.{revoke_session-refresh_token}
use nexus_panel.Auth.SecondFactor.{verify_two_factor_login_ok, check_second_factor-once}
use nexus_panel.Tests.Data.{alice, bob, session, panel}
use nexus_panel.Tests.Tokens.{crypto}

abbrev pub visit : Visit
visit = record {
  ip = codes "ip";
  user_agent = codes "ua";
  now = 5000;
  session_id = codes "x9";
  refresh_token = codes "r9";
  audit_id = codes "l9";
}

abbrev newcomer : RegisterDto
newcomer = record { email = codes "c@x"; username = codes "carol"; password = codes "pw3" }

abbrev drawn : FreshUser
drawn = record { id = codes "u3"; salt = codes "salt"; audit_id = codes "l1"; now = 1000 }

abbrev pub password_of_bob : LoginDto
password_of_bob = record { email = codes "b@x"; password = codes "pw"; two_factor_code = none }

register-login_example :
    (register list_store crypto newcomer drawn
        >> login list_store crypto
            (record { email = codes "c@x"; password = codes "pw3"; two_factor_code = none })
            visit)
      panel
    ≡ (
      ok (
          signed_in
            (crypto.sign 5 900 (access_claims (registered_user list_store crypto newcomer drawn)))
            (codes "r9")
            (view (registered_user list_store crypto newcomer drawn))),
      entered
          (registered_user list_store crypto newcomer drawn)
          visit
          (registered list_store crypto newcomer drawn panel),
    )
unfolding ◌==◌
register-login_example =
    register-login list_store crypto newcomer drawn visit panel (refl, (refl, tt)) refl refl refl
      (refl, refl)

abbrev touched : Panel
touched = record panel { sessions = record session { last_active_at = 9000 } ∷ [] }

abbrev revoked_panel : Panel
revoked_panel = record panel { sessions = record session { revoked = true } ∷ [] }

revoke_session-refresh_token_example :
    refresh_token list_store crypto (codes "rt") 9000 revoked_panel
    ≡ (err (unauthorized "Invalid refresh token"), revoked_panel)
unfolding ◌==◌ revoke_session save_session
revoke_session-refresh_token_example =
    revoke_session-refresh_token list_store crypto (codes "u1") session panel revoked_panel 9000
      (refl, tt) (refl, tt) refl refl

abbrev used : User
used = record bob { backup_codes = some (codes "c2" ∷ []) }

abbrev used_panel : Panel
used_panel = record panel { users = alice ∷ used ∷ [] }

check_second_factor-once_example :
    (u' : User) × (list_store.find_one (has_key user_id (codes "u2")) used_panel.users ≡ some u')
    × (length (get_or bob.backup_codes []) ≡ suc (length (get_or u'.backup_codes [])))
    × (check_second_factor crypto list_store u' (codes "s") (codes "c1") 6000 used_panel
        ≡ (err (unauthorized "Invalid two-factor code"), used_panel))
unfolding ◌==◌ check_second_factor take_code save_user
check_second_factor-once_example =
    check_second_factor-once crypto list_store bob (codes "s") (codes "c1") 5000 6000 panel
      used_panel refl ((λ h. refl), ((λ h. refl), tt)) refl (refl, (refl, tt)) (inr (inl refl)) refl

abbrev second_step : Text
second_step = crypto.sign 5 300 (two_factor_claims bob)

abbrev entered_panel : Panel
entered_panel = entered bob visit panel

verify_two_factor_login_ok_example :
    (c : Claims) × (u : User) × (secret : Text) × (p' : Panel) × (crypto.verify 5 second_step
      ≡ some c)
    × (c.purpose ≡ some two_factor)
    × (list_store.find_one (has_key user_id c.sub) panel.users ≡ some u)
    × (u.enabled ≡ true)
    × (u.totp_secret ≡ some secret)
    × ((crypto.totp 5000 (codes "s") secret ≡ true) × (panel ≡ p')
        ⊎ ((rest : List Text) × (any (crypto.compare (codes "s")) (get_or u.backup_codes []) ≡ true)
            × (length (get_or u.backup_codes []) ≡ suc (length rest))
            × (record panel {
              users =
                  patch
                    (has_key user_id u.id)
                    (λ _. record u { backup_codes = some rest })
                    panel.users;
            }
                ≡ p')))
    × (sign_in list_store crypto u visit p' ≡ (
      ok (signed_in (crypto.sign 5 900 (access_claims bob)) (codes "r9") (view bob)),
      entered_panel,
    ))
unfolding ◌==◌ verify_two_factor_login check_second_factor sign_in log
verify_two_factor_login_ok_example =
    verify_two_factor_login_ok crypto list_store second_step (codes "s") visit panel
      (signed_in (crypto.sign 5 900 (access_claims bob)) (codes "r9") (view bob)) entered_panel refl
