-- ===== src/Auth/TwoFactor.antt =====
-- packages/backend/src/auth/auth.service.ts: setting the second factor up and off, and the second step of a login.
use nexus_panel.Common.{
  ℕ, ◌/◌, Bool, true, false, not, Option, none, some, List, [], ◌∷◌, if◌then◌else◌,
}
use mathlib.Core.Option.{get_or}
use nexus_panel.Common.Texts.{Text, codes, ◌==◌}
use nexus_panel.Database.Entities.{User}
use nexus_panel.Database.Orm.{Orm}
use nexus_panel.Database.Rows.{has_key}
use nexus_panel.Database.Panel.{
  bad_request, unauthorized, not_found, M, ◌>>=◌, ◌>>◌, pure, gets, throw_if, or_throw,
}
use nexus_panel.Auth.Crypto.{Crypto, Claims}
use nexus_panel.Auth.Service.{
  Visit, LoginResult, user_id, two_factor, present, enabled, save_user, sign_in,
}

pub record TwoFactorSetup : Type 0 where
  pub secret : Text
  pub qr_code_url : Text

-- The purpose of a payload is the one of the token between the two steps.
abbrev pub is_two_factor : Claims → Bool
is_two_factor c = elim c.purpose [ none ↦ false | some t ↦ t == two_factor ]

-- The loop over the backup codes: the list without the first code that matches.
unfoldable pub take_code : (Text → Bool) → List Text → Option (List Text)
take_code matches [] = none
take_code matches (h ∷ hs) =
    let rest = take_code matches hs in
    if matches h then some hs else elim rest [ none ↦ none | some t ↦ some (h ∷ t) ]

-- Each plain code with the salt of its hash.
abbrev pub hash_codes : Crypto → List (Text × Text) → List Text
hash_codes crypto [] = []
hash_codes crypto ((salt, code) ∷ cs) = crypto.hash salt 10 code ∷ hash_codes crypto cs

abbrev pub plain_codes : List (Text × Text) → List Text
plain_codes [] = []
plain_codes ((salt, code) ∷ cs) = code ∷ plain_codes cs

module _ (crypto : Crypto) (orm : Orm) where
  open crypto use {compare, verify, key_uri, to_data_url, totp}

  -- `secret` is the one that is generated.
  unfoldable pub setup_two_factor : Text → (secret : Text) → M TwoFactorSetup
  setup_two_factor id secret = do
    found ← gets (λ p. orm.find_one (has_key user_id id) p.users)
    user ← or_throw (not_found "User not found") found
    throw_if user.uses_totp (bad_request "Two-factor authentication is already enabled")
    save_user orm (record user { pending_totp_secret = some secret })
    pure (record {
      secret = secret;
      qr_code_url = to_data_url (key_uri user.email (codes "Nexus Panel") secret);
    })

  -- `drawn` are the eight codes that are generated, each with its salt. The pending secret is assigned
  -- `undefined`, so its column stays.
  unfoldable pub verify_two_factor_setup :
      Text → (code : Text) → (now : ℕ) → (drawn : List (Text × Text)) → M (List Text)
  verify_two_factor_setup id code now drawn = do
    found ← gets (λ p. orm.find_one (has_key user_id id) p.users)
    user ← or_throw (not_found "User not found") found
    secret ←
        or_throw (bad_request "Two-factor setup not initiated") (present user.pending_totp_secret)
    throw_if (not (totp now code secret)) (bad_request "Invalid verification code")
    save_user orm (record user {
      totp_secret = some secret;
      uses_totp = true;
      backup_codes = some (hash_codes crypto drawn);
    })
    pure (plain_codes drawn)

  -- Secret and backup codes are assigned `undefined`, so their columns stay.
  unfoldable pub disable_two_factor : Text → (code : Text) → (now : ℕ) → M (Unit {0})
  disable_two_factor id code now = do
    found ← gets (λ p. orm.find_one (has_key user_id id) p.users)
    user ← or_throw (not_found "User not found") found
    secret ←
        or_throw (bad_request "Two-factor authentication is not enabled")
          (if user.uses_totp then present user.totp_secret else none)
    throw_if (not (totp now code secret)) (bad_request "Invalid verification code")
    save_user orm (record user { uses_totp = false })

  -- A code that the authenticator does not give must be a backup code, which is used up.
  unfoldable pub check_second_factor : User → (secret code : Text) → (now : ℕ) → M (Unit {0})
  check_second_factor user secret code now = if totp now code secret then pure tt else (do
    codes ←
        or_throw (unauthorized "Invalid two-factor code")
          (take_code (compare code) (get_or user.backup_codes []))
    save_user orm (record user { backup_codes = some codes }))

  unfoldable pub verify_two_factor_login : (session_token code : Text) → Visit → M LoginResult
  verify_two_factor_login session_token code v = do
    payload ←
        or_throw (unauthorized "Invalid or expired session token")
          (verify (v.now / 1000) session_token)
    throw_if (not (is_two_factor payload)) (unauthorized "Invalid session token")
    found ← gets (λ p. orm.find_one (has_key user_id payload.sub) p.users)
    user ← or_throw (unauthorized "User not found or disabled") (enabled found)
    secret ←
        or_throw (bad_request "Two-factor authentication is not configured")
          (present user.totp_secret)
    check_second_factor user secret code v.now
    sign_in orm crypto user v
