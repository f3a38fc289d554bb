-- ===== src/Auth/Crypto.antt =====
-- What packages/backend/src/auth uses of bcrypt, @nestjs/jwt, otplib and qrcode.
use nexus_panel.Common.{ℕ, ◌+◌, ◌≤◌, ◌≡◌, Bool, true, Option, some}
use nexus_panel.Common.Texts.{Text}

-- The payload of a token. `purpose` marks the token between the two steps of a login.
pub record Claims : Type 0 where
  pub sub : Text
  pub email : Option Text
  pub root_admin : Option Bool
  pub purpose : Option Text
  pub impersonated_by : Option Text

-- `hash` takes the salt that it draws. A token carries the second it was issued at and a lifetime in
-- seconds; `verify` answers its payload while it is valid, and nothing once it has expired or if the
-- signature is not the panel's. `totp` is `authenticator.verify` at a time in milliseconds.
pub record Crypto : Type 0 where
  pub hash : (salt : Text) (rounds : ℕ) (password : Text) → Text
  pub compare : (password hash : Text) → Bool
  pub sign : (issued_at lifetime : ℕ) → Claims → Text
  pub verify : (now : ℕ) → Text → Option Claims
  pub key_uri : (account issuer secret : Text) → Text
  pub to_data_url : Text → Text
  pub totp : (now : ℕ) (token secret : Text) → Bool
  pub compare_hash :
      (salt : Text) (rounds : ℕ) (password : Text)
      → compare password (hash salt rounds password) ≡ true
  pub verify_sign :
      (issued_at lifetime now : ℕ) (claims : Claims)
      → issued_at ≤ now
      → now + 1 ≤ issued_at + lifetime
      → verify now (sign issued_at lifetime claims) ≡ some claims
