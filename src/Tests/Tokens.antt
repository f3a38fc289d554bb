-- ===== src/Tests/Tokens.antt =====
-- A concrete stand-in for bcrypt, @nestjs/jwt and otplib: a hash is the password, a token is written out in
-- clear after the second at which it expires, and the code of a secret is the secret.
use nexus_panel.Common.{
  ℕ, zero, suc, ◌+◌, ltb, nat_eq, length, ◌≡◌, refl, ap, Bool, true, false, none, some, Option, [],
  ◌∷◌, ◌++◌, arith, if◌then◌else◌,
}
use nexus_panel.Common.Texts.{Text, ◌==◌, ==_refl}
use nexus_panel.Auth.Crypto.{Crypto, Claims}

abbrev pub split : ℕ → Text → Text × Text
split zero s = ([], s)
split (suc n) [] = ([], [])
split (suc n) (c ∷ s) = let rest = split n s in (c ∷ rest.0, rest.1)

split-append : (t r : Text) → split (length t) (t ++ r) ≡ (t, r)
split-append [] r = refl
split-append (c ∷ t) r = ap (λ (z : Text × Text). (c ∷ z.0, z.1)) (split-append t r)

abbrev pub put : Text → Text → Text
put t rest = length t ∷ (t ++ rest)

abbrev pub take_text : Text → Text × Text
take_text [] = ([], [])
take_text (n ∷ s) = split n s

abbrev pub put_option : Option Text → Text → Text
put_option none rest = 0 ∷ rest
put_option (some t) rest = 1 ∷ put t rest

abbrev pub take_option : Text → Option Text × Text
take_option [] = (none, [])
take_option (zero ∷ s) = (none, s)
take_option (suc n ∷ s) = (some (take_text s).0, (take_text s).1)

take_option-put_option : (o : Option Text) (r : Text) → take_option (put_option o r) ≡ (o, r)
take_option-put_option none r = refl
take_option-put_option (some t) r = rw (split-append t r)

abbrev pub put_flag : Option Bool → Text → Text
put_flag none rest = 0 ∷ rest
put_flag (some false) rest = 1 ∷ rest
put_flag (some true) rest = 2 ∷ rest

abbrev pub take_flag : Text → Option Bool × Text
take_flag [] = (none, [])
take_flag (n ∷ s) = (if nat_eq n 0 then none else some (nat_eq n 2), s)

take_flag-put_flag : (o : Option Bool) (r : Text) → take_flag (put_flag o r) ≡ (o, r)
take_flag-put_flag none r = refl
take_flag-put_flag (some false) r = refl
take_flag-put_flag (some true) r = refl

abbrev pub written : Claims → Text
written c = put c.sub (
    put_option c.email
      (put_flag c.root_admin (put_option c.purpose (put_option c.impersonated_by []))))

abbrev pub read : Text → Claims
read s = record {
  sub = (take_text s).0;
  email = (take_option (take_text s).1).0;
  root_admin = (take_flag (take_option (take_text s).1).1).0;
  purpose = (take_option (take_flag (take_option (take_text s).1).1).1).0;
  impersonated_by = (take_option (take_option (take_flag (take_option (take_text s).1).1).1).1).0;
}

pub read-written : (c : Claims) → read (written c) ≡ c
read-written c =
    let last = put_option c.purpose (put_option c.impersonated_by []) in
    rw (split-append c.sub (put_option c.email (put_flag c.root_admin last))) (
      rw (take_option-put_option c.email (put_flag c.root_admin last)) (
        rw (take_flag-put_flag c.root_admin last) (
          rw (take_option-put_option c.purpose (put_option c.impersonated_by []))
            (rw (take_option-put_option c.impersonated_by [])))))

abbrev pub verify_at : ℕ → Text → Option Claims
verify_at now [] = none
verify_at now (expiry ∷ s) = if ltb now expiry then some (read s) else none

abbrev pub crypto : Crypto
crypto = record {
  hash = λ salt rounds password. password;
  compare = λ password hash. password == hash;
  sign = λ issued_at lifetime claims. (issued_at + lifetime) ∷ written claims;
  verify = λ now t. verify_at now t;
  key_uri = λ account issuer secret. secret;
  to_data_url = λ t. t;
  totp = λ now token secret. token == secret;
  compare_hash = λ salt rounds password. ==_refl password;
  verify_sign = λ issued_at lifetime now claims a b. ground (arith, read-written claims);
}
