-- ===== src/Users/Service.antt =====
-- packages/backend/src/users/users.service.ts and packages/backend/src/admin/admin-users.controller.ts: they
-- store users in the same way and differ in the exceptions, and in what a deletion asks.
use nexus_panel.Common.{
  ℕ, Bool, true, false, not, ◌&&◌, ◌||◌, Option, none, some, List, [], ◌∷◌, ltb, is_some,
}
use mathlib.Core.Option.{get_or}
use nexus_panel.Common.Texts.{Text, ◌==◌}
use nexus_panel.Database.Entities.{User, Server, ApiKey, user_clash}
use nexus_panel.Database.Orm.{Orm}
use nexus_panel.Database.Pages.{Pages, Paged, containing, paginate}
use nexus_panel.Database.Rows.{has_key}
use nexus_panel.Database.Panel.{
  Failure, bad_request, not_found, conflict, internal, M, ◌>>=◌, ◌>>◌, pure, gets, modify, throw_if,
  or_throw,
}
use nexus_panel.Auth.Crypto.{Crypto}
use nexus_panel.Auth.Service.{user_id, user_email, present, is_taken}

pub record CreateUserDto : Type 0 where
  pub email : Text
  pub username : Text
  pub password : Text
  pub root_admin : Option Bool

-- `UpdateUserDto` and `UpdateProfileDto`, which the service is given alike: the one has no `avatar_url`,
-- the other neither `root_admin` nor `enabled`.
pub record UpdateUserDto : Type 0 where
  pub email : Option Text
  pub username : Option Text
  pub password : Option Text
  pub root_admin : Option Bool
  pub enabled : Option Bool
  pub avatar_url : Option Text

pub record UpdateProfileDto : Type 0 where
  pub email : Option Text
  pub username : Option Text
  pub password : Option Text
  pub avatar_url : Option Text

abbrev pub of_profile : UpdateProfileDto → UpdateUserDto
of_profile dto = record {
  email = dto.email;
  username = dto.username;
  password = dto.password;
  root_admin = none;
  enabled = none;
  avatar_url = dto.avatar_url;
}

-- The id, the salt of the hash and the time of a write.
pub record Draw : Type 0 where
  pub id : Text
  pub salt : Text
  pub now : ℕ

-- The columns that a `select` of the service asks for.
pub record UserSummary : Type 0 where
  pub id : Text
  pub email : Text
  pub username : Text
  pub root_admin : Bool
  pub uses_totp : Bool
  pub enabled : Bool
  pub avatar_url : Option Text
  pub created_at : ℕ
  pub updated_at : ℕ

-- The row without `password`, `totpSecret` and `backupCodes`.
pub record UserResult : Type 0 where
  pub summary : UserSummary
  pub pending_totp_secret : Option Text
  pub last_login : Option ℕ

-- The exceptions of a writer of users.
pub record Refusals : Type 0 where
  pub missing : Failure
  pub taken : Failure
  pub email_taken : Failure
  pub username_taken : Failure

abbrev pub of_service : Refusals
of_service = record {
  missing = not_found "User not found";
  taken = conflict "Email or username already exists";
  email_taken = conflict "Email already in use";
  username_taken = conflict "Username already in use";
}

abbrev pub of_admin : Refusals
of_admin = record {
  missing = bad_request "User not found";
  taken = bad_request "Email or username already exists";
  email_taken = bad_request "Email already in use";
  username_taken = bad_request "Username already in use";
}

abbrev pub user_name : User → Text
user_name u = u.username

abbrev pub summary : User → UserSummary
summary u = record {
  id = u.id;
  email = u.email;
  username = u.username;
  root_admin = u.root_admin;
  uses_totp = u.uses_totp;
  enabled = u.enabled;
  avatar_url = u.avatar_url;
  created_at = u.created_at;
  updated_at = u.updated_at;
}

abbrev pub result : User → UserResult
result u = record {
  summary = summary u;
  pending_totp_secret = u.pending_totp_secret;
  last_login = u.last_login;
}

abbrev pub new_user : CreateUserDto → (password : Text) → Draw → User
new_user dto password draw = record {
  id = draw.id;
  email = dto.email;
  username = dto.username;
  password = password;
  root_admin = get_or dto.root_admin false;
  uses_totp = false;
  totp_secret = none;
  pending_totp_secret = none;
  backup_codes = none;
  enabled = true;
  avatar_url = none;
  last_login = none;
  created_at = draw.now;
  updated_at = draw.now;
}

abbrev or_keep : Option Text → Option Text → Option Text
or_keep none old = old
or_keep (some v) old = some v

-- `Object.assign(user, dto)`, the password hashed where one is given.
abbrev pub assign : User → UpdateUserDto → (password : Text) → User
assign u dto password = record u {
  email = get_or dto.email u.email;
  username = get_or dto.username u.username;
  password = password;
  root_admin = get_or dto.root_admin u.root_admin;
  enabled = get_or dto.enabled u.enabled;
  avatar_url = or_keep dto.avatar_url u.avatar_url;
}

-- A search is by address or by name.
abbrev pub is_found : Pages → Option Text → User → Bool
is_found pages none u = true
is_found pages (some search) u =
    pages.like (containing search) u.email || pages.like (containing search) u.username

abbrev pub summaries : List User → List UserSummary
summaries [] = []
summaries (u ∷ t) = summary u ∷ summaries t

abbrev pub is_owned_by : Text → Server → Bool
is_owned_by id s = s.user_id == id

abbrev pub is_key_of : Text → ApiKey → Bool
is_key_of id k = k.user_id == id

module _ (orm : Orm) where
  unfoldable pub find_all : Pages → (page per_page : ℕ) → Option Text → M (Paged UserSummary)
  find_all pages page per_page search = do
    found ← paginate pages (λ p. p.users) (is_found pages (present search)) page per_page
    pure (record { rows = summaries found.rows; meta = found.meta })

  unfoldable pub find_by_id : Failure → Text → M UserSummary
  find_by_id missing id = do
    found ← gets (λ p. orm.find_one (has_key user_id id) p.users)
    user ← or_throw missing found
    pure (summary user)

  unfoldable pub find_by_email : Text → M (Option User)
  find_by_email email = gets (λ p. orm.find_one (has_key user_email email) p.users)

  -- `if (dto.email && dto.email !== user.email)` no other row may have it; the same for the name.
  unfoldable pub check_free : (User → Text) → Failure → Option Text → User → M (Unit {0})
  check_free key taken none u = pure tt
  check_free key taken (some v) u = do
    clash ← gets (λ p. orm.find_one (has_key key v) p.users)
    throw_if (not (v == key u) && is_some clash) taken

  -- `DELETE` of the service.
  unfoldable pub delete : Text → M (Unit {0})
  delete id = do
    found ← gets (λ p. orm.find_one (has_key user_id id) p.users)
    user ← or_throw (not_found "User not found") found
    modify (λ p. record p { users = orm.remove (has_key user_id user.id) p.users })

  -- `DELETE` of the administration: a user that owns servers stays.
  unfoldable pub admin_delete : Text → M (Unit {0})
  admin_delete id = do
    found ← gets (λ p. orm.find_one (has_key user_id id) p.users)
    user ← or_throw (bad_request "User not found") found
    count ← gets (λ p. orm.sum (is_owned_by id) (λ s. 1) p.servers)
    throw_if (ltb 0 count)
        (bad_request "Cannot delete user: server(s) are still owned by this user")
    modify (λ p. record p { users = orm.remove (has_key user_id user.id) p.users })

  -- The detail of a user, with the rows of the servers and the keys that it owns.
  unfoldable pub admin_find_by_id : Text → M (UserSummary × List Server × List ApiKey)
  admin_find_by_id id = do
    user ← find_by_id (bad_request "User not found") id
    servers ← gets (λ p. orm.find (is_owned_by id) p.servers)
    keys ← gets (λ p. orm.find (is_key_of id) p.api_keys)
    pure (user, servers, keys)

  module _ (crypto : Crypto) where
    open crypto use {hash}

    unfoldable pub create : Refusals → CreateUserDto → Draw → M UserResult
    create refusals dto draw = do
      existing ← gets (λ p. orm.find_one (is_taken dto.email dto.username) p.users)
      throw_if (is_some existing) refusals.taken
      let user = new_user dto (hash draw.salt 12 dto.password) draw
      stored ← gets (λ p. orm.insert user_clash user p.users)
      users ← or_throw internal stored
      modify (λ p. record p { users = users })
      pure (result user)

    -- `if (dto.password)` it is hashed. An empty one is assigned as it is.
    abbrev pub new_password : Option Text → Text → User → Text
    new_password none salt u = u.password
    new_password (some []) salt u = []
    new_password (some (c ∷ s)) salt u = hash salt 12 (c ∷ s)

    unfoldable pub update : Refusals → (id : Text) → UpdateUserDto → (salt : Text) → M UserResult
    update refusals id dto salt = do
      found ← gets (λ p. orm.find_one (has_key user_id id) p.users)
      user ← or_throw refusals.missing found
      check_free user_email refusals.email_taken (present dto.email) user
      check_free user_name refusals.username_taken (present dto.username) user
      let changed = assign user dto (new_password dto.password salt user)
      stored ← gets (λ p. orm.save user_clash (has_key user_id user.id) changed p.users)
      users ← or_throw internal stored
      modify (λ p. record p { users = users })
      pure (result changed)

    -- The same from the administration, where every refusal is a bad request.
    abbrev pub admin_create : CreateUserDto → Draw → M UserResult
    admin_create dto draw = create of_admin dto draw

    abbrev pub admin_update : (id : Text) → UpdateUserDto → (salt : Text) → M UserResult
    admin_update id dto salt = update of_admin id dto salt
