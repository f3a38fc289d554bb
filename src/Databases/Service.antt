-- ===== src/Databases/Service.antt =====
-- packages/backend/src/databases/databases.service.ts, and the handlers of
-- packages/backend/src/databases/databases.controller.ts. The two uuids that a creation draws come without
-- their dashes.
use nexus_panel.Common.{take, ℕ, Option, List, ◌++◌, Bool}
use mathlib.Core.Option.{get_or}
use nexus_panel.Common.Texts.{Text, codes, ◌==◌}
use nexus_panel.Database.Entities.{ServerDatabase, server_database_clash}
use nexus_panel.Database.Orm.{Orm}
use nexus_panel.Database.Rows.{has_key}
use nexus_panel.Database.Panel.{not_found, internal, M, ◌>>=◌, ◌>>◌, pure, gets, modify, or_throw}
use nexus_panel.Eggs.Rows.{or_text}
use nexus_panel.Auth.Guards.{Identity}
use nexus_panel.Servers.Service.Owned.{get_server_with_access}

pub record CreateDatabaseDto : Type 0 where
  pub database : Option Text
  pub database_host_id : Text
  pub remote : Option Text
  pub max_connections : Option ℕ

pub record Draw : Type 0 where
  pub id : Text
  pub short_uuid : Text
  pub password_uuid : Text
  pub now : ℕ

abbrev pub database_id : ServerDatabase → Text
database_id d = d.id

abbrev pub of_server : Text → ServerDatabase → Bool
of_server server_id d = d.server_id == server_id

abbrev pub new_database : (server_id : Text) → CreateDatabaseDto → Draw → ServerDatabase
new_database server_id dto draw =
    let short_id = take 8 draw.short_uuid in
    record {
      id = draw.id;
      server_id = server_id;
      database_host_id = dto.database_host_id;
      database = or_text dto.database (codes "s" ++ (short_id ++ codes "_db"));
      username = codes "u" ++ short_id;
      password = draw.password_uuid;
      remote = get_or dto.remote (codes "%");
      max_connections = get_or dto.max_connections 0;
      created_at = draw.now;
      updated_at = draw.now;
    }

module _ (orm : Orm) where
  unfoldable pub find_by_server : Text → M (List ServerDatabase)
  find_by_server server_id = gets (λ p. orm.find (of_server server_id) p.databases)

  -- The limit of databases of a server is not asked, nor is the host told.
  unfoldable pub create : (server_id : Text) → CreateDatabaseDto → Draw → M ServerDatabase
  create server_id dto draw = do
    let database = new_database server_id dto draw
    stored ← gets (λ p. orm.insert server_database_clash database p.databases)
    databases ← or_throw internal stored
    modify (λ p. record p { databases = databases })
    pure database

  unfoldable pub delete : Text → M (Unit {0})
  delete id = do
    found ← gets (λ p. orm.find_one (has_key database_id id) p.databases)
    database ← or_throw (not_found "Database not found") found
    modify (λ p. record p { databases = orm.remove (has_key database_id database.id) p.databases })

pub data DatabaseRequest : Type 0 where
  list : DatabaseRequest
  create_one : CreateDatabaseDto → Draw → DatabaseRequest
  remove : (id : Text) → DatabaseRequest

pub data DatabaseAnswer : Type 0 where
  databases : List ServerDatabase → DatabaseAnswer
  database : ServerDatabase → DatabaseAnswer
  no_content : DatabaseAnswer

unfoldable pub handle : Orm → Identity → (uuid : Text) → DatabaseRequest → M DatabaseAnswer
handle orm user uuid list = do
  found ← get_server_with_access orm uuid user
  rows ← find_by_server orm found.server.id
  pure (databases rows)
handle orm user uuid (create_one dto draw) = do
  found ← get_server_with_access orm uuid user
  made ← create orm found.server.id dto draw
  pure (database made)
handle orm user uuid (remove id) = do
  _ ← get_server_with_access orm uuid user
  delete orm id
  pure no_content
