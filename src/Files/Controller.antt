-- ===== src/Files/Controller.antt =====
-- packages/backend/src/files/files.controller.ts, behind its guard of the token. The bytes of an upload
-- become text by `to_string`, which stands for `buffer.toString('utf-8')`.
use nexus_panel.Common.{ℕ, Option, List, ◌∷◌, ◌++◌, String}
use nexus_panel.Common.Texts.{Text, codes}
use mathlib.Core.Option.{get_or}
use nexus_panel.Database.Orm.{Orm}
use nexus_panel.Database.Panel.{M, ◌>>=◌, ◌>>◌, pure}
use nexus_panel.Wings.Protocol.{Network}
use nexus_panel.Auth.Crypto.{Crypto}
use nexus_panel.Auth.Guards.{HttpRequest, Identity, jwt_auth_guard}
use nexus_panel.Servers.Service.{Loaded, need}
use nexus_panel.Servers.Service.Owned.{get_server_with_access}
use nexus_panel.Files.Service

-- The endpoints with their query and body. A path that is absent is `none`.
pub data FileRequest : Type 0 where
  list_directory : (path : Option Text) → FileRequest
  read_file : (path : Text) → FileRequest
  write_file : (path content : Text) → FileRequest
  create_directory : (path name : Text) → FileRequest
  rename : (path new_name : Text) → FileRequest
  delete_files : (paths : List Text) → FileRequest
  compress : (paths : List Text) → (destination : Text) → FileRequest
  decompress : (path destination : Text) → FileRequest
  upload : (path : Option Text) → (name : Text) → (buffer : List ℕ) → FileRequest

pub data FileAnswer : Type 0 where
  contents : Text → FileAnswer
  message : String → FileAnswer

abbrev pub in_directory : (path name : Text) → Text
in_directory path name = path ++ b'/' ∷ name

module _ (orm : Orm) (net : Network) (to_string : List ℕ → Text) where
  -- What the handlers do once they have the server.
  unfoldable pub serve : FileRequest → Loaded → M FileAnswer
  serve (list_directory path) found = do
    node ← need found.node
    text ← Service.list_directory net node found.server.uuid (get_or path (codes "/"))
    pure (contents text)
  serve (read_file path) found = do
    node ← need found.node
    text ← Service.read_file net node found.server.uuid path
    pure (contents text)
  serve (write_file path content) found = do
    node ← need found.node
    Service.write_file net node found.server.uuid path content
    pure (message "File written successfully")
  serve (create_directory path name) found = do
    node ← need found.node
    Service.create_directory net node found.server.uuid (in_directory path name)
    pure (message "Directory created successfully")
  serve (rename path new_name) found = do
    node ← need found.node
    Service.rename net node found.server.uuid path new_name
    pure (message "File renamed successfully")
  serve (delete_files paths) found = do
    node ← need found.node
    Service.delete_files net node found.server.uuid paths
    pure (message "Files deleted successfully")
  serve (compress paths destination) found = do
    node ← need found.node
    Service.compress net node found.server.uuid paths destination
    pure (message "Files compressed successfully")
  serve (decompress path destination) found = do
    node ← need found.node
    Service.decompress net node found.server.uuid path destination
    pure (message "Archive decompressed successfully")
  serve (upload path name buffer) found = do
    node ← need found.node
    Service.write_file net node found.server.uuid (in_directory (get_or path (codes "/")) name)
        (to_string buffer)
    pure (message "File uploaded successfully")

  unfoldable pub handle : Identity → (uuid : Text) → FileRequest → M FileAnswer
  handle user uuid request = do found ← get_server_with_access orm uuid user; serve request found

  unfoldable pub route :
      Crypto
      → (Option Text → Option Text)
      → HttpRequest
      → (uuid : Text) → FileRequest
      → M FileAnswer
  route crypto from_auth_header http uuid request = do
    user ← jwt_auth_guard orm crypto from_auth_header http
    handle user uuid request
