-- ===== src/Files/Service.antt =====
-- packages/backend/src/files/files.service.ts: each operation is handed on to the Wings service.
use nexus_panel.Common.{List}
use nexus_panel.Common.Texts.{Text}
use nexus_panel.Database.Entities.{Node}
use nexus_panel.Database.Panel.{M}
use nexus_panel.Wings.Protocol.{Network}
use nexus_panel.Wings.Files

module _ (net : Network) where
  abbrev pub list_directory : Node → (server_uuid path : Text) → M Text
  list_directory node server_uuid path = Files.list_files net node server_uuid path

  abbrev pub read_file : Node → (server_uuid path : Text) → M Text
  read_file node server_uuid path = Files.read_file net node server_uuid path

  abbrev pub write_file : Node → (server_uuid path content : Text) → M (Unit {0})
  write_file node server_uuid path content = Files.write_file net node server_uuid path content

  abbrev pub create_directory : Node → (server_uuid path : Text) → M (Unit {0})
  create_directory node server_uuid path = Files.create_directory net node server_uuid path

  abbrev pub rename : Node → (server_uuid path new_name : Text) → M (Unit {0})
  rename node server_uuid path new_name = Files.rename_file net node server_uuid path new_name

  abbrev pub delete_files : Node → Text → List Text → M (Unit {0})
  delete_files node server_uuid paths = Files.delete_files net node server_uuid paths

  abbrev pub compress : Node → Text → List Text → Text → M (Unit {0})
  compress node server_uuid paths destination =
      Files.compress_files net node server_uuid paths destination

  abbrev pub decompress : Node → (server_uuid path destination : Text) → M (Unit {0})
  decompress node server_uuid path destination =
      Files.decompress_file net node server_uuid path destination
