-- ===== src/Files/Access.antt =====
-- packages/backend/src/files/files.controller.ts: what leaves the panel for whom.
use nexus_panel.Common.{
  ℕ, ◌≡◌, ◌⊎◌, inl, inr, refl, true, false, some, List, ◌∷◌, ◌++◌, Option-cases, Bool-cases,
}
use nexus_panel.Common.Texts.{Text, codes, ◌==◌}
use mathlib.Core.Option.{get_or}
use nexus_panel.Database.Entities.{Server, Node}
use nexus_panel.Database.Orm.{Orm}
use nexus_panel.Database.Rows.{row, Distinct}
use nexus_panel.Database.Panel.{Panel, forbidden, err, M, after, pure}
use nexus_panel.Database.Requests.{same_panel}
use nexus_panel.Wings.Protocol.{HttpMethod, HttpBody, HttpCall, Network}
use nexus_panel.Wings.Client.{bearer, build_http_url}
use nexus_panel.Wings.Files
use nexus_panel.Wings.Files.{endpoint, encode_uri_component, http_request, post, read_response}
use nexus_panel.Auth.Guards.{Identity}
use nexus_panel.Servers.Service.{Loaded, server_uuid, load, check_access}
use nexus_panel.Servers.Service.Laws.{find_by_uuid_lem}
use nexus_panel.Servers.Service.Owned.{has_access, get_server_with_access}
use nexus_panel.Files.Controller.{
  FileRequest, list_directory, read_file, write_file, create_directory, rename, delete_files,
  compress, decompress, upload, FileAnswer, serve, handle,
}

-- Nothing was sent, or one HTTP request to the node, with its token, about the server.
abbrev pub Sends : Node → (uuid : Text) → Panel → Panel → Type 0
Sends n uuid p q =
    (q ≡ p)
    ⊎ ((call : HttpCall) × (q ≡ record p { http_calls = call ∷ p.http_calls })
        × (call.authorization ≡ bearer n)
        × ((rest : Text) × (call.url ≡ build_http_url n (endpoint uuid rest))))

module _ (net : Network) (n : Node) (uuid : Text) (p : Panel) where
  request-Sends :
      (method : HttpMethod) (rest : Text) (body : HttpBody)
      → Sends n uuid p (http_request net n method (endpoint uuid rest) body p).1
  unfolding http_request
  request-Sends method rest body = inr (_, refl, refl, (rest, refl))

  then-Sends :
      {A B : Type 0} (m : M A) (f : A → B)
      → Sends n uuid p (m p).1
      → Sends n uuid p (after (m p) (λ a. pure (f a))).1
  then-Sends m f h = rw (same_panel (m p) f) h

  post-Sends :
      (rest : Text) (body : HttpBody) → Sends n uuid p (post net n (endpoint uuid rest) body p).1
  unfolding post
  post-Sends rest body =
      then-Sends (http_request net n HttpMethod.post (endpoint uuid rest) body) (λ _. tt {0})
        (request-Sends HttpMethod.post rest body)

  list_files-Sends : (path : Text) → Sends n uuid p (Files.list_files net n uuid path p).1
  unfolding Files.list_files
  list_files-Sends path = elim (Option-cases (encode_uri_component path)) [
    | inl e ↦ rw (e, Files.list_files) (inl refl)
    | inr (t, e) ↦
        rw (e, Files.list_files)
          (request-Sends HttpMethod.get (codes "/files?path=" ++ t) HttpBody.no_body)
  ]

  read_file-Sends : (path : Text) → Sends n uuid p (Files.read_file net n uuid path p).1
  unfolding Files.read_file
  read_file-Sends path = elim (Option-cases (encode_uri_component path)) [
    | inl e ↦ rw (e, Files.read_file) (inl refl)
    | inr (t, e) ↦
        rw (e, Files.read_file)
          (request-Sends HttpMethod.get (codes "/files/read?path=" ++ t) HttpBody.no_body)
  ]

module _ (orm : Orm) (net : Network) (to_string : List ℕ → Text) where
  posted :
      (l : Loaded) (n : Node) (p : Panel) (rest : Text) (body : HttpBody) (done : FileAnswer)
      → Sends n l.server.uuid p
          (after (post net n (endpoint l.server.uuid rest) body p) (λ _. pure done)).1
  posted l n p rest body done =
      then-Sends net n l.server.uuid p (post net n (endpoint l.server.uuid rest) body) (λ _. done)
        (post-Sends net n l.server.uuid p rest body)

  -- Each endpoint sends at most one request, for a server whose node is stored.
  serve-Sends :
      (request : FileRequest) (l : Loaded) (n : Node) (p : Panel)
      → l.node ≡ some n
      → Sends n l.server.uuid p (serve orm net to_string request l p).1
  unfolding serve Files.write_file Files.create_directory Files.rename_file Files.delete_files
      Files.compress_files Files.decompress_file
  serve-Sends (list_directory path) l n p e =
      rw (e, serve)
        (then-Sends net n l.server.uuid p
          (Files.list_files net n l.server.uuid (get_or path (codes "/"))) FileAnswer.contents
          (list_files-Sends net n l.server.uuid p (get_or path (codes "/"))))
  serve-Sends (read_file path) l n p e =
      rw (e, serve)
        (then-Sends net n l.server.uuid p (Files.read_file net n l.server.uuid path)
          FileAnswer.contents (read_file-Sends net n l.server.uuid p path))
  serve-Sends (write_file path content) l n p e = rw (e, serve) (posted l n p _ _ _)
  serve-Sends (create_directory path name) l n p e = rw (e, serve) (posted l n p _ _ _)
  serve-Sends (rename path new_name) l n p e = rw (e, serve) (posted l n p _ _ _)
  serve-Sends (delete_files paths) l n p e = rw (e, serve) (posted l n p _ _ _)
  serve-Sends (compress paths destination) l n p e = rw (e, serve) (posted l n p _ _ _)
  serve-Sends (decompress path destination) l n p e = rw (e, serve) (posted l n p _ _ _)
  serve-Sends (upload path name buffer) l n p e = rw (e, serve) (posted l n p _ _ _)

  -- A request about the files of a stored server with a stored node, the uuids of servers distinct:
  -- without access it is refused and changes nothing; with access the panel sends nothing, or one HTTP
  -- request to the node of that server, with the token of the node and a path under the server's,
  -- and nothing else in the panel changes.
  pub handle-Sends :
      (user : Identity) (uuid : Text) (request : FileRequest) (p : Panel) (s : Server) (n : Node)
      → Distinct server_uuid p.servers
      → row server_uuid uuid p.servers ≡ some s
      → (load orm p s).node ≡ some n
      → ((has_access user s ≡ false)
          × (handle orm net to_string user uuid request p
              ≡ (err (forbidden "You do not have access to this server"), p)))
        ⊎ ((has_access user s ≡ true)
            × Sends n s.uuid p (handle orm net to_string user uuid request p).1)
  unfolding handle get_server_with_access check_access load
  handle-Sends user uuid request p s n d r stored =
      let found = find_by_uuid_lem orm uuid p s d r in
      let sends = serve-Sends request (load orm p s) n p stored in
      elim (Bool-cases user.root_admin) [
        | inl a ↦ inr (rw a, rw (found, handle) (rw (a, handle) sends))
        | inr a ↦ elim (Bool-cases (s.user_id == user.id)) [
          | inl o ↦ inr (rw (a, o), rw (found, handle) (rw (a, handle) (rw (o, handle) sends)))
          | inr o ↦ inl (rw (a, o), rw (found, handle) (rw (a, handle) (rw (o, handle))))
        ]
      ]
