-- ===== src/Wings/Files.antt =====
-- packages/backend/src/wings/wings.service.ts: the file operations, which go over HTTP.
pub mod Url
pub mod Query
use nexus_panel.Common.{
  ℕ, ◌+◌, ◌-◌, ◌*◌, ◌/◌, ◌%◌, Bool, true, false, ◌&&◌, ◌||◌, Option, none, some, List, [], ◌∷◌,
  ◌++◌, if◌then◌else◌, leb, ltb, nat_eq, any,
}
use nexus_panel.Common.Texts.{Text, codes}
use nexus_panel.Database.Entities.{Node}
use nexus_panel.Database.Panel.{
  Panel, internal, wings_error, Result, ok, err, M, ◌>>=◌, ◌>>◌, pure, or_throw,
}
use nexus_panel.Wings.Protocol.{
  HttpMethod, HttpBody, HttpCall, HttpReply, responded, lost, Network, decimal,
}
use nexus_panel.Wings.Client.{bearer, build_http_url}

-- The code units that `encodeURIComponent` leaves as they are.
abbrev pub is_unreserved : ℕ → Bool
is_unreserved c =
    leb b'A' c && leb c b'Z'
    || leb b'a' c && leb c b'z'
    || leb b'0' c && leb c b'9'
    || any (λ d. nat_eq c d) (codes "-_.!~*'()")

abbrev pub hex_digit : ℕ → ℕ
hex_digit n = if ltb n 10 then 48 + n else 55 + n

-- The bytes of a code point in UTF-8.
abbrev pub utf8 : ℕ → List ℕ
utf8 c =
    if ltb c 128
    then c ∷ []
    else if ltb c 2048
    then (192 + c / 64) ∷ (128 + c % 64) ∷ []
    else if ltb c 65536
    then (224 + c / 4096) ∷ (128 + c / 64 % 64) ∷ (128 + c % 64) ∷ []
    else (240 + c / 262144) ∷ (128 + c / 4096 % 64) ∷ (128 + c / 64 % 64) ∷ (128 + c % 64) ∷ []

abbrev pub escape : List ℕ → Text
escape [] = []
escape (b ∷ bs) = b'%' ∷ hex_digit (b / 16) ∷ hex_digit (b % 16) ∷ escape bs

abbrev pub is_high_surrogate : ℕ → Bool
is_high_surrogate c = leb 55296 c && leb c 56319

abbrev pub is_low_surrogate : ℕ → Bool
is_low_surrogate c = leb 56320 c && leb c 57343

abbrev pub code_point : (high low : ℕ) → ℕ
code_point high low = 65536 + (high - 55296) * 1024 + (low - 56320)

-- Text put before the rest, where there is one.
abbrev pub before : Text → Option Text → Option Text
before t none = none
before t (some rest) = some (t ++ rest)

-- The encoding, with the high surrogate that waits for its other half. It throws at a surrogate that has
-- none.
unfoldable pub encode_from : Option ℕ → Text → Option Text
encode_from none [] = some []
encode_from (some high) [] = none
encode_from none (c ∷ s) =
    let kept = before (c ∷ []) (encode_from none s) in
    let paired = encode_from (some c) s in
    let escaped = before (escape (utf8 c)) (encode_from none s) in
    if is_unreserved c
    then kept
    else if is_high_surrogate c
    then paired
    else if is_low_surrogate c
    then none
    else escaped
encode_from (some high) (c ∷ s) =
    let escaped = before (escape (utf8 (code_point high c))) (encode_from none s) in
    if is_low_surrogate c then escaped else none

-- `encodeURIComponent(s)`.
abbrev pub encode_uri_component : Text → Option Text
encode_uri_component s = encode_from none s

-- The path of an endpoint of a server.
abbrev pub endpoint : (server_uuid : Text) → Text → Text
endpoint server_uuid rest = codes "/servers/" ++ (server_uuid ++ rest)

module _ (net : Network) where
  -- A response that is not ok throws, with its status and its text.
  abbrev pub read_response : HttpReply → Result Text
  read_response (responded true status text) = ok text
  read_response (responded false status text) =
      err (wings_error (codes "Wings HTTP error " ++ (decimal status ++ (codes ": " ++ text))))
  read_response (lost message) = err (wings_error message)

  unfoldable pub http_request : Node → HttpMethod → (path : Text) → HttpBody → M Text
  http_request node method path body p =
      let call : HttpCall = record {
        method = method;
        url = build_http_url node path;
        authorization = bearer node;
        body = body;
      } in
      (
        read_response (net.fetch p.calls p.http_calls call),
        record p { http_calls = call ∷ p.http_calls },
      )

  -- The same where the answer is dropped.
  unfoldable pub post : Node → (path : Text) → HttpBody → M (Unit {0})
  post node path body = do _ ← http_request node HttpMethod.post path body; pure tt

  unfoldable pub list_files : Node → (server_uuid path : Text) → M Text
  list_files node server_uuid path = do
    encoded ← or_throw internal (encode_uri_component path)
    http_request node HttpMethod.get (endpoint server_uuid (codes "/files?path=" ++ encoded))
        HttpBody.no_body

  unfoldable pub read_file : Node → (server_uuid path : Text) → M Text
  read_file node server_uuid path = do
    encoded ← or_throw internal (encode_uri_component path)
    http_request node HttpMethod.get (endpoint server_uuid (codes "/files/read?path=" ++ encoded))
        HttpBody.no_body

  unfoldable pub write_file : Node → (server_uuid path content : Text) → M (Unit {0})
  write_file node server_uuid path content =
      post node (endpoint server_uuid (codes "/files/write")) (HttpBody.write_file path content)

  unfoldable pub delete_files : Node → Text → List Text → M (Unit {0})
  delete_files node server_uuid paths =
      post node (endpoint server_uuid (codes "/files/delete")) (HttpBody.paths_only paths)

  unfoldable pub compress_files : Node → Text → List Text → Text → M (Unit {0})
  compress_files node server_uuid paths destination =
      post node (endpoint server_uuid (codes "/files/compress"))
        (HttpBody.compress paths destination)

  unfoldable pub decompress_file : Node → (server_uuid path destination : Text) → M (Unit {0})
  decompress_file node server_uuid path destination =
      post node (endpoint server_uuid (codes "/files/decompress"))
        (HttpBody.decompress path destination)

  unfoldable pub create_directory : Node → (server_uuid path : Text) → M (Unit {0})
  create_directory node server_uuid path =
      post node (endpoint server_uuid (codes "/files/directory")) (HttpBody.path_only path)

  unfoldable pub rename_file : Node → (server_uuid path new_name : Text) → M (Unit {0})
  rename_file node server_uuid path new_name =
      post node (endpoint server_uuid (codes "/files/rename")) (HttpBody.rename_file path new_name)
