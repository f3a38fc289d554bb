-- ===== src/Wings/Files/Query.antt =====
-- packages/backend/src/wings/wings.service.ts: the requests of listFiles and readFile, and what the daemon reads in
-- their queries. encodeURIComponent is the language's.
use nexus_panel.Common.{
  ℕ, ◌/◌, ◌%◌, ◌≡◌, ◌⊎◌, inl, inr, refl, Bool, true, false, ◌||◌, Option, none, some, List, [], ◌∷◌,
  ◌++◌, nat_eq, any, arith, Bool-cases,
}
use nexus_panel.Common.Texts.{Text, codes}
use nexus_panel.Database.Entities.{Node}
use nexus_panel.Database.Panel.{Panel, Result, internal, err}
use nexus_panel.Wings.Protocol.{HttpMethod, HttpBody, Network}
use nexus_panel.Wings.Client.{bearer, build_http_url}
use nexus_panel.Wings.Files.{
  is_unreserved, hex_digit, utf8, escape, is_high_surrogate, is_low_surrogate, code_point,
  encode_from, http_request, list_files, read_file,
}
use nexus_panel.Wings.Files.Url.{
  IsUtf16, is_surrogate, decode, before-some, decode-encode_uri_component,
}

-- What would end the value of a query, or be read as a space.
abbrev pub ends_value : ℕ → Bool
ends_value c = nat_eq c b'&' || nat_eq c b'#' || nat_eq c b'+' || nat_eq c b' '

append-closed :
    (a b : Text)
    → any ends_value a ≡ false
    → any ends_value b ≡ false
    → any ends_value (a ++ b) ≡ false
append-closed [] b h k = k
append-closed (x ∷ a) b h k = ground (arith, append-closed a b)

hex_digit-closed : (n : ℕ) → ends_value (hex_digit n) ≡ false
hex_digit-closed n = ground arith

escape-closed : (bs : List ℕ) → any ends_value (escape bs) ≡ false
escape-closed [] = refl
escape-closed (b ∷ bs) =
    rw (hex_digit-closed (b / 16)) (rw (hex_digit-closed (b % 16)) (escape-closed bs))

encode_from-closed :
    (o : Option ℕ) (s t : Text) → encode_from o s ≡ some t → any ends_value t ≡ false
unfolding encode_from
encode_from-closed none [] t h = let e : t ≡ [] = cc in rw (e) refl
encode_from-closed (some high) [] t h = cc
encode_from-closed none (c ∷ s) t h = elim (Bool-cases (is_unreserved c)) [
  | inl a ↦
      let (rest, e, q) = before-some (c ∷ []) (encode_from none s) t (rw (a, encode_from) at h) in
      rw (← q) (append-closed (c ∷ []) rest (ground arith) (encode_from-closed none s rest e))
  | inr a ↦ elim (Bool-cases (is_high_surrogate c)) [
    | inl b ↦ encode_from-closed (some c) s t (rw (a, b, encode_from) at h)
    | inr b ↦ elim (Bool-cases (is_low_surrogate c)) [
      | inl d ↦ let bad = rw (a, b, d, encode_from) at h in cc
      | inr d ↦
          let (rest, e, q) =
            before-some (escape (utf8 c)) (encode_from none s) t (rw (a, b, d, encode_from) at h) in
          rw (← q) (
            append-closed (escape (utf8 c)) rest (escape-closed (utf8 c))
              (encode_from-closed none s rest e))
    ]
  ]
]
encode_from-closed (some high) (c ∷ s) t h = elim (Bool-cases (is_low_surrogate c)) [
  | inr a ↦ let bad = rw (a, encode_from) at h in cc
  | inl a ↦
      let code = code_point high c in
      let (rest, e, q) =
        before-some (escape (utf8 code)) (encode_from none s) t (rw (a, encode_from) at h) in
      rw (← q) (
        append-closed (escape (utf8 code)) rest (escape-closed (utf8 code))
          (encode_from-closed none s rest e))
]

-- A request went to the node for this part of a server, and its query holds the path: nothing in it ends it, and
-- decoded it is the path. Or nothing was sent, and the path has a surrogate.
abbrev pub Asks : Node → (uuid rest path : Text) → Panel → Result Text × Panel → Type 0
Asks node uuid rest path p r =
    ((query : Text) × (r.1 ≡ record p {
      http_calls =
          (record {
            method = HttpMethod.get;
            url = build_http_url node (codes "/servers/" ++ (uuid ++ (rest ++ query)));
            authorization = bearer node;
            body = HttpBody.no_body;
          })
          ∷ p.http_calls;
    })
      × (any ends_value query ≡ false)
      × (decode query ≡ path))
    ⊎ ((r ≡ (err internal, p)) × (any is_surrogate path ≡ true))

module _ (net : Network) (node : Node) (uuid path : Text) (p : Panel) where
  -- For a path of 16-bit units, listFiles and readFile each send one request with the token of the node to its
  -- address, for the files of the server: the value of the query is not ended by a part of the path,
  -- and the daemon that decodes it, byte by byte, reads the path. A path with a surrogate may fail,
  -- and then nothing is sent.
  pub file_queries_lem :
      IsUtf16 path
      → Asks node uuid (codes "/files?path=") path p (list_files net node uuid path p)
        × Asks node uuid (codes "/files/read?path=") path p (read_file net node uuid path p)
  unfolding list_files read_file http_request
  file_queries_lem u = elim (decode-encode_uri_component path u) [
    | inl (t, e, d) ↦
        let closed = encode_from-closed none path t e in
        (inl (t, rw (e) refl, closed, d), inl (t, rw (e) refl, closed, d))
    | inr (e, bad) ↦ (inr (rw (e) refl, bad), inr (rw (e) refl, bad))
  ]
