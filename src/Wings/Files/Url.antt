-- ===== src/Wings/Files/Url.antt =====
-- packages/backend/src/wings/wings.service.ts: what a path becomes in the query of a URL, and what the daemon reads
-- there. The decoder is a description of percent signs and UTF-8 that does not follow the encoder: it reads
-- byte by byte.
use nexus_panel.Common.{
  ℕ, zero, suc, ◌+◌, ◌-◌, ◌*◌, ◌/◌, ◌%◌, ◌<◌, ◌≡◌, ◌⊎◌, inl, inr, refl, ap, ◌∙◌, Bool, true, false,
  ◌||◌, Option, none, some, List, [], ◌∷◌, ◌++◌, if◌then◌else◌, leb, ltb, nat_eq, any, arith, All,
  Bool-cases, Option-cases,
}
use nexus_panel.Common.Texts.{Text}
use nexus_panel.Wings.Files.{
  is_unreserved, hex_digit, utf8, escape, is_high_surrogate, is_low_surrogate, code_point, before,
  encode_from, encode_uri_component,
}

-- The units of a text are below 2^16.
abbrev pub IsUtf16 : Text → Type 0
IsUtf16 s = All (λ c. c < 65536) s

abbrev pub is_surrogate : ℕ → Bool
is_surrogate c = is_high_surrogate c || is_low_surrogate c

abbrev unhex : ℕ → ℕ
unhex c = if leb c 57 then c - 48 else c - 55

-- The bytes of a text with percent signs.
abbrev pub unescape : Text → List ℕ
unescape [] = []
unescape (c ∷ []) = c ∷ []
unescape (c ∷ h ∷ []) = c ∷ h ∷ []
unescape (c ∷ h ∷ l ∷ s) =
    let past = unescape s in
    let next = unescape (h ∷ l ∷ s) in
    if nat_eq c b'%' then (unhex h * 16 + unhex l) ∷ past else c ∷ next

-- A code point in UTF-16.
abbrev units : ℕ → Text
units v =
    if ltb v 65536 then v ∷ [] else (55296 + (v - 65536) / 1024) ∷ (56320 + (v - 65536) % 1024) ∷ []

-- UTF-8, with the bytes that a code point still lacks and its bits so far.
abbrev pub read_utf8 : ℕ → ℕ → List ℕ → Text
read_utf8 need bits [] = []
read_utf8 zero bits (b ∷ s) =
    let one = read_utf8 0 0 s in
    let two = read_utf8 1 (b - 192) s in
    let three = read_utf8 2 (b - 224) s in
    let four = read_utf8 3 (b - 240) s in
    if ltb b 128 then b ∷ one else if ltb b 224 then two else if ltb b 240 then three else four
read_utf8 (suc zero) bits (b ∷ s) = units (bits * 64 + (b - 128)) ++ read_utf8 0 0 s
read_utf8 (suc (suc n)) bits (b ∷ s) = read_utf8 (suc n) (bits * 64 + (b - 128)) s

abbrev pub decode : Text → Text
decode t = read_utf8 0 0 (unescape t)

unhex-hex_digit : (n : ℕ) → n < 16 → unhex (hex_digit n) ≡ n
unhex-hex_digit n h = ground arith

unescape-plain : (c : ℕ) (t : Text) → nat_eq c b'%' ≡ false → unescape (c ∷ t) ≡ c ∷ unescape t
unescape-plain c [] h = refl
unescape-plain c (d ∷ []) h = refl
unescape-plain c (d ∷ l ∷ s) h = rw (h) refl

unescape-escape :
    (bs : List ℕ) (t : Text) → All (λ b. b < 256) bs → unescape (escape bs ++ t) ≡ bs ++ unescape t
unescape-escape [] t h = refl
unescape-escape (b ∷ bs) t (h, hs) =
    let byte : unhex (hex_digit (b / 16)) * 16 + unhex (hex_digit (b % 16)) ≡ b =
      rw (unhex-hex_digit (b / 16) (omega arith), unhex-hex_digit (b % 16) (omega arith))
        (omega arith) in
    rw (byte) (ap (λ r. b ∷ r) (unescape-escape bs t hs))

utf8-bytes : (c : ℕ) → c < 1114112 → All (λ b. b < 256) (utf8 c)
utf8-bytes c h = ground arith

read_utf8-utf8 :
    (c : ℕ) (s : List ℕ) → c < 1114112 → read_utf8 0 0 (utf8 c ++ s) ≡ units c ++ read_utf8 0 0 s
read_utf8-utf8 c s h = elim (Bool-cases (ltb c 128)) [
  | inl a ↦ rw (a) (rw (a, let e : ltb c 65536 ≡ true = ground arith in e) refl)
  | inr a ↦ elim (Bool-cases (ltb c 2048)) [
    | inl b ↦
        let low : ltb (192 + c / 64) 128 ≡ false = ground arith in
        let two : ltb (192 + c / 64) 224 ≡ true = ground arith in
        let back : (192 + c / 64 - 192) * 64 + (128 + c % 64 - 128) ≡ c = omega arith in
        rw (a, b) (rw (low, two) (rw (back) refl))
    | inr b ↦ elim (Bool-cases (ltb c 65536)) [
      | inl d ↦
          let low : ltb (224 + c / 4096) 128 ≡ false = ground arith in
          let two : ltb (224 + c / 4096) 224 ≡ false = ground arith in
          let three : ltb (224 + c / 4096) 240 ≡ true = ground arith in
          let back : ((224 + c / 4096 - 224) * 64 + (128 + c / 64 % 64 - 128)) * 64
                + (128 + c % 64 - 128)
              ≡ c =
            omega arith in
          rw (a, b, d) (rw (low, two, three) (rw (back) (rw (d) refl)))
      | inr d ↦
          let low : ltb (240 + c / 262144) 128 ≡ false = ground arith in
          let two : ltb (240 + c / 262144) 224 ≡ false = ground arith in
          let three : ltb (240 + c / 262144) 240 ≡ false = ground arith in
          let back : (((240 + c / 262144 - 240) * 64 + (128 + c / 4096 % 64 - 128)) * 64
                    + (128 + c / 64 % 64 - 128))
                  * 64
                + (128 + c % 64 - 128)
              ≡ c =
            omega arith in
          rw (a, b, d) (rw (low, two, three) (rw (back) (rw (d) refl)))
    ]
  ]
]

units-code_point :
    (h l : ℕ)
    → is_high_surrogate h ≡ true
    → is_low_surrogate l ≡ true
    → units (code_point h l) ≡ h ∷ l ∷ []
units-code_point h l a b =
    let high : ltb (code_point h l) 65536 ≡ false = ground arith in
    let first : 55296 + (code_point h l - 65536) / 1024 ≡ h = ground arith in
    let second : 56320 + (code_point h l - 65536) % 1024 ≡ l = ground arith in
    rw (high) (rw (first, second) refl)

decode-plain : (c : ℕ) (t : Text) → is_unreserved c ≡ true → decode (c ∷ t) ≡ c ∷ decode t
decode-plain c t h =
    let plain : nat_eq c b'%' ≡ false = ground arith in
    let low : ltb c 128 ≡ true = ground arith in rw (unescape-plain c t plain) (rw (low) refl)

decode-escape :
    (c : ℕ) (t : Text) → c < 1114112 → decode (escape (utf8 c) ++ t) ≡ units c ++ decode t
decode-escape c t h =
    rw (unescape-escape (utf8 c) t (utf8-bytes c h)) (read_utf8-utf8 c (unescape t) h)

-- An encoding put together is the first piece and the encoding of the rest.
pub before-some :
    (t : Text) (o : Option Text) (r : Text)
    → before t o ≡ some r
    → (rest : Text) × (o ≡ some rest) × (t ++ rest ≡ r)
before-some t none r h = cc
before-some t (some rest) r h = (rest, refl, cc)

before-none : (t : Text) (o : Option Text) → before t o ≡ none → o ≡ none
before-none t none h = refl
before-none t (some rest) h = cc

-- The high surrogate that waits for its other half.
abbrev waiting : Option ℕ → Text
waiting none = []
waiting (some high) = high ∷ []

abbrev IsHigh : Option ℕ → Type 0
IsHigh none = Unit
IsHigh (some high) = is_high_surrogate high ≡ true

decode-encode_from :
    (o : Option ℕ) (s t : Text)
    → IsHigh o
    → IsUtf16 s
    → encode_from o s ≡ some t
    → decode t ≡ waiting o ++ s
unfolding encode_from
decode-encode_from none [] t k u h = let e : t ≡ [] = cc in rw (e) refl
decode-encode_from (some high) [] t k u h = cc
decode-encode_from none (c ∷ s) t k (v, u) h = elim (Bool-cases (is_unreserved c)) [
  | inl a ↦
      let (rest, e, q) = before-some (c ∷ []) (encode_from none s) t (rw (a, encode_from) at h) in
      rw (← q) (decode-plain c rest a ∙ ap (λ r. c ∷ r) (decode-encode_from none s rest k u e))
  | inr a ↦ elim (Bool-cases (is_high_surrogate c)) [
    | inl b ↦ decode-encode_from (some c) s t b u (rw (a, b, encode_from) at h)
    | inr b ↦ elim (Bool-cases (is_low_surrogate c)) [
      | inl d ↦ let bad = rw (a, b, d, encode_from) at h in cc
      | inr d ↦
          let (rest, e, q) =
            before-some (escape (utf8 c)) (encode_from none s) t (rw (a, b, d, encode_from) at h) in
          rw (← q) (
            decode-escape c rest (omega (arith, v))
            ∙ rw (let w : ltb c 65536 ≡ true = ground arith in w)
                (ap (λ r. c ∷ r) (decode-encode_from none s rest k u e)))
    ]
  ]
]
decode-encode_from (some high) (c ∷ s) t k (v, u) h = elim (Bool-cases (is_low_surrogate c)) [
  | inr a ↦ let bad = rw (a, encode_from) at h in cc
  | inl a ↦
      let (rest, e, q) =
        before-some (escape (utf8 (code_point high c))) (encode_from none s) t
          (rw (a, encode_from) at h) in
      rw (← q) (
        decode-escape (code_point high c) rest (ground arith)
        ∙ rw (units-code_point high c k a)
            (ap (λ r. high ∷ c ∷ r) (decode-encode_from none s rest tt u e)))
]

encode_from-none :
    (o : Option ℕ) (s : Text)
    → IsHigh o
    → encode_from o s ≡ none
    → any is_surrogate (waiting o ++ s) ≡ true
unfolding encode_from
encode_from-none none [] k h = cc
encode_from-none (some high) [] k h = ground arith
encode_from-none none (c ∷ s) k h = elim (Bool-cases (is_unreserved c)) [
  | inl a ↦
      let e = before-none (c ∷ []) (encode_from none s) (rw (a, encode_from) at h) in
      ground (arith, encode_from-none none s k e)
  | inr a ↦ elim (Bool-cases (is_high_surrogate c)) [
    | inl b ↦ ground arith
    | inr b ↦ elim (Bool-cases (is_low_surrogate c)) [
      | inl d ↦ ground arith
      | inr d ↦
          let e =
            before-none (escape (utf8 c)) (encode_from none s) (rw (a, b, d, encode_from) at h) in
          ground (arith, encode_from-none none s k e)
    ]
  ]
]
encode_from-none (some high) (c ∷ s) k h = ground arith

-- The daemon reads the path that was asked for: the encoding of a text of 16-bit units decodes to that text, and
-- there is one unless the text has a surrogate.
pub decode-encode_uri_component :
    (s : Text)
    → IsUtf16 s
    → ((t : Text) × (encode_uri_component s ≡ some t) × (decode t ≡ s))
      ⊎ ((encode_uri_component s ≡ none) × (any is_surrogate s ≡ true))
decode-encode_uri_component s u = elim (Option-cases (encode_uri_component s)) [
  | inl e ↦ inr (e, encode_from-none none s tt e)
  | inr (t, e) ↦ inl (t, e, decode-encode_from none s t tt u e)
]
