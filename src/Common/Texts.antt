-- ===== src/Common/Texts.antt =====
-- JavaScript strings as lists of UTF-16 code units, with the string methods that the sources call.
use Prim.Native.Char.{code}
use Prim.Native.Nat.{ℕ}
use Prim.Native.String.{String}
use mathlib.Core.Path.{◌≡◌, refl}
use mathlib.Core.Logic.{◌↔◌}
use mathlib.Core.Bool.{Bool, true, false, ◌&&◌, ◌||◌}
use mathlib.Core.Option.{Option, none, some}
use mathlib.Core.List.{List, [], ◌∷◌, ◌++◌, reverse}
use native.Mathlib.Omega.{arith}
use nexus_panel.Common.Tests.{nat_eq, leb, if◌then◌else◌}
use nexus_panel.Common.Lists.{any}

abbrev pub Text : Type 0
Text = List ℕ

-- A literal of the source, which is ASCII.
abbrev pub codes : String → Text
codes String.[] = []
codes (String.◌∷◌ c s) = code c ∷ codes s

infix 50 ◌==◌
unfoldable pub ◌==◌ : Text → Text → Bool
[] == [] = true
[] == (d ∷ t) = false
(c ∷ s) == [] = false
(c ∷ s) == (d ∷ t) = nat_eq c d && s == t

==_sound : (s t : Text) → (s == t) ≡ true → s ≡ t
unfolding ◌==◌
==_sound [] [] h = refl
==_sound [] (d ∷ t) h = cc
==_sound (c ∷ s) [] h = cc
==_sound (c ∷ s) (d ∷ t) h = ground (arith, ==_sound s t (ground arith))

pub ==_refl : (s : Text) → (s == s) ≡ true
unfolding ◌==◌
==_refl [] = refl
==_refl (c ∷ s) = ground (arith, ==_refl s)

pub eq_iff : (s t : Text) → ((s == t) ≡ true) ↔ (s ≡ t)
eq_iff s t = (==_sound s t, λ e. rw e (==_refl t))

pub eq_comm : (s t : Text) → (s == t) ≡ (t == s)
eq_comm s t = ground (arith, eq_iff s t, eq_iff t s)

-- `list.includes(s)`.
abbrev pub includes : List Text → Text → Bool
includes ts s = any (λ t. t == s) ts

-- `s.startsWith(prefix)`, with the rest of `s`.
unfoldable pub strip_prefix : Text → Text → Option Text
strip_prefix [] s = some s
strip_prefix (c ∷ p) [] = none
strip_prefix (c ∷ p) (d ∷ s) = let rest = strip_prefix p s in if nat_eq c d then rest else none

pub strip_prefix_sound : (p s r : Text) → strip_prefix p s ≡ some r → s ≡ p ++ r
unfolding strip_prefix
strip_prefix_sound [] s r h = ground arith
strip_prefix_sound (c ∷ p) [] r h = cc
strip_prefix_sound (c ∷ p) (d ∷ s) r h = ground (arith, strip_prefix_sound p s r)

pub strip_prefix-append : (p r : Text) → strip_prefix p (p ++ r) ≡ some r
unfolding strip_prefix
strip_prefix-append [] r = refl
strip_prefix-append (c ∷ p) r = ground (arith, strip_prefix-append p r)

-- What stands before and after the first occurrence of a code unit: `indexOf` with two `slice`s.
unfoldable pub cut_at : ℕ → Text → Option (Text × Text)
cut_at c [] = none
cut_at c (d ∷ s) = elim (nat_eq d c) [
  | true ↦ some ([], s)
  | false ↦ elim (cut_at c s) [ none ↦ none | some (a, b) ↦ some (d ∷ a, b) ]
]

-- `s.split(c)` for a separator of one code unit.
prepend : ℕ → List Text → List Text
prepend c [] = (c ∷ []) ∷ []
prepend c (t ∷ ts) = (c ∷ t) ∷ ts

unfoldable pub split_on : ℕ → Text → List Text
unfolding prepend
split_on c [] = [] ∷ []
split_on c (d ∷ s) = let rest = split_on c s in if nat_eq d c then [] ∷ rest else prepend d rest

-- White space and line terminators, which `trim` removes.
unfoldable pub is_space : ℕ → Bool
is_space c =
    (leb 9 c && leb c 13)
    || nat_eq c 32
    || nat_eq c 160
    || nat_eq c 5760
    || (leb 8192 c && leb c 8202)
    || nat_eq c 8232
    || nat_eq c 8233
    || nat_eq c 8239
    || nat_eq c 8287
    || nat_eq c 12288
    || nat_eq c 65279

unfoldable pub drop_spaces : Text → Text
unfolding is_space
drop_spaces [] = []
drop_spaces (c ∷ s) = let rest = drop_spaces s in if is_space c then rest else c ∷ s

-- `s.trim()`.
unfoldable pub trim : Text → Text
unfolding drop_spaces
trim s = reverse (drop_spaces (reverse (drop_spaces s)))

trim_test : trim (codes "  a b ") ≡ codes "a b"
unfolding trim
trim_test = refl

split_on_test : split_on b'|' (codes "a||b") ≡ codes "a" ∷ [] ∷ codes "b" ∷ []
unfolding split_on
split_on_test = refl

-- What stands before the last occurrence of a code unit: `slice(0, lastIndexOf(c))`.
unfoldable pub before_last : ℕ → Text → Option Text
before_last c [] = none
before_last c (d ∷ s) = elim (before_last c s) [
  | some t ↦ some (d ∷ t)
  | none ↦ if nat_eq d c then some [] else none
]

-- `list.join(separator)`.
unfoldable pub join : Text → List Text → Text
join sep [] = []
join sep (t ∷ []) = t
join sep (t ∷ u ∷ ts) = t ++ (sep ++ join sep (u ∷ ts))
