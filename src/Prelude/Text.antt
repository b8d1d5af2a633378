-- ===== src/Prelude/Text.antt =====
-- A Go string is its list of bytes. The functions of package strings that the code calls, byte for
-- byte as Go computes them where a letter of ASCII is met: the three letters of Unicode whose case
-- leads into ASCII are read in their UTF-8 form, other bytes from 128 on are left as they are.
use Prim.Native.Char.{code}
use Prim.Native.String.{String}
use Prim.Native.Nat.{ℕ, zero, suc, ◌+◌, ◌<◌}
use mathlib.Core.Path.{◌≡◌, refl}
use mathlib.Core.Logic.{◌≢◌, ◌↔◌}
use mathlib.Core.Bool.{Bool, true, false, ◌&&◌, ◌||◌}
use mathlib.Core.Option.{Option, none, some}
use mathlib.Core.List.{List, [], ◌∷◌, ◌++◌}
use native.Mathlib.Omega.{arith}
use go_vai_oidc.Prelude.Tests.{leb, ◌==◌, if◌then◌else◌}
use go_vai_oidc.Prelude.Lists.{any, All}

abbrev pub Str : Type 0
Str = List ℕ

unfoldable pub codes : String → Str
codes String.[] = []
codes (String.◌∷◌ c s) = code c ∷ codes s

unfoldable pub str_eq : Str → Str → Bool
str_eq [] [] = true
str_eq (a ∷ s) (b ∷ t) = a == b && str_eq s t
str_eq [] (b ∷ t) = false
str_eq (a ∷ s) [] = false

str_eq→eq : (s t : Str) → str_eq s t ≡ true → s ≡ t
unfolding str_eq
str_eq→eq [] [] h = refl
str_eq→eq (a ∷ s) (b ∷ t) h = ground (arith, str_eq→eq s t)
str_eq→eq [] (b ∷ t) h = cc
str_eq→eq (a ∷ s) [] h = cc

pub str_eq_self : (s : Str) → str_eq s s ≡ true
unfolding str_eq
str_eq_self [] = refl
str_eq_self (a ∷ s) = ground (arith, str_eq_self s)

pub str_eq_iff : (s t : Str) → (str_eq s t ≡ true) ↔ (s ≡ t)
str_eq_iff s t = (str_eq→eq s t, λ e. rw e (str_eq_self t))

pub str_eq-ne : (s t : Str) → s ≢ t → str_eq s t ≡ false
str_eq-ne s t h = ground (arith, str_eq_iff s t)

abbrev pub is_empty : Str → Bool
is_empty [] = true
is_empty (c ∷ s) = false

-- strings.HasPrefix
unfoldable pub has_prefix : Str → Str → Bool
has_prefix s [] = true
has_prefix [] (p ∷ ps) = false
has_prefix (c ∷ s) (p ∷ ps) = c == p && has_prefix s ps

-- strings.TrimRight by a cutset of one byte.
unfoldable pub trim_right_byte : ℕ → Str → Str
trim_right_byte sep [] = []
trim_right_byte sep (c ∷ s) = elim (trim_right_byte sep s) [
  | [] ↦ if c == sep then [] else c ∷ []
  | d ∷ t ↦ c ∷ d ∷ t
]

abbrev pub is_space : ℕ → Bool
is_space c = c == 32 || leb 9 c && leb c 13

unfoldable pub trim_left : Str → Str
trim_left [] = []
trim_left (c ∷ s) = if is_space c then trim_left s else c ∷ s

unfoldable pub trim_right : Str → Str
trim_right [] = []
trim_right (c ∷ s) = elim (trim_right s) [
  | [] ↦ if is_space c then [] else c ∷ []
  | d ∷ t ↦ c ∷ d ∷ t
]

-- strings.TrimSpace, by ASCII white space
abbrev pub trim_space : Str → Str
trim_space s = trim_right (trim_left s)

-- strings.CutPrefix: the rest behind the prefix, if it is there.
unfoldable pub cut_prefix : Str → Str → Option Str
cut_prefix s [] = some s
cut_prefix [] (p ∷ ps) = none
cut_prefix (c ∷ s) (p ∷ ps) = if c == p then cut_prefix s ps else none

-- strings.CutSuffix: the rest in front of the suffix, if it is there.
abbrev pub before_suffix : ℕ → Option Str → Option Str
before_suffix c none = none
before_suffix c (some s) = some (c ∷ s)

unfoldable pub cut_suffix : Str → Str → Option Str
unfolding str_eq
cut_suffix [] suffix = if str_eq [] suffix then some [] else none
cut_suffix (c ∷ s) suffix =
    let rest = cut_suffix s suffix in
    if str_eq (c ∷ s) suffix then some [] else before_suffix c rest

-- strings.Contains
unfoldable pub contains : Str → Str → Bool
unfolding has_prefix
contains [] needle = has_prefix [] needle
contains (c ∷ s) needle = has_prefix (c ∷ s) needle || contains s needle

-- strings.ContainsAny
unfoldable pub contains_any : Str → Str → Bool
contains_any s chars = any (λ c. any (λ d. c == d) chars) s

-- strings.Cut by a separator of one byte: what stands before and after its first occurrence.
unfoldable pub cut : ℕ → Str → Option (Str × Str)
cut sep [] = none
cut sep (c ∷ s) = elim (c == sep) [
  | true ↦ some ([], s)
  | false ↦ elim (cut sep s) [ none ↦ none | some (a, b) ↦ some (c ∷ a, b) ]
]

-- strings.ToLower
unfoldable pub lower : ℕ → ℕ
lower c = if leb 65 c && leb c 90 then c + 32 else c

abbrev behind : ℕ → Str → Str
behind zero s = s
behind (suc n) [] = []
behind (suc n) (c ∷ s) = behind n s

-- A byte in front of text that is in lower case: U+212A, the Kelvin sign, and U+0130, the capital I
-- with a dot, are the two letters outside ASCII whose lower case is in it.
unfoldable pub put_lower : ℕ → Str → Str
unfolding lower has_prefix
put_lower c rest =
    if c == 226 && has_prefix rest (132 ∷ 170 ∷ [])
    then 107 ∷ behind 2 rest
    else if c == 196 && has_prefix rest (176 ∷ [])
    then 105 ∷ behind 1 rest
    else lower c ∷ rest

unfoldable pub to_lower : Str → Str
unfolding put_lower
to_lower [] = []
to_lower (c ∷ s) = put_lower c (to_lower s)

-- A byte in front of text that is folded: the Kelvin sign and U+017F, the long s, are the two letters
-- outside ASCII that strings.EqualFold takes for one in it.
unfoldable pub put_folded : ℕ → Str → Str
unfolding lower has_prefix
put_folded c rest =
    if c == 226 && has_prefix rest (132 ∷ 170 ∷ [])
    then 107 ∷ behind 2 rest
    else if c == 197 && has_prefix rest (191 ∷ [])
    then 115 ∷ behind 1 rest
    else lower c ∷ rest

unfoldable pub folded : Str → Str
unfolding put_folded
folded [] = []
folded (c ∷ s) = put_folded c (folded s)

-- strings.EqualFold
unfoldable pub equal_fold : Str → Str → Bool
unfolding folded str_eq
equal_fold s t = str_eq (folded s) (folded t)

abbrev pub IsAscii : Str → Type 0
IsAscii = All (λ c. c < 128)

abbrev pub lowered : Str → Str
lowered [] = []
lowered (c ∷ s) = lower c ∷ lowered s

pub folded-IsAscii : (s : Str) → IsAscii s → folded s ≡ lowered s
unfolding folded put_folded
folded-IsAscii [] h = refl
folded-IsAscii (c ∷ s) (ascii, h) =
    let no_kelvin : c == 226 ≡ false = ground arith in
    let no_long : c == 197 ≡ false = ground arith in
    rw (no_kelvin, no_long, folded-IsAscii s h) refl

pub put_lower-full : (c : ℕ) (s : Str) → is_empty (put_lower c s) ≡ false
unfolding put_lower
put_lower-full c s = ground arith

pub cut_prefix-append : (p s : Str) → cut_prefix (p ++ s) p ≡ some s
unfolding cut_prefix
cut_prefix-append [] [] = refl
cut_prefix-append [] (c ∷ s) = refl
cut_prefix-append (c ∷ p) s = ground (arith, cut_prefix-append p s)

-- A separator that stands in neither half is found where the halves meet.
pub cut-append : (sep : ℕ) (a b : Str) → All (λ c. c ≢ sep) a → cut sep (a ++ sep ∷ b) ≡ some (a, b)
unfolding cut
cut-append sep [] b h = ground arith
cut-append sep (c ∷ a) b (ne, h) = ground (arith, cut-append sep a b h)

-- A prefix with a byte that the text does not hold is not cut.
pub cut_prefix-none :
    (s a : Str) (sep : ℕ) (b : Str) → All (λ c. c ≢ sep) s → cut_prefix s (a ++ sep ∷ b) ≡ none
unfolding cut_prefix
cut_prefix-none [] [] sep b h = refl
cut_prefix-none [] (d ∷ a) sep b h = refl
cut_prefix-none (c ∷ s) [] sep b (ne, h) = ground arith
cut_prefix-none (c ∷ s) (d ∷ a) sep b (ne, h) = ground (arith, cut_prefix-none s a sep b h)
