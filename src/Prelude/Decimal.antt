-- ===== src/Prelude/Decimal.antt =====
-- strconv: Itoa and FormatInt print in base 10, Atoi and ParseInt read it back. An int has 64 bits.
use Prim.Native.Nat.{ℕ, zero, suc, ◌+◌, ◌-◌, ◌*◌, ◌/◌, ◌%◌, ◌^◌, ◌≤◌, ◌<◌}
use mathlib.Core.Path.{◌≡◌, refl}
use mathlib.Core.Logic.{◌≢◌, inl, inr}
use mathlib.Core.Bool.{Bool, true, ◌&&◌}
use mathlib.Core.Option.{Option, none, some}
use mathlib.Core.List.{[], ◌∷◌, ◌++◌}
use native.Mathlib.Nat.{pow-suc}
use native.Mathlib.Omega.{arith}
use go_vai_oidc.Prelude.Tests.{ltb, leb, ◌==◌, if◌then◌else◌, Bool-cases}
use go_vai_oidc.Prelude.Lists.{All, length, length-append}
use go_vai_oidc.Prelude.Int.{ℤ, pos, negsuc}
use go_vai_oidc.Prelude.Text.{Str}

-- The digits of a number below the fuel, most significant first.
unfoldable pub itoa_from : ℕ → ℕ → Str
itoa_from zero n = []
itoa_from (suc f) n =
    let front = itoa_from f (n / 10) in
    if ltb n 10 then (48 + n) ∷ [] else front ++ (48 + n % 10) ∷ []

unfoldable pub itoa : ℕ → Str
unfolding itoa_from
itoa n = itoa_from (suc n) n

unfoldable pub format_int : ℤ → Str
unfolding itoa
format_int (pos n) = itoa n
format_int (negsuc n) = b'-' ∷ itoa (suc n)

abbrev pub is_digit : ℕ → Bool
is_digit c = leb 48 c && leb c 57

-- The value of a run of digits behind the value `acc` already read.
unfoldable pub read_digits : ℕ → Str → Option ℕ
read_digits acc [] = some acc
read_digits acc (c ∷ s) =
    let rest = read_digits (acc * 10 + (c - 48)) s in if is_digit c then rest else none

abbrev pub int64_limit : ℕ
int64_limit = 2 ^ 63

abbrev in_range_pos : Option ℕ → Option ℤ
in_range_pos none = none
in_range_pos (some n) = if ltb n int64_limit then some (pos n) else none

abbrev in_range_neg : Option ℕ → Option ℤ
in_range_neg none = none
in_range_neg (some zero) = some (pos 0)
in_range_neg (some (suc n)) = if ltb n int64_limit then some (negsuc n) else none

unfoldable pub parse_unsigned : Str → Option ℕ
unfolding read_digits
parse_unsigned [] = none
parse_unsigned (c ∷ s) = read_digits 0 (c ∷ s)

-- strconv.ParseInt(s, 10, 64): an optional sign, then at least one digit, then the range check.
unfoldable pub parse_int : Str → Option ℤ
unfolding parse_unsigned
parse_int [] = none
parse_int (c ∷ s) =
    if c == b'-'
    then in_range_neg (parse_unsigned s)
    else if c == b'+'
    then in_range_pos (parse_unsigned s)
    else in_range_pos (parse_unsigned (c ∷ s))

abbrev step_digit : Option ℕ → ℕ → Option ℕ
step_digit none c = none
step_digit (some v) c = if is_digit c then some (v * 10 + (c - 48)) else none

read_digits-snoc :
    (acc : ℕ) (s : Str) (c : ℕ) → read_digits acc (s ++ c ∷ []) ≡ step_digit (read_digits acc s) c
unfolding read_digits
read_digits-snoc acc [] c = ground arith
read_digits-snoc acc (d ∷ s) c = ground (arith, read_digits-snoc (acc * 10 + (d - 48)) s c)

read_digits-itoa_from : (f n : ℕ) → n < f → read_digits 0 (itoa_from f n) ≡ some n
unfolding itoa_from
read_digits-itoa_from zero n h = elim h [ ]
read_digits-itoa_from (suc f) n h = elim (Bool-cases (ltb n 10)) [
  | inl small ↦ rw small (unfold read_digits in ground arith)
  | inr large ↦
      rw
        (
          large,
          read_digits-snoc 0 (itoa_from f (n / 10)) (48 + n % 10),
          read_digits-itoa_from f (n / 10) (ground arith),
        )
        (ground arith)
]

abbrev IsDigit : ℕ → Type 0
IsDigit c = (48 ≤ c) × (c ≤ 57)

All-snoc : (s : Str) (c : ℕ) → All IsDigit s → IsDigit c → All IsDigit (s ++ c ∷ [])
All-snoc [] c h d = (d, tt)
All-snoc (b ∷ s) c (i, h) d = (i, All-snoc s c h d)

itoa_from-digits : (f n : ℕ) → All IsDigit (itoa_from f n)
unfolding itoa_from
itoa_from-digits zero n = tt
itoa_from-digits (suc f) n = elim (Bool-cases (ltb n 10)) [
  | inl small ↦ rw small (((ground arith), ground arith), tt)
  | inr large ↦
      rw large
        (All-snoc (itoa_from f (n / 10)) (48 + n % 10) (itoa_from-digits f (n / 10)) (omega arith))
]

-- Every byte that `itoa` prints is a digit.
pub itoa-digits : (n : ℕ) → All (λ c. (48 ≤ c) × (c ≤ 57)) (itoa n)
unfolding itoa
itoa-digits n = itoa_from-digits (suc n) n

itoa_from-ne-nil : (f n : ℕ) → itoa_from (suc f) n ≢ []
unfolding itoa_from
itoa_from-ne-nil f n e = elim (Bool-cases (ltb n 10)) [
  | inl small ↦ ground arith
  | inr large ↦ snoc-ne-nil (itoa_from f (n / 10)) (48 + n % 10) (ground arith)
]
  where
    snoc-ne-nil : (s : Str) (c : ℕ) → s ++ c ∷ [] ≡ [] → ⊥
    snoc-ne-nil [] c e = cc
    snoc-ne-nil (b ∷ s) c e = cc

-- A number that fits an int64 is read back from what `format_int` prints.
digits_parse :
    (s : Str) (n : ℕ)
    → s ≢ []
    → All (λ c. (48 ≤ c) × (c ≤ 57)) s
    → read_digits 0 s ≡ some n
    → (parse_unsigned s ≡ some n) × (n < int64_limit → parse_int s ≡ some (pos n))
unfolding parse_int parse_unsigned
digits_parse [] n ne h e = absurd (ne refl)
digits_parse (c ∷ s) n ne ((lo, hi), h) e = (e, λ l. ground arith)

pub parse_int-itoa : (n : ℕ) → n < int64_limit → parse_int (itoa n) ≡ some (pos n)
unfolding itoa
parse_int-itoa n h =
    (digits_parse (itoa n) n (itoa_from-ne-nil n n) (itoa-digits n)
        (read_digits-itoa_from (suc n) n (omega arith))).1
      h

pub itoa-injective : (m n : ℕ) → itoa m ≡ itoa n → m ≡ n
unfolding itoa
itoa-injective m n e =
    cc
      (read_digits-itoa_from (suc m) m (omega arith), read_digits-itoa_from (suc n) n (omega arith))

pub itoa-ne-nil : (n : ℕ) → itoa n ≢ []
unfolding itoa
itoa-ne-nil n = itoa_from-ne-nil n n

length-itoa_from : (f k n : ℕ) → n < 10 ^ suc k → length (itoa_from f n) ≤ suc k
unfolding itoa_from
length-itoa_from zero k n h = omega arith
length-itoa_from (suc f) zero n h = rw (small_test n (omega arith)) (omega arith)
  where
    small_test : (n : ℕ) → n < 10 → ltb n 10 ≡ true
    small_test n h = ground arith
length-itoa_from (suc f) (suc k) n h = elim (Bool-cases (ltb n 10)) [
  | inl small ↦ rw small (omega arith)
  | inr large ↦
      let front : length (itoa_from f (n / 10)) ≤ suc k =
        length-itoa_from f k (n / 10) (omega (arith, pow-suc 10 (suc k))) in
      rw large (omega (arith, length-append (itoa_from f (n / 10)) ((48 + n % 10) ∷ [])))
]

-- A number below a power of ten prints in that many digits.
pub length-itoa : (k n : ℕ) → n < 10 ^ suc k → length (itoa n) ≤ suc k
unfolding itoa
length-itoa k n h = length-itoa_from (suc n) k n h
