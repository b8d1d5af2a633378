-- ===== src/Redirect/Safe.antt =====
-- auth.go: what the redirect check accepts, and the state cookie in both directions.
use go_vai_oidc.Prelude.{
  ℕ, ◌<◌, ◌≡◌, refl, ◌≢◌, ◌↔◌, Bool, true, false, ◌||◌, none, some, [], ◌∷◌, ◌++◌, inl, inr, arith,
  subst, some-eq, ◌==◌, Bool-cases, any, All,
}
use go_vai_oidc.Prelude.Text.{
  Str, codes, is_empty, has_prefix, contains, contains_any, cut, cut-append,
}
use go_vai_oidc.Redirect.{
  is_valid_redirect, hex, generate_state, state_cookie_value, parse_state_cookie,
}

-- A text that begins with another, and one that holds another.
abbrev pub BeginsWith : Str → Str → Type 0
BeginsWith s p = (rest : Str) × (s ≡ p ++ rest)

abbrev pub Holds : Str → Str → Type 0
Holds s needle = (before rest : Str) × (s ≡ before ++ (needle ++ rest))

pub has_prefix→BeginsWith : (s p : Str) → has_prefix s p ≡ true → BeginsWith s p
unfolding has_prefix
has_prefix→BeginsWith s [] h = (s, refl)
has_prefix→BeginsWith [] (p ∷ ps) h = cc
has_prefix→BeginsWith (c ∷ s) (p ∷ ps) h =
    let (rest, e) = has_prefix→BeginsWith s ps (ground arith) in
    let same : c ≡ p = ground arith in (rest, cc)

pub has_prefix-append : (p rest : Str) → has_prefix (p ++ rest) p ≡ true
unfolding has_prefix
has_prefix-append [] [] = refl
has_prefix-append [] (c ∷ rest) = refl
has_prefix-append (c ∷ p) rest = ground (arith, has_prefix-append p rest)

contains→Holds : (s needle : Str) → contains s needle ≡ true → Holds s needle
unfolding contains
contains→Holds [] needle h = let (rest, e) = has_prefix→BeginsWith [] needle h in ([], rest, e)
contains→Holds (c ∷ s) needle h = elim (Bool-cases (has_prefix (c ∷ s) needle)) [
  | inl here ↦ let (rest, e) = has_prefix→BeginsWith (c ∷ s) needle here in ([], rest, e)
  | inr later ↦
      let (before, rest, e) = contains→Holds s needle (rw later at h) in (c ∷ before, rest, cc)
]

contains-append : (before needle rest : Str) → contains (before ++ (needle ++ rest)) needle ≡ true
unfolding contains
contains-append [] needle rest =
    contains_here (needle ++ rest) needle (has_prefix-append needle rest)
  where
    contains_here : (s p : Str) → has_prefix s p ≡ true → contains s p ≡ true
    contains_here [] p h = h
    contains_here (c ∷ s) p h = ground arith
contains-append (c ∷ before) needle rest = ground (arith, contains-append before needle rest)

abbrev pub backslash : ℕ
backslash = 92

abbrev is_backslash : ℕ → Bool
is_backslash c = c == 92 || false

holds_backslash : (s : Str) → any is_backslash s ≡ false → All (λ c. c ≢ backslash) s
holds_backslash [] h = tt
holds_backslash (c ∷ s) h = (ground arith, holds_backslash s (ground arith))

no_backslash : (s : Str) → All (λ c. c ≢ backslash) s → any is_backslash s ≡ false
no_backslash [] h = refl
no_backslash (c ∷ s) (ne, h) = ground (arith, no_backslash s h)

-- A path on the same origin, as a browser reads it: one leading slash, no backslash, no scheme.
pub record IsLocalPath (s : Str) : Type 0 where
  pub rooted : BeginsWith s (codes "/")
  pub not_network_path : ¬ BeginsWith s (codes "//")
  pub no_scheme : ¬ Holds s (codes "://")
  pub no_backslashes : All (λ c. c ≢ backslash) s

begins_of : (s p : Str) → ¬ BeginsWith s p → has_prefix s p ≡ false
begins_of s p h = elim (Bool-cases (has_prefix s p)) [
  | inl e ↦ absurd (h (has_prefix→BeginsWith s p e))
  | inr e ↦ e
]

contains_of : (s p : Str) → ¬ Holds s p → contains s p ≡ false
contains_of s p h = elim (Bool-cases (contains s p)) [
  | inl e ↦ absurd (h (contains→Holds s p e))
  | inr e ↦ e
]

prefix_of : (s p : Str) → BeginsWith s p → has_prefix s p ≡ true
prefix_of s p (rest, e) = rw e (has_prefix-append p rest)

needle_found : (s p : Str) → Holds s p → contains s p ≡ true
needle_found s p (before, rest, e) = rw e (contains-append before p rest)

one_backslash : codes "\\" ≡ backslash ∷ []
unfolding codes
one_backslash = refl

contains_any-backslash : (s : Str) → contains_any s (codes "\\") ≡ any is_backslash s
unfolding contains_any codes
contains_any-backslash s = refl

valid_tests :
    (s : Str)
    → is_valid_redirect s ≡ true
    → (has_prefix s (codes "/") ≡ true)
      × (has_prefix s (codes "//") ≡ false)
      × (contains s (codes "://") ≡ false)
      × (any is_backslash s ≡ false)
unfolding is_valid_redirect
valid_tests s h = ground (arith, contains_any-backslash s)

tests_valid :
    (s : Str)
    → has_prefix s (codes "/") ≡ true
    → has_prefix s (codes "//") ≡ false
    → contains s (codes "://") ≡ false
    → any is_backslash s ≡ false
    → is_empty s ≡ false
    → is_valid_redirect s ≡ true
unfolding is_valid_redirect
tests_valid s a b c d e = ground (arith, contains_any-backslash s)

not_both : {b : Bool} → b ≡ true → b ≡ false → ⊥
not_both p q = cc

rooted-nonempty : (s : Str) → BeginsWith s (codes "/") → is_empty s ≡ false
unfolding codes
rooted-nonempty s (rest, e) = rw e

-- The redirect check accepts a text exactly when it is a path on the same origin: it begins with
-- one slash and not two, holds no backslash and no "://".
pub is_valid_redirect_iff : (s : Str) → (is_valid_redirect s ≡ true) ↔ IsLocalPath s
is_valid_redirect_iff s = (accepted, valid)
  where
    accepted : is_valid_redirect s ≡ true → IsLocalPath s
    accepted h =
        let (a, b, c, d) = valid_tests s h in
        record {
          rooted = has_prefix→BeginsWith s _ a;
          not_network_path = λ p. not_both (prefix_of s _ p) b;
          no_scheme = λ p. not_both (needle_found s _ p) c;
          no_backslashes = holds_backslash s d;
        }

    valid : IsLocalPath s → is_valid_redirect s ≡ true
    valid p =
        tests_valid s (prefix_of s _ p.rooted) (begins_of s _ p.not_network_path)
          (contains_of s _ p.no_scheme) (no_backslash s p.no_backslashes)
          (rooted-nonempty s p.rooted)

pub hex-no_bar : (bytes : Str) → All (λ b. b < 256) bytes → All (λ c. c ≢ b'|') (hex bytes)
unfolding hex
hex-no_bar [] h = tt
hex-no_bar (b ∷ bs) (byte, h) = (ground arith, (ground arith, hex-no_bar bs h))

pub cut-none : (sep : ℕ) (s : Str) → All (λ c. c ≢ sep) s → cut sep s ≡ none
unfolding cut
cut-none sep [] h = refl
cut-none sep (c ∷ s) (ne, h) = ground (arith, cut-none sep s h)

-- The callback reads back the state and the redirect that the login stored, for every state that
-- the login can generate and every redirect, one with a bar in it and the empty one included.
pub parse_state_cookie-state_cookie_value :
    (bytes state redirect : Str)
    → All (λ b. b < 256) bytes
    → generate_state (some bytes) ≡ some state
    → parse_state_cookie (state_cookie_value state redirect) ≡ (state, redirect)
unfolding generate_state parse_state_cookie state_cookie_value
parse_state_cookie-state_cookie_value bytes state redirect h e = parsed redirect (bars e)
  where
    bars : some (hex bytes) ≡ some state → All (λ c. c ≢ b'|') state
    bars e = subst (All (λ c. c ≢ b'|')) (some-eq e) (hex-no_bar bytes h)

    parsed :
        (redirect : Str)
        → All (λ c. c ≢ b'|') state
        → parse_state_cookie (state_cookie_value state redirect) ≡ (state, redirect)
    parsed [] k = ground (arith, cut-none b'|' state k)
    parsed (c ∷ r) k = ground (arith, cut-append b'|' state (c ∷ r) k)
