-- ===== src/Script/Literals.antt =====
-- sessionsync_script.go: what stands between the quotes of a JavaScript literal.
use go_vai_oidc.Prelude.{
  ℕ, ◌≡◌, refl, ◌≢◌, true, none, some, List, [], ◌∷◌, arith, All, ap, some-eq, inl, inr, Bool-cases,
}
use go_vai_oidc.Prelude.Text.{Str, codes, has_prefix}
use go_vai_oidc.Prelude.Replacer.{replacement, replace, replace-none, replace-All}
use go_vai_oidc.Script.{escapes, quoted, js_string_literal, is_mount_byte}

-- A byte that can neither end a literal nor a line nor begin or end a tag or an entity.
abbrev pub IsHarmless : ℕ → Type 0
IsHarmless c = (c ≢ 34) × (c ≢ 10) × (c ≢ 13) × (c ≢ 60) × (c ≢ 62) × (c ≢ 38)

kept-IsHarmless : (c : ℕ) (s : Str) → replacement escapes (c ∷ s) ≡ none → IsHarmless c
unfolding replacement has_prefix
kept-IsHarmless c s h = ground arith

replacement-All :
    (good : ℕ → Type 0) (pairs : List (Str × Str)) (s new : Str) (size : ℕ)
    → All (λ pair. All good pair.1) pairs
    → replacement pairs s ≡ some (new, size)
    → All good new
unfolding replacement
replacement-All good [] s new size goods h = cc
replacement-All good ((old, put) ∷ pairs) s new size (here, goods) h =
    elim (Bool-cases (has_prefix s old)) [
      | inl applies ↦
          let same : put ≡ new = ap (λ pair. pair.0) (some-eq (rw applies at h)) in rw (← same) here
      | inr other ↦ replacement-All good pairs s new size goods (rw other at h)
    ]

escapes-IsHarmless : All (λ pair. All IsHarmless pair.1) escapes
unfolding codes
escapes-IsHarmless = ground arith

pub js_string_literal-All :
    (s : Str) → (inner : Str) × (js_string_literal s ≡ quoted inner) × All IsHarmless inner
unfolding js_string_literal
js_string_literal-All s = (
  replace escapes s,
  refl,
  replace-All escapes IsHarmless 0 s kept-IsHarmless
      (λ s new size. replacement-All IsHarmless escapes s new size escapes-IsHarmless),
)

mount_free : (c : ℕ) (s : Str) → is_mount_byte c ≡ true → replacement escapes (c ∷ s) ≡ none
unfolding replacement has_prefix
mount_free c s h = ground arith

pub js_string_literal-mount :
    (s : Str) → All (λ c. is_mount_byte c ≡ true) s → js_string_literal s ≡ quoted s
unfolding js_string_literal
js_string_literal-mount s h =
    ap quoted (replace-none escapes (λ c. is_mount_byte c ≡ true) s mount_free h)
