-- ===== src/Prelude/Replacer.antt =====
-- strings.NewReplacer(…).Replace, for old texts that are not empty: at each place the first pair
-- whose old text stands there. The old texts here start at rune boundaries, where bytes decide.
use Prim.Native.Nat.{ℕ, zero, suc, ◌-◌}
use mathlib.Core.Path.{◌≡◌, refl, ap}
use mathlib.Core.Option.{Option, none, some}
use mathlib.Core.Logic.{inl, inr}
use mathlib.Core.List.{List, [], ◌∷◌, ◌++◌}
use go_vai_oidc.Prelude.Tests.{if◌then◌else◌, Option-cases}
use go_vai_oidc.Prelude.Lists.{All, length}
use go_vai_oidc.Prelude.Text.{Str, has_prefix}

-- The new text of the first pair that applies, and how many bytes it takes the place of.
unfoldable pub replacement : List (Str × Str) → Str → Option (Str × ℕ)
replacement [] s = none
replacement ((old, new) ∷ pairs) s =
    let later = replacement pairs s in if has_prefix s old then some (new, length old) else later

abbrev pub emit : ℕ → Option (Str × ℕ) → (ℕ → Str) → Str
emit c none next = c ∷ next 0
emit c (some (new, size)) next = new ++ next (size - 1)

-- With the first `skip` bytes already replaced.
unfoldable pub replace_from : List (Str × Str) → ℕ → Str → Str
replace_from pairs skip [] = []
replace_from pairs (suc skip) (c ∷ s) = replace_from pairs skip s
replace_from pairs zero (c ∷ s) =
    emit c (replacement pairs (c ∷ s)) (λ skip. replace_from pairs skip s)

abbrev pub replace : List (Str × Str) → Str → Str
replace pairs s = replace_from pairs 0 s

All-append {ℓ κ} :
    {A : Type ℓ} (P : A → Type κ) (xs ys : List A) → All P xs → All P ys → All P (xs ++ ys)
All-append P [] ys h k = k
All-append P (x ∷ xs) ys (p, h) k = (p, All-append P xs ys h k)

module _ (pairs : List (Str × Str)) where
  -- A text at no place of which a pair applies is left as it is.
  pub replace-none :
      (ok : ℕ → Type 0) (s : Str)
      → ((c : ℕ) (s : Str) → ok c → replacement pairs (c ∷ s) ≡ none)
      → All ok s
      → replace pairs s ≡ s
  unfolding replace_from
  replace-none ok [] free h = refl
  replace-none ok (c ∷ s) free (p, h) = rw (free c s p) (ap (λ t. c ∷ t) (replace-none ok s free h))

  -- A byte of the result stood where no pair applies, or belongs to a new text.
  pub replace-All :
      (good : ℕ → Type 0) (skip : ℕ) (s : Str)
      → ((c : ℕ) (s : Str) → replacement pairs (c ∷ s) ≡ none → good c)
      → ((s new : Str) (size : ℕ) → replacement pairs s ≡ some (new, size) → All good new)
      → All good (replace_from pairs skip s)
  unfolding replace_from
  replace-All good skip [] kept put = tt
  replace-All good (suc skip) (c ∷ s) kept put = replace-All good skip s kept put
  replace-All good zero (c ∷ s) kept put = elim (Option-cases (replacement pairs (c ∷ s))) [
    | inl free ↦ rw free (kept c s free, replace-All good 0 s kept put)
    | inr ((new, size), e) ↦
        rw e
          (All-append good new _ (put (c ∷ s) new size e) (replace-All good (size - 1) s kept put))
  ]
