-- ===== src/Session/Chunks.antt =====
-- session.go: `chunkString` cuts an encrypted session into cookie values.
use go_vai_oidc.Prelude.{
  ℕ, zero, suc, ◌+◌, ◌*◌, ◌≤◌, ◌<◌, ◌≡◌, inl, inr, List, [], ◌∷◌, arith, ltb, if◌then◌else◌,
  Bool-cases, length, take, drop, concat, All, take-append-drop, length-take, length-drop,
}
use mathlib.Core.List.{append-nil}
use go_vai_oidc.Prelude.Text.{Str}

-- The loop, with the length of the string for fuel: each round takes at least one byte.
chunk_from : ℕ → Str → ℕ → List Str
chunk_from zero s size = s ∷ []
chunk_from (suc f) s size =
    let rest = chunk_from f (drop size s) size in
    if ltb size (length s) then take size s ∷ rest else s ∷ []

unfoldable pub chunk_string : Str → ℕ → List Str
unfolding chunk_from
chunk_string s size = chunk_from (length s) s size

concat-chunk_from : (f : ℕ) (s : Str) (size : ℕ) → concat (chunk_from f s size) ≡ s
unfolding chunk_from
concat-chunk_from zero s size = append-nil s
concat-chunk_from (suc f) s size = elim (Bool-cases (ltb size (length s))) [
  | inl more ↦ rw (more, concat-chunk_from f (drop size s) size) (take-append-drop size s)
  | inr last ↦ rw last (append-nil s)
]

-- The pieces in order make up the string.
pub concat-chunk_string : (s : Str) (size : ℕ) → concat (chunk_string s size) ≡ s
unfolding chunk_string
concat-chunk_string s size = concat-chunk_from (length s) s size

chunk_from-fits :
    (f : ℕ) (s : Str) (size : ℕ)
    → 0 < size
    → length s ≤ f
    → All (λ c. length c ≤ size) (chunk_from f s size)
unfolding chunk_from
chunk_from-fits zero s size h e = (omega arith, tt)
chunk_from-fits (suc f) s size h e = elim (Bool-cases (ltb size (length s))) [
  | inl more ↦ rw more (
    omega (arith, length-take size s),
    chunk_from-fits f (drop size s) size h (omega (arith, length-drop size s)),
  )
  | inr last ↦ rw last (ground arith, tt)
]

-- Each piece fits: with the length for fuel the loop ends by its own test.
pub chunk_string-fits :
    (s : Str) (size : ℕ) → 0 < size → All (λ c. length c ≤ size) (chunk_string s size)
unfolding chunk_string
chunk_string-fits s size h = chunk_from-fits (length s) s size h (omega arith)

chunk_from-count :
    (f : ℕ) (s : Str) (size : ℕ)
    → 0 < size
    → length s ≤ f
    → 0 < length s
    → (length s ≤ length (chunk_from f s size) * size)
      × (length (chunk_from f s size) * size < length s + size)
unfolding chunk_from
chunk_from-count zero s size h e p = absurd (omega arith)
chunk_from-count (suc f) s size h e p = elim (Bool-cases (ltb size (length s))) [
  | inl more ↦
      let fits : size < length s = ground arith in
      let ih =
        chunk_from-count f (drop size s) size h (omega (arith, length-drop size s))
          (omega (arith, length-drop size s)) in
      rw more (omega (arith, ih, length-drop size s))
  | inr last ↦ rw last (ground arith)
]

-- The number of pieces is the length divided by the size, rounded up.
pub chunk_string-count :
    (s : Str) (size : ℕ)
    → 0 < size
    → 0 < length s
    → (length s ≤ length (chunk_string s size) * size)
      × (length (chunk_string s size) * size < length s + size)
unfolding chunk_string
chunk_string-count s size h p = chunk_from-count (length s) s size h (omega arith) p
