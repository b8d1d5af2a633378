-- ===== src/Flight/Laws.antt =====
-- revalidate_flight.go: the operations on the call map, one key at a time.
use go_vai_oidc.Prelude.{◌≡◌, refl, ◌≢◌, false, none, some, [], ◌∷◌, arith, inl, inr, Bool-cases}
use go_vai_oidc.Prelude.Int.{ℤ}
use go_vai_oidc.Prelude.Text.{Str, str_eq, str_eq_iff}
use go_vai_oidc.Flight.{Call, Calls, find, is_stale, prune, delete, update}

module _ {ℓ} {R : Type ℓ} where
  pub find-prune :
      (now : ℤ) (key : Str) (cs : Calls R) (c : Call R)
      → find key cs ≡ some c
      → is_stale now c ≡ false
      → find key (prune now cs) ≡ some c
  unfolding find prune
  find-prune now key [] c e s = cc
  find-prune now key ((k, d) ∷ cs) c e s = elim (Bool-cases (str_eq k key)) [
    | inl here ↦ let same : d ≡ c = ground arith in ground (arith, same, find-prune now key cs c)
    | inr there ↦ ground (arith, find-prune now key cs c)
  ]

  pub find-update_ne :
      (key other : Str) (d : Call R) (cs : Calls R)
      → other ≢ key
      → find key (update other d cs) ≡ find key cs
  unfolding find update
  find-update_ne key other d [] ne = refl
  find-update_ne key other d ((k, c) ∷ cs) ne =
      ground (arith, str_eq_iff k other, str_eq_iff k key, find-update_ne key other d cs ne)

  pub find-delete_ne :
      (key other : Str) (cs : Calls R) → other ≢ key → find key (delete other cs) ≡ find key cs
  unfolding find delete
  find-delete_ne key other [] ne = refl
  find-delete_ne key other ((k, c) ∷ cs) ne =
      ground (arith, str_eq_iff k other, str_eq_iff k key, find-delete_ne key other cs ne)

  pub find-update_self :
      (key : Str) (c d : Call R) (cs : Calls R)
      → find key cs ≡ some c
      → find key (update key d cs) ≡ some d
  unfolding find update
  find-update_self key c d [] e = cc
  find-update_self key c d ((k, x) ∷ cs) e = ground (arith, find-update_self key c d cs)

  pub find-delete_self : (key : Str) (cs : Calls R) → find key (delete key cs) ≡ none
  unfolding find delete
  find-delete_self key [] = refl
  find-delete_self key ((k, c) ∷ cs) = ground (arith, find-delete_self key cs)

  pub find-prune-none :
      (now : ℤ) (key : Str) (cs : Calls R) → find key cs ≡ none → find key (prune now cs) ≡ none
  unfolding find prune
  find-prune-none now key [] e = refl
  find-prune-none now key ((k, d) ∷ cs) e = ground (arith, find-prune-none now key cs)
