-- ===== src/Flight/Callers/Posted.antt =====
-- revalidate_flight.go: what stands on the map of a group with callers.
use go_vai_oidc.Prelude.{
  ℕ, ◌≡◌, refl, sym, ap, ◌∙◌, inl, inr, Option, none, some, List, [], ◌∷◌, if◌then◌else◌, arith,
  Bool-cases,
}
use go_vai_oidc.Prelude.Int.{ℤ}
use go_vai_oidc.Prelude.Text.{Str, str_eq, str_eq_iff}
use go_vai_oidc.Flight.Callers.{
  CallState, unfinished, finished, working, Group, on_board, off_board, prune_board, is_over,
  fresh_group,
}
use go_vai_oidc.Flight.Callers.Sound.{IsSound}

abbrev pub IsKeyed : List (Str × ℕ) → Type 0
IsKeyed [] = Unit
IsKeyed ((k, i) ∷ es) = (on_board k es ≡ none) × IsKeyed es

pub on_board-off_board :
    (key k : Str) (es : List (Str × ℕ))
    → on_board k (off_board key es) ≡ (if str_eq key k then none else on_board k es)
unfolding on_board off_board
on_board-off_board key k [] = ground arith
on_board-off_board key k ((j, c) ∷ es) =
    ground (arith, str_eq_iff j key, str_eq_iff j k, str_eq_iff key k, on_board-off_board key k es)

pub off_board-IsKeyed : (key : Str) (es : List (Str × ℕ)) → IsKeyed es → IsKeyed (off_board key es)
unfolding off_board
off_board-IsKeyed key [] m = tt
off_board-IsKeyed key ((j, c) ∷ es) (lone, m) = elim (Bool-cases (str_eq j key)) [
  | inl gone ↦ rw gone (off_board-IsKeyed key es m)
  | inr stays ↦
      let clear : on_board j (off_board key es) ≡ none =
        ground (arith, on_board-off_board key j es, lone) in
      rw stays (clear, off_board-IsKeyed key es m)
]

module _ {R : Type 0} (now : ℤ) (state : ℕ → CallState R) where
  abbrev pub remembered : Option ℕ → Option ℕ
  remembered none = none
  remembered (some i) = if is_over now (state i) then none else some i

  on_board-prune_board-none :
      (k : Str) (es : List (Str × ℕ))
      → on_board k es ≡ none
      → on_board k (prune_board now state es) ≡ none
  unfolding on_board prune_board
  on_board-prune_board-none k [] e = refl
  on_board-prune_board-none k ((j, i) ∷ es) e = ground (arith, on_board-prune_board-none k es)

  pub on_board-prune_board :
      (k : Str) (es : List (Str × ℕ))
      → IsKeyed es
      → on_board k (prune_board now state es) ≡ remembered (on_board k es)
  unfolding on_board prune_board
  on_board-prune_board k [] m = refl
  on_board-prune_board k ((j, i) ∷ es) (lone, m) = elim (Bool-cases (str_eq j k)) [
    | inl here ↦
        let same : j ≡ k = (str_eq_iff j k).0 here in
        let gone : on_board k es ≡ none = rw (← same) lone in
        ground (arith, here, on_board-prune_board-none k es gone)
    | inr there ↦ ground (arith, there, on_board-prune_board k es m)
  ]

  prune_board-IsKeyed : (es : List (Str × ℕ)) → IsKeyed es → IsKeyed (prune_board now state es)
  unfolding prune_board
  prune_board-IsKeyed [] m = tt
  prune_board-IsKeyed ((j, i) ∷ es) (lone, m) = elim (Bool-cases (is_over now (state i))) [
    | inl gone ↦ rw gone (prune_board-IsKeyed es m)
    | inr stays ↦ rw stays (on_board-prune_board-none j es lone, prune_board-IsKeyed es m)
  ]

module _ {R : Type 0} where
  abbrev pub NotAbandoned : CallState R → Type 0
  NotAbandoned unfinished = Unit
  NotAbandoned (finished (some r) at) = Unit
  NotAbandoned (finished none at) = ⊥

  -- No key stands twice on the map, a leader's call stands there under its key, and a call that was
  -- abandoned does not.
  pub record IsPosted (g : Group R) : Type 0 where
    pub keyed : IsKeyed g.board
    pub posted : (c : ℕ) (k : Str) (i : ℕ) → g.stage c ≡ working k i → on_board k g.board ≡ some i
    pub kept : (k : Str) (i : ℕ) → on_board k g.board ≡ some i → NotAbandoned (g.state i)

  pub fresh_group-IsPosted : IsPosted fresh_group
  unfolding on_board
  fresh_group-IsPosted = record { keyed = tt; posted = λ c k i h. cc; kept = λ k i h. tt }

  remembered-some :
      (now : ℤ) (state : ℕ → CallState R) (o : Option ℕ) (i : ℕ)
      → remembered now state o ≡ some i
      → o ≡ some i
  remembered-some now state none i h = cc
  remembered-some now state (some j) i h = elim (Bool-cases (is_over now (state j))) [
    | inl gone ↦ absurd (none-ne-some (rw gone at h))
    | inr stays ↦ rw stays at h
  ]
    where
      none-ne-some : {a : ℕ} → ◌≡◌ {A = Option ℕ} none (some a) → ⊥
      none-ne-some e = cc

  pub pruned-IsPosted :
      (g : Group R) (now : ℤ)
      → IsSound g
      → IsPosted g
      → IsPosted (record g { board = prune_board now g.state g.board })
  pruned-IsPosted g now sound p = record {
    keyed = prune_board-IsKeyed now g.state g.board p.keyed;
    posted = λ c k i h.
        let (below, key, running) = sound.works c k i h in
        on_board-prune_board now g.state k g.board p.keyed
        ∙ ap (remembered now g.state) (p.posted c k i h)
        ∙ rw running refl;
    kept = λ k i h. p.kept k i (
        remembered-some now g.state _ i
          (sym (on_board-prune_board now g.state k g.board p.keyed) ∙ h));
  }
