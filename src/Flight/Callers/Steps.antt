-- ===== src/Flight/Callers/Steps.antt =====
-- revalidate_flight.go: every step keeps the group sound.
use go_vai_oidc.Prelude.{
  ℕ, ◌≡◌, refl, sym, ◌∙◌, ◌≢◌, inl, inr, Option, none, some, List, [], ◌∷◌, All, Bool-cases,
  some-eq,
}
use go_vai_oidc.Prelude.Int.{ℤ}
use go_vai_oidc.Prelude.Text.{Str, str_eq, str_eq_iff}
use go_vai_oidc.Flight.Callers.{
  CallState, unfinished, finished, CallerStage, outside, working, waiting, answered, panicked, Act,
  arrive, land, crash, wake, leave, Group, on_board, off_board, prune_board, is_over, met, arrives,
  lands_by, crashes, woken, wakes, leaves, act, acts,
}
use go_vai_oidc.Flight.Callers.Sound.{IsEntry, IsSound, stage_at-IsSound, closes-IsSound}
use go_vai_oidc.Flight.Callers.Joins.{waits-IsSound, leads-IsSound}

module _ (P : Str × ℕ → Type 0) where
  off_board-All : (key : Str) (es : List (Str × ℕ)) → All P es → All P (off_board key es)
  unfolding off_board
  off_board-All key [] known = tt
  off_board-All key ((k, i) ∷ es) (h, known) = elim (Bool-cases (str_eq k key)) [
    | inl gone ↦ rw gone (off_board-All key es known)
    | inr stays ↦ rw stays (h, off_board-All key es known)
  ]

  prune_board-All :
      {R : Type 0} (now : ℤ) (state : ℕ → CallState R) (es : List (Str × ℕ))
      → All P es
      → All P (prune_board now state es)
  unfolding prune_board
  prune_board-All now state [] known = tt
  prune_board-All now state ((k, i) ∷ es) (h, known) = elim (Bool-cases (is_over now (state i))) [
    | inl gone ↦ rw gone (prune_board-All now state es known)
    | inr stays ↦ rw stays (h, prune_board-All now state es known)
  ]

  pub on_board-holds :
      (key : Str) (es : List (Str × ℕ)) (i : ℕ) → All P es → on_board key es ≡ some i → P (key, i)
  unfolding on_board
  on_board-holds key [] i known h = cc
  on_board-holds key ((k, j) ∷ es) i (here, known) h = elim (Bool-cases (str_eq k key)) [
    | inl same ↦
        let key_is : k ≡ key = (str_eq_iff k key).0 same in
        let call_is : j ≡ i = some-eq (rw same at h) in rw (← key_is, ← call_is) here
    | inr other ↦ on_board-holds key es i known (rw other at h)
  ]

module _ {R : Type 0} where
  pub pruned-IsSound :
      (g : Group R) (now : ℤ)
      → IsSound g
      → IsSound (record g { board = prune_board now g.state g.board })
  pruned-IsSound g now sound = record {
    works = sound.works;
    waits = sound.waits;
    entries = prune_board-All (IsEntry g.next g.key_of) now g.state g.board sound.entries;
    alone = sound.alone;
    led = sound.led;
  }

  met-IsSound :
      (g : Group R) (c : ℕ) (k : Str) (o : Option ℕ)
      → IsSound g
      → g.stage c ≡ outside
      → on_board k g.board ≡ o
      → IsSound (met c k o g)
  met-IsSound g c k none sound new h = leads-IsSound g c k sound new
  met-IsSound g c k (some i) sound new h =
      waits-IsSound g c i k sound new
        (on_board-holds (IsEntry g.next g.key_of) k g.board i sound.entries h)

  arrives-IsSound :
      (g : Group R) (now : ℤ) (c : ℕ) (k : Str) (s : CallerStage R)
      → IsSound g
      → g.stage c ≡ s
      → IsSound (arrives now c k s g)
  arrives-IsSound g now c k outside sound h =
      met-IsSound (record g { board = prune_board now g.state g.board }) c k _
        (pruned-IsSound g now sound) h refl
  arrives-IsSound g now c k (working l i) sound h = sound
  arrives-IsSound g now c k (waiting l i) sound h = sound
  arrives-IsSound g now c k (answered o) sound h = sound
  arrives-IsSound g now c k panicked sound h = sound

  lands_by-IsSound :
      (g : Group R) (now : ℤ) (c : ℕ) (r : R) (s : CallerStage R)
      → IsSound g
      → g.stage c ≡ s
      → IsSound (lands_by now c r s g)
  lands_by-IsSound g now c r outside sound h = sound
  lands_by-IsSound g now c r (working k i) sound h =
      closes-IsSound g now c i k (some r) (answered (some r)) g.board sound tt h sound.entries
  lands_by-IsSound g now c r (waiting l i) sound h = sound
  lands_by-IsSound g now c r (answered o) sound h = sound
  lands_by-IsSound g now c r panicked sound h = sound

  crashes-IsSound :
      (g : Group R) (now : ℤ) (c : ℕ) (s : CallerStage R)
      → IsSound g
      → g.stage c ≡ s
      → IsSound (crashes now c s g)
  crashes-IsSound g now c outside sound h = sound
  crashes-IsSound g now c (working k i) sound h =
      closes-IsSound g now c i k none panicked (off_board k g.board) sound tt h
        (off_board-All (IsEntry g.next g.key_of) k g.board sound.entries)
  crashes-IsSound g now c (waiting l i) sound h = sound
  crashes-IsSound g now c (answered o) sound h = sound
  crashes-IsSound g now c panicked sound h = sound

  pub waiter-works_not :
      {s : CallerStage R} {i j : ℕ} {k l : Str} → s ≡ waiting k i → s ≢ working l j
  waiter-works_not h h' = apart (sym h ∙ h')
    where
      apart : {k l : Str} {i j : ℕ} → ◌≡◌ {A = CallerStage R} (waiting k i) (working l j) → ⊥
      apart e = cc

  woken-IsSound :
      (g : Group R) (c i : ℕ) (k : Str) (s : CallState R)
      → IsSound g
      → g.stage c ≡ waiting k i
      → IsSound (woken c s g)
  woken-IsSound g c i k unfinished sound h = sound
  woken-IsSound g c i k (finished o at) sound h =
      stage_at-IsSound g c (answered o) sound tt (λ l j. waiter-works_not h)

  wakes-IsSound :
      (g : Group R) (c : ℕ) (s : CallerStage R) → IsSound g → g.stage c ≡ s → IsSound (wakes c s g)
  wakes-IsSound g c outside sound h = sound
  wakes-IsSound g c (working k i) sound h = sound
  wakes-IsSound g c (waiting k i) sound h = woken-IsSound g c i k (g.state i) sound h
  wakes-IsSound g c (answered o) sound h = sound
  wakes-IsSound g c panicked sound h = sound

  leaves-IsSound :
      (g : Group R) (c : ℕ) (s : CallerStage R) → IsSound g → g.stage c ≡ s → IsSound (leaves c s g)
  leaves-IsSound g c outside sound h = sound
  leaves-IsSound g c (working k i) sound h = sound
  leaves-IsSound g c (waiting k i) sound h =
      stage_at-IsSound g c (answered none) sound tt (λ l j. waiter-works_not h)
  leaves-IsSound g c (answered o) sound h = sound
  leaves-IsSound g c panicked sound h = sound

  pub act-IsSound : (a : Act R) (g : Group R) → IsSound g → IsSound (act a g)
  unfolding act
  act-IsSound (arrive now c k) g sound = arrives-IsSound g now c k (g.stage c) sound refl
  act-IsSound (land now c r) g sound = lands_by-IsSound g now c r (g.stage c) sound refl
  act-IsSound (crash now c) g sound = crashes-IsSound g now c (g.stage c) sound refl
  act-IsSound (wake c) g sound = wakes-IsSound g c (g.stage c) sound refl
  act-IsSound (leave c) g sound = leaves-IsSound g c (g.stage c) sound refl

  pub acts-IsSound : (more : List (Act R)) (g : Group R) → IsSound g → IsSound (acts more g)
  unfolding acts
  acts-IsSound [] g sound = sound
  acts-IsSound (a ∷ more) g sound = acts-IsSound more (act a g) (act-IsSound a g sound)
