-- ===== src/Flight/Callers/Postings.antt =====
-- revalidate_flight.go: every step keeps the map of a group with callers in order.
use go_vai_oidc.Prelude.{
  ℕ, ◌<◌, ◌==◌, ◌≡◌, refl, sym, ap, ◌∙◌, ◌≢◌, inl, inr, Bool, true, false, Option, none, some,
  if◌then◌else◌, arith, Bool-cases, some-eq, subst,
}
use go_vai_oidc.Prelude.Int.{ℤ}
use go_vai_oidc.Prelude.Text.{Str, str_eq, str_eq_iff, str_eq_self, str_eq-ne}
use go_vai_oidc.Flight.Callers.{
  unfinished, finished, CallerStage, working, waiting, answered, panicked, Group, put, on_board,
  off_board, stage_at, met, closes,
}
use go_vai_oidc.Flight.Callers.Sound.{put_self, put_ne, put-cases, still_working, IsEntry, IsSound}
use go_vai_oidc.Flight.Callers.Steps.{on_board-holds}
use go_vai_oidc.Flight.Callers.Posted.{
  NotAbandoned, IsPosted, on_board-off_board, off_board-IsKeyed,
}

module _ {R : Type 0} where
  -- The call of an entry was made for the entry's key.
  pub entry_key :
      (g : Group R) (k : Str) (i : ℕ)
      → IsSound g
      → on_board k g.board ≡ some i
      → (i < g.next) × (g.key_of i ≡ k)
  entry_key g k i sound h = on_board-holds (IsEntry g.next g.key_of) k g.board i sound.entries h

  pub stage_at-IsPosted :
      (g : Group R) (c : ℕ) (s : CallerStage R)
      → IsPosted g
      → ((k : Str) (i : ℕ) → s ≢ working k i)
      → IsPosted (stage_at c s g)
  stage_at-IsPosted g c s p idle = record {
    keyed = p.keyed;
    posted = λ d k i h. elim (put-cases c s g.stage d (working k i) h) [
      | inl (here, e) ↦ absurd (idle k i e)
      | inr (there, e) ↦ p.posted d k i e
    ];
    kept = p.kept;
  }

  pub met-IsPosted :
      (g : Group R) (c : ℕ) (k : Str) (o : Option ℕ)
      → IsSound g
      → IsPosted g
      → on_board k g.board ≡ o
      → IsPosted (met c k o g)
  unfolding on_board
  met-IsPosted g c k (some i) sound p h = stage_at-IsPosted g c (waiting k i) p (λ l j. apart)
    where
      apart : {l : Str} {j : ℕ} → ◌≡◌ {A = CallerStage R} (waiting k i) (working l j) → ⊥
      apart e = cc
  met-IsPosted g c k none sound p h = record {
    keyed = (h, p.keyed);
    posted = λ d l j e. elim (put-cases c (working k g.next) g.stage d (working l j) e) [
      | inl (here, x) ↦ started l j x
      | inr (there, x) ↦ older l j (p.posted d l j x)
    ];
    kept = λ l j e. elim (Bool-cases (str_eq k l)) [
      | inl here ↦
          let last : g.next ≡ j = some-eq (rw here at e) in
          subst (λ n. NotAbandoned (put g.next unfinished g.state n)) last
            (subst NotAbandoned (sym (put_self g.next unfinished g.state)) tt)
      | inr there ↦
          let before : on_board l g.board ≡ some j = rw there at e in
          let below = (entry_key g l j sound before).0 in
          let apart : j ≢ g.next = λ e. absurd (omega (arith, below, e)) in
          subst NotAbandoned (sym (put_ne g.next unfinished g.state j apart)) (p.kept l j before)
    ];
  }
    where
      posted_now : CallerStage R → Type 0
      posted_now (working l j) = (if str_eq k l then some g.next else on_board l g.board) ≡ some j
      posted_now s = Unit

      started :
          (l : Str) (j : ℕ)
          → ◌≡◌ {A = CallerStage R} (working k g.next) (working l j)
          → (if str_eq k l then some g.next else on_board l g.board) ≡ some j
      started l j x = subst (λ s. posted_now s) x (rw (str_eq_self k) refl)

      none-ne-some : {a : ℕ} → ◌≡◌ {A = Option ℕ} none (some a) → ⊥
      none-ne-some e = cc

      older :
          (l : Str) (j : ℕ)
          → on_board l g.board ≡ some j
          → (if str_eq k l then some g.next else on_board l g.board) ≡ some j
      older l j before = elim (Bool-cases (str_eq k l)) [
        | inl here ↦ absurd (
            none-ne-some
              (sym h ∙ ap (λ key. on_board key g.board) ((str_eq_iff k l).0 here) ∙ before))
        | inr there ↦ rw there before
      ]

  -- A landing keeps the map in order.
  pub landed-IsPosted :
      (g : Group R) (now : ℤ) (c i : ℕ) (r : R)
      → IsPosted g
      → IsPosted (closes now i (some r) (answered (some r)) c g)
  landed-IsPosted g now c i r p = record {
    keyed = p.keyed;
    posted = λ d l j h. p.posted d l j (still_working c (answered (some r)) tt g.stage d l j h).1;
    kept = λ l j h. kept_by j (p.kept l j h);
  }
    where
      kept_by :
          (j : ℕ)
          → NotAbandoned (g.state j)
          → NotAbandoned (put i (finished (some r) now) g.state j)
      kept_by j h = elim (Bool-cases (j == i)) [ inl here ↦ rw here tt | inr there ↦ rw there h ]

  -- A panic takes the call off the map.
  pub crashed-IsPosted :
      (g : Group R) (now : ℤ) (c i : ℕ) (k : Str)
      → IsSound g
      → IsPosted g
      → g.stage c ≡ working k i
      → IsPosted (closes now i none panicked c (record g { board = off_board k g.board }))
  crashed-IsPosted g now c i k sound p leading = record {
    keyed = off_board-IsKeyed k g.board p.keyed;
    posted = λ d l j h.
        let (other, before) = still_working c panicked tt g.stage d l j h in
        let here = p.posted d l j before in
        let apart : k ≢ l = λ e.
          let same : j ≡ i =
            some-eq
              (sym here ∙ ap (λ key. on_board key g.board) (sym e) ∙ p.posted c k i leading) in
          other (sound.alone d c l k i (before ∙ ap (working l) same) leading) in
        on_board-off_board k l g.board ∙ rw (str_eq-ne k l apart) here;
    kept = λ l j h.
        let (apart, before) = behind l j (sym (on_board-off_board k l g.board) ∙ h) in
        let key = (entry_key g l j sound before).1 in
        let led = (sound.works c k i leading).1 in
        let other : j ≢ i = λ e. apart (sym led ∙ ap g.key_of (sym e) ∙ key) in
        subst NotAbandoned (sym (put_ne i (finished none now) g.state j other)) (p.kept l j before);
  }
    where
      none-ne-some : {a : ℕ} → ◌≡◌ {A = Option ℕ} none (some a) → ⊥
      none-ne-some e = cc

      behind :
          (l : Str) (j : ℕ)
          → (if str_eq k l then none else on_board l g.board) ≡ some j
          → (k ≢ l) × (on_board l g.board ≡ some j)
      behind l j h = elim (Bool-cases (str_eq k l)) [
        | inl here ↦ absurd (none-ne-some (rw here at h))
        | inr there ↦ ((λ e. differ (sym there ∙ (str_eq_iff k l).1 e)), rw there at h)
      ]
        where
          differ : ◌≡◌ {A = Bool} false true → ⊥
          differ e = cc
