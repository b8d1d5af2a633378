-- ===== src/Flight/Callers/Looks.antt =====
-- revalidate_flight.go: what a step of the group with callers does to the call under a key.
use go_vai_oidc.Prelude.{
  ℕ, ◌≡◌, refl, sym, ap, ◌∙◌, ◌≢◌, inl, inr, Bool, true, false, Option, none, some, List, [], ◌∷◌,
  if◌then◌else◌, arith, Bool-cases,
}
use go_vai_oidc.Prelude.Int.{ℤ}
use go_vai_oidc.Prelude.Text.{Str, str_eq, str_eq_iff}
use go_vai_oidc.Flight.{Call, running, done, Event}
use go_vai_oidc.Flight.Board.{live, started, landed, seen}
use go_vai_oidc.Flight.Callers.{
  CallState, unfinished, finished, CallerStage, outside, working, answered, panicked, Act, arrive,
  land, crash, wake, leave, Group, put, on_board, off_board, is_over, met, closes, act,
}
use go_vai_oidc.Flight.Callers.Sound.{put_self, put_ne, IsSound}
use go_vai_oidc.Flight.Callers.Posted.{NotAbandoned, IsPosted, remembered, on_board-off_board}
use go_vai_oidc.Flight.Callers.Postings.{entry_key}

differ : (key k : Str) → str_eq key k ≡ false → key ≡ k → ⊥
differ key k other same = apart (sym other ∙ (str_eq_iff key k).1 same)
  where
    apart : ◌≡◌ {A = Bool} false true → ⊥
    apart e = cc

module _ {R : Type 0} where
  -- The call that the map holds under a key, without the abandoned ones.
  abbrev pub call_of : CallState R → Option (Call R)
  call_of unfinished = some running
  call_of (finished (some r) at) = some (done r at)
  call_of (finished none at) = none

  abbrev pub held : (ℕ → CallState R) → Option ℕ → Option (Call R)
  held state none = none
  held state (some i) = call_of (state i)

  abbrev pub look : Group R → Str → Option (Call R)
  look g k = held g.state (on_board k g.board)

  -- The event of the map that a step is, if it is one.
  abbrev pub event_at : CallerStage R → Act R → Option (Event R)
  event_at outside (arrive now c k) = some (Event.arrive now k)
  event_at (working k i) (land now c r) = some (Event.land now k r)
  event_at (working k i) (crash now c) = some (Event.panic now k)
  event_at s a = none

  abbrev pub actor : Act R → ℕ
  actor (arrive now c k) = c
  actor (land now c r) = c
  actor (crash now c) = c
  actor (wake c) = c
  actor (leave c) = c

  abbrev pub then_events : Option (Event R) → List (Event R) → List (Event R)
  then_events none es = es
  then_events (some e) es = e ∷ es

  abbrev pub events : List (Act R) → Group R → List (Event R)
  events [] g = []
  events (a ∷ more) g = then_events (event_at (g.stage (actor a)) a) (events more (act a g))

  abbrev pub Seen : Option (Event R) → Group R → Group R → Type 0
  Seen none g h = (k : Str) → look h k ≡ look g k
  Seen (some e) g h = (k : Str) → look h k ≡ seen e k (look g k)

  pub held-remembered :
      (now : ℤ) (state : ℕ → CallState R) (o : Option ℕ)
      → held state (remembered now state o) ≡ live now (held state o)
  held-remembered now state none = refl
  held-remembered now state (some i) = of_state (state i) refl
    where
      of_state :
          (s : CallState R)
          → state i ≡ s
          → held state (remembered now state (some i)) ≡ live now (call_of (state i))
      of_state unfinished e = rw e (ap call_of e)
      of_state (finished (some r) at) e = elim (Bool-cases (is_over now (state i))) [
        | inl gone ↦
            let stale : is_over now (finished (some r) at) ≡ true =
              ap (is_over now) (sym e) ∙ gone in
            rw (gone, e, stale) refl
        | inr stays ↦
            let fresh : is_over now (finished (some r) at) ≡ false =
              ap (is_over now) (sym e) ∙ stays in
            rw (stays, e, fresh) refl
      ]
      of_state (finished none at) e = elim (Bool-cases (is_over now (state i))) [
        | inl gone ↦ rw (gone, e) refl
        | inr stays ↦ rw (stays, e) refl
      ]

  held-put :
      (i : ℕ) (s : CallState R) (state : ℕ → CallState R) (o : Option ℕ)
      → ((j : ℕ) → o ≡ some j → j ≢ i)
      → held (put i s state) o ≡ held state o
  held-put i s state none apart = refl
  held-put i s state (some j) apart = ap call_of (put_ne i s state j (apart j refl))

  started-kept : (s : CallState R) → NotAbandoned s → started (call_of s) ≡ call_of s
  started-kept unfinished h = refl
  started-kept (finished (some r) at) h = refl
  started-kept (finished none at) h = absurd h

  module _ (g : Group R) (sound : IsSound g) (p : IsPosted g) where
    look-met_by :
        (c : ℕ) (key k : Str) (o : Option ℕ)
        → on_board key g.board ≡ o
        → look (met c key o g) k ≡ (if str_eq key k then started (look g k) else look g k)
    unfolding on_board
    look-met_by c key k none h = elim (Bool-cases (str_eq key k)) [
      | inl here ↦
          let same : key ≡ k = (str_eq_iff key k).0 here in
          let absent : on_board k g.board ≡ none = rw (← same) h in
          rw (here, absent) (ap call_of (put_self g.next unfinished g.state))
      | inr there ↦ rw there (
          held-put g.next unfinished g.state (on_board k g.board)
            (λ j e x. absurd (omega (arith, (entry_key g k j sound e).0, x))))
    ]
    look-met_by c key k (some i) h = elim (Bool-cases (str_eq key k)) [
      | inl here ↦
          let same : key ≡ k = (str_eq_iff key k).0 here in
          let there : on_board k g.board ≡ some i = rw (← same) h in
          rw (here, there) (sym (started-kept (g.state i) (p.kept k i there)))
      | inr there ↦ rw there refl
    ]

    pub look-met :
        (c : ℕ) (key k : Str)
        → look (met c key (on_board key g.board) g) k
          ≡ (if str_eq key k then started (look g k) else look g k)
    look-met c key k = look-met_by c key k (on_board key g.board) refl

    pub look-landing :
        (now : ℤ) (c i : ℕ) (key k : Str) (r : R)
        → g.stage c ≡ working key i
        → look (closes now i (some r) (answered (some r)) c g) k
          ≡ (if str_eq key k then landed now r (look g k) else look g k)
    look-landing now c i key k r leading = elim (Bool-cases (str_eq key k)) [
      | inl here ↦
          let same : key ≡ k = (str_eq_iff key k).0 here in
          let there : on_board k g.board ≡ some i = rw (← same) (p.posted c key i leading) in
          let running : g.state i ≡ unfinished = (sound.works c key i leading).2 in
          rw (here, there)
            (ap call_of (put_self i (finished (some r) now) g.state) ∙ rw running refl)
      | inr there ↦ rw there (
          held-put i (finished (some r) now) g.state (on_board k g.board) (λ j e x.
            differ key k there (
              sym (sound.works c key i leading).1
              ∙ ap g.key_of (sym x)
              ∙ (entry_key g k j sound e).1)))
    ]

    pub look-crashing :
        (now : ℤ) (c i : ℕ) (key k : Str)
        → g.stage c ≡ working key i
        → look (closes now i none panicked c (record g { board = off_board key g.board })) k
          ≡ (if str_eq key k then none else look g k)
    look-crashing now c i key k leading = elim (Bool-cases (str_eq key k)) [
      | inl here ↦ rw (on_board-off_board key k g.board, here) refl
      | inr there ↦
          rw (on_board-off_board key k g.board, there)
            (held-put i (finished none now) g.state (on_board k g.board) (λ j e x.
              differ key k there (
                sym (sound.works c key i leading).1
                ∙ ap g.key_of (sym x)
                ∙ (entry_key g k j sound e).1)))
    ]
