-- ===== src/Flight/Callers/Served.antt =====
-- revalidate_flight.go: nobody waits in vain.
use go_vai_oidc.Prelude.{ℕ, ◌≡◌, refl, ap, ◌∙◌, ◌≢◌, Option, none, some, List}
use go_vai_oidc.Prelude.Int.{ℤ}
use go_vai_oidc.Prelude.Text.{Str}
use go_vai_oidc.Flight.Callers.{
  CallState, unfinished, finished, CallerStage, working, waiting, answered, panicked, Act, land,
  crash, wake, Group, off_board, closes, lands_by, crashes, act, fresh_group, acts,
}
use go_vai_oidc.Flight.Callers.Sound.{put_self, put_ne, IsSound, fresh_group-IsSound}
use go_vai_oidc.Flight.Callers.Steps.{acts-IsSound, waiter-works_not}

module _ {R : Type 0} (g : Group R) (c : ℕ) (k : Str) (i : ℕ) where
  -- The call of a waiter is closed, and it wakes to that call's outcome; or a caller with the same
  -- key is at work on it, and the waiter wakes to what that caller lands, or to the abandoned
  -- outcome if it panics.
  pub data IsServed : Type 0 where
    closed :
        (o : Option R) (at : ℤ)
        → g.state i ≡ finished o at
        → (act (wake c) g).stage c ≡ answered o
        → IsServed
    led_by :
        (l : ℕ)
        → g.stage l ≡ working k i
        → ((now : ℤ) (r : R) → (act (wake c) (act (land now l r) g)).stage c ≡ answered (some r))
        → ((now : ℤ) → (act (wake c) (act (crash now l) g)).stage c ≡ answered none)
        → IsServed

module _ {R : Type 0} where
  wake-finished :
      (g : Group R) (c i : ℕ) (k : Str) (o : Option R) (at : ℤ)
      → g.stage c ≡ waiting k i
      → g.state i ≡ finished o at
      → (act (wake c) g).stage c ≡ answered o
  unfolding act
  wake-finished g c i k o at waits done = rw (waits, done) (put_self c (answered o) g.stage)

  closes-wake :
      (g : Group R) (now : ℤ) (c l i : ℕ) (k : Str) (o : Option R) (s : CallerStage R)
      → g.stage c ≡ waiting k i
      → c ≢ l
      → (act (wake c) (closes now i o s l g)).stage c ≡ answered o
  closes-wake g now c l i k o s waits other =
      wake-finished (closes now i o s l g) c i k o now (put_ne l s g.stage c other ∙ waits)
        (put_self i (finished o now) g.state)

  sound-IsServed :
      (g : Group R) (c i : ℕ) (k : Str)
      → IsSound g
      → g.stage c ≡ waiting k i
      → (s : CallState R) → g.state i ≡ s
      → IsServed g c k i
  unfolding act
  sound-IsServed g c i k sound waits (finished o at) done =
      closed o at done (wake-finished g c i k o at waits done)
  sound-IsServed g c i k sound waits unfinished running =
      let (below, key) = sound.waits c k i waits in
      let (l, leads) = sound.led i below running in
      let at_work : g.stage l ≡ working k i = leads ∙ ap (λ key. working key i) key in
      let other : c ≢ l = λ e. waiter-works_not waits (ap g.stage e ∙ at_work) in
      led_by l at_work
        (λ now r.
          ap (λ h. (act (wake c) h).stage c) (ap (λ s. lands_by now l r s g) at_work)
          ∙ closes-wake g now c l i k (some r) (answered (some r)) waits other)
        (λ now.
          ap (λ h. (act (wake c) h).stage c) (ap (λ s. crashes now l s g) at_work)
          ∙ closes-wake (record g { board = off_board k g.board }) now c l i k none panicked waits
              other)

-- Whatever happens in a group from its beginning on, a caller that waits is served: its call is
-- closed and it wakes to that call's outcome, or a caller with the same key is at work on it and
-- the waiter wakes to exactly what that caller lands, and to the abandoned outcome if it panics,
-- whether or not the call is still on the map.
pub waiter-IsServed :
    {R : Type 0} (more : List (Act R)) (c i : ℕ) (k : Str)
    → let g = acts more fresh_group in g.stage c ≡ waiting k i → IsServed g c k i
waiter-IsServed more c i k waits =
    let g = acts more fresh_group in
    sound-IsServed g c i k (acts-IsSound more fresh_group fresh_group-IsSound) waits (g.state i)
      refl
