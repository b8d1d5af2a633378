-- ===== src/Flight/Single.antt =====
-- revalidate_flight.go: how often the work for one key runs.
use go_vai_oidc.Prelude.{
  ℕ, ◌+◌, ◌≡◌, refl, ◌∙◌, ◌≢◌, Bool, true, false, some, List, [], ◌∷◌, ◌++◌, arith, inl, inr,
  Bool-cases, Option-cases, if◌then◌else◌, ◌&&◌,
}
use go_vai_oidc.Prelude.Int.{ℤ, ◌+ℤ◌, ◌<ℤ◌, +ℤ_parts, -ℤ_parts}
use go_vai_oidc.Prelude.Text.{Str, str_eq, str_eq_iff}
use go_vai_oidc.Flight.Laws.{
  find-prune, find-prune-none, find-update_ne, find-update_self, find-delete_ne, find-delete_self,
}
use go_vai_oidc.Flight.{
  revalidate_flight_retention, Call, running, done, Arrival, leads, waits, joins, Event, arrive,
  land, panic, Calls, find, is_stale, prune, delete, meets, enter, step,
}

-- Before the retention of a result that landed at `at` is over.
abbrev pub IsRetained : ℤ → ℤ → Type 0
IsRetained now at = now <ℤ at +ℤ revalidate_flight_retention

module _ {ℓ} {R : Type ℓ} where
  -- An event that leaves the call of a key: any arrival before the call goes stale, and what other
  -- leaders do.
  abbrev pub Leaves : Str → Call R → Event R → Type 0
  Leaves key running (arrive now k) = Unit
  Leaves key (done r at) (arrive now k) = IsRetained now at
  Leaves key c (land now k r) = k ≢ key
  Leaves key c (panic now k) = k ≢ key

  abbrev pub AllLeave : Str → Call R → List (Event R) → Type 0
  AllLeave key c [] = Unit
  AllLeave key c (e ∷ es) = Leaves key c e × AllLeave key c es

  abbrev pub is_lead : Arrival R → Bool
  is_lead leads = true
  is_lead waits = false
  is_lead (joins r) = false

  -- How often a caller with the key runs the work itself.
  abbrev led_by : Str → Event R → Calls R → ℕ
  led_by key (arrive now k) cs = if str_eq k key && is_lead (enter now k cs).1 then 1 else 0
  led_by key (land now k r) cs = 0
  led_by key (panic now k) cs = 0

  unfoldable pub run : List (Event R) → Calls R → Calls R
  run [] cs = cs
  run (e ∷ es) cs = run es (step e cs)

  unfoldable pub led : Str → List (Event R) → Calls R → ℕ
  led key [] cs = 0
  led key (e ∷ es) cs = led_by key e cs + led key es (step e cs)

  retained-fresh : (now at : ℤ) (r : R) → IsRetained now at → is_stale now (done r at) ≡ false
  retained-fresh now at r h =
      ground (arith, -ℤ_parts now at, +ℤ_parts at revalidate_flight_retention)

  fresh_of :
      (key : Str) (c : Call R) (now : ℤ) (k : Str)
      → Leaves key c (arrive now k)
      → is_stale now c ≡ false
  fresh_of key running now k h = refl
  fresh_of key (done r at) now k h = retained-fresh now at r h

  enter-held :
      (now : ℤ) (key k : Str) (c : Call R) (cs : Calls R)
      → find key cs ≡ some c
      → is_stale now c ≡ false
      → (find key (enter now k cs).0 ≡ some c)
        × (str_eq k key && is_lead (enter now k cs).1 ≡ false)
  unfolding enter
  enter-held now key k c cs e s =
      let live = prune now cs in
      let held : find key live ≡ some c = find-prune now key cs c e s in
      elim (Bool-cases (str_eq k key)) [
        | inl same ↦
            let k-key : k ≡ key = (str_eq_iff k key).0 same in
            rw (k-key, held) (held, rw (met_not_lead c) (and_false (str_eq key key)))
        | inr other ↦ elim (Option-cases (find k live)) [
          | inl absent ↦ rw (absent, other) (held, refl)
          | inr (d, there) ↦ rw (there, other) (held, refl)
        ]
      ]
    where
      met_not_lead : (c : Call R) → is_lead (meets (some c)) ≡ false
      met_not_lead running = refl
      met_not_lead (done r at) = refl

      and_false : (b : Bool) → b && false ≡ false
      and_false true = refl
      and_false false = refl

  step-held :
      (key : Str) (c : Call R) (e : Event R) (cs : Calls R)
      → find key cs ≡ some c
      → Leaves key c e
      → (find key (step e cs) ≡ some c) × (led_by key e cs ≡ 0)
  unfolding step
  step-held key c (arrive now k) cs h l =
      let (held, not_lead) = enter-held now key k c cs h (fresh_of key c now k l) in
      (held, rw not_lead)
  step-held key c (land now k r) cs h l =
      (find-update_ne key k (done r now) cs (other c l) ∙ h, refl)
    where
      other : (c : Call R) → Leaves key c (land now k r) → k ≢ key
      other running l = l
      other (done x at) l = l
  step-held key c (panic now k) cs h l = (find-delete_ne key k cs (other c l) ∙ h, refl)
    where
      other : (c : Call R) → Leaves key c (panic now k) → k ≢ key
      other running l = l
      other (done x at) l = l

  run-held :
      (key : Str) (c : Call R) (es : List (Event R)) (cs : Calls R)
      → find key cs ≡ some c
      → AllLeave key c es
      → (find key (run es cs) ≡ some c) × (led key es cs ≡ 0)
  unfolding run led
  run-held key c [] cs h l = (h, refl)
  run-held key c (e ∷ es) cs h (l, ls) =
      let (held, none_led) = step-held key c e cs h l in
      let (kept, rest) = run-held key c es (step e cs) held ls in
      (kept, omega (arith, none_led, rest))

  led-append :
      (key : Str) (es fs : List (Event R)) (cs : Calls R)
      → led key (es ++ fs) cs ≡ led key es cs + led key fs (run es cs)
  unfolding run led
  led-append key [] fs cs = omega arith
  led-append key (e ∷ es) fs cs = omega (arith, led-append key es fs (step e cs))

  run-append : (es fs : List (Event R)) (cs : Calls R) → run (es ++ fs) cs ≡ run fs (run es cs)
  unfolding run
  run-append [] fs cs = refl
  run-append (e ∷ es) fs cs = run-append es fs (step e cs)

  enter-done :
      (now at : ℤ) (key : Str) (r : R) (cs : Calls R)
      → find key cs ≡ some (done r at)
      → IsRetained now at
      → (enter now key cs).1 ≡ joins r
  unfolding enter
  enter-done now at key r cs h fresh =
      rw (find-prune now key cs (done r at) h (retained-fresh now at r fresh))

  -- Single flight. While the work for a key runs, whoever arrives with the key waits for it; once it
  -- has landed with a result, whoever arrives within the retention takes that result; over the whole
  -- stretch nobody runs the work a second time, whatever arrives, lands or panics under other keys.
  pub single_flight :
      (key : Str) (cs : Calls R) (before after : List (Event R)) (at now : ℤ) (r : R)
      → find key cs ≡ some running
      → AllLeave key running before
      → AllLeave key (done r at) after
      → IsRetained now at
      → let es = before ++ land at key r ∷ after in
        (led key es cs ≡ 0) × ((enter now key (run es cs)).1 ≡ joins r)
  single_flight key cs before after at now r h b a fresh =
      let (kept, none_before) = run-held key running before cs h b in
      let landed : find key (step (land at key r) (run before cs)) ≡ some (done r at) =
        unfold step in find-update_self key running (done r at) (run before cs) kept in
      let (held, none_after) = run-held key (done r at) after _ landed a in
      let later : led key (land at key r ∷ after) (run before cs) ≡ 0 =
        unfold led in omega (arith, none_after) in
      let whole : run (before ++ land at key r ∷ after) cs
          ≡ run (land at key r ∷ after) (run before cs) =
        run-append before (land at key r ∷ after) cs in
      (
        omega (arith, led-append key before (land at key r ∷ after) cs, none_before, later),
        rw whole (enter-done now at key r _ (unfold run in held) fresh),
      )

  -- A leader that panics leaves no result: the next caller with the key runs the work itself.
  pub panic-enter_leads :
      (key : Str) (cs : Calls R) (at now : ℤ) → (enter now key (step (panic at key) cs)).1 ≡ leads
  unfolding enter step
  panic-enter_leads key cs at now =
      rw (find-prune-none now key (delete key cs) (find-delete_self key cs))
