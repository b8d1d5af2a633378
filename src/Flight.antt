-- ===== src/Flight.antt =====
-- revalidate_flight.go: the group of in-process flights. The mutex makes each piece of `do` between
-- two waits one step, so a run of the group is a sequence of events: a caller arrives, a leader's
-- work lands, a leader panics. A waiter holds its call and is answered when that call is done.
pub mod Laws
pub mod Single
pub mod Board
pub mod Callers
use go_vai_oidc.Prelude.{
  ℕ, ◌*◌, Bool, true, false, Option, none, some, List, [], ◌∷◌, if◌then◌else◌,
}
use go_vai_oidc.Prelude.Int.{ℤ, pos, ◌-ℤ◌, leb_ℤ}
use go_vai_oidc.Prelude.Text.{Str, str_eq}
use go_vai_oidc.Session.Payload.{second}

abbrev pub revalidate_flight_retention : ℤ
revalidate_flight_retention = pos (10 * second)

module _ {ℓ} (R : Type ℓ) where
  -- `revalCall`: `done` is the closed channel, with the result and the time it was closed.
  pub data Call : Type ℓ where
    running : Call
    done : R → ℤ → Call

  -- What a caller of `do` meets: it runs the work itself, waits for a call that runs, or takes the
  -- result of one that is done.
  pub data Arrival : Type ℓ where
    leads : Arrival
    waits : Arrival
    joins : R → Arrival

  -- `land` carries what the leader's work returned; `panic` is its deferred release.
  pub data Event : Type ℓ where
    arrive : ℤ → Str → Event
    land : ℤ → Str → R → Event
    panic : ℤ → Str → Event

abbrev pub Calls {ℓ} : Type ℓ → Type ℓ
Calls R = List (Str × Call R)

module _ {ℓ} {R : Type ℓ} where
  unfoldable pub find : Str → Calls R → Option (Call R)
  find key [] = none
  find key ((k, c) ∷ cs) = if str_eq k key then some c else find key cs

  abbrev pub is_stale : ℤ → Call R → Bool
  is_stale now running = false
  is_stale now (done r at) = leb_ℤ revalidate_flight_retention (now -ℤ at)

  -- `pruneLocked`
  unfoldable pub prune : ℤ → Calls R → Calls R
  prune now [] = []
  prune now ((k, c) ∷ cs) = if is_stale now c then prune now cs else (k, c) ∷ prune now cs

  unfoldable pub delete : Str → Calls R → Calls R
  delete key [] = []
  delete key ((k, c) ∷ cs) = if str_eq k key then delete key cs else (k, c) ∷ delete key cs

  unfoldable pub update : Str → Call R → Calls R → Calls R
  update key c [] = []
  update key c ((k, d) ∷ cs) = if str_eq k key then (k, c) ∷ cs else (k, d) ∷ update key c cs

  abbrev pub meets : Option (Call R) → Arrival R
  meets none = leads
  meets (some running) = waits
  meets (some (done r at)) = joins r

  abbrev pub joined_by : Str → Option (Call R) → Calls R → Calls R
  joined_by key none cs = (key, running) ∷ cs
  joined_by key (some c) cs = cs

  -- The locked part of `do`, up to the wait or the work.
  unfoldable pub enter : ℤ → Str → Calls R → Calls R × Arrival R
  unfolding prune find
  enter now key cs =
      let live = prune now cs in let met = find key live in (joined_by key met live, meets met)

  -- One event of the group.
  unfoldable pub step : Event R → Calls R → Calls R
  unfolding enter update delete
  step (arrive now key) cs = (enter now key cs).0
  step (land now key r) cs = update key (done r now) cs
  step (panic now key) cs = delete key cs
