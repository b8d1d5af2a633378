-- ===== src/Flight/Callers.antt =====
-- revalidate_flight.go: the group with its callers. A caller that waits holds the call that it met,
-- not the entry of the map, which may be pruned or deleted meanwhile; a call is its number in the
-- order of the calls' making. The name of a key stands beside a call for the theorems alone. When a
-- call is done and the waiter's context too, either may be taken.
pub mod Sound
pub mod Joins
pub mod Steps
pub mod Posted
pub mod Postings
pub mod Looks
pub mod Refined
pub mod Served
use go_vai_oidc.Prelude.{
  ℕ, suc, ◌==◌, Bool, true, false, Option, none, some, List, [], ◌∷◌, if◌then◌else◌,
}
use go_vai_oidc.Prelude.Int.{ℤ, ◌-ℤ◌, leb_ℤ}
use go_vai_oidc.Prelude.Text.{Str, str_eq}
use go_vai_oidc.Flight.{revalidate_flight_retention}

module _ (R : Type 0) where
  -- `revalCall`: its result, `none` for the abandoned one, and the time at which it was closed.
  pub data CallState : Type 0 where
    unfinished : CallState
    finished : Option R → ℤ → CallState

  -- Where a caller of `do` stands; `answered none` is errRevalidationAbandoned.
  pub data CallerStage : Type 0 where
    outside : CallerStage
    working : Str → ℕ → CallerStage
    waiting : Str → ℕ → CallerStage
    answered : Option R → CallerStage
    panicked : CallerStage

  -- What may happen next: a caller arrives, a leader's work lands or panics, a waiter is woken by
  -- its call or by the end of its own context.
  pub data Act : Type 0 where
    arrive : ℤ → ℕ → Str → Act
    land : ℤ → ℕ → R → Act
    crash : ℤ → ℕ → Act
    wake : ℕ → Act
    leave : ℕ → Act

  pub record Group : Type 0 where
    pub next : ℕ
    pub key_of : ℕ → Str
    pub state : ℕ → CallState
    pub board : List (Str × ℕ)
    pub stage : ℕ → CallerStage

abbrev pub put {ℓ} : {A : Type ℓ} → ℕ → A → (ℕ → A) → ℕ → A
put n x f m = if m == n then x else f m

unfoldable pub on_board : Str → List (Str × ℕ) → Option ℕ
on_board key [] = none
on_board key ((k, i) ∷ es) = if str_eq k key then some i else on_board key es

unfoldable pub off_board : Str → List (Str × ℕ) → List (Str × ℕ)
off_board key [] = []
off_board key ((k, i) ∷ es) =
    let rest = off_board key es in if str_eq k key then rest else (k, i) ∷ rest

module _ {R : Type 0} where
  abbrev pub is_over : ℤ → CallState R → Bool
  is_over now unfinished = false
  is_over now (finished o at) = leb_ℤ revalidate_flight_retention (now -ℤ at)

  unfoldable pub prune_board : ℤ → (ℕ → CallState R) → List (Str × ℕ) → List (Str × ℕ)
  prune_board now state [] = []
  prune_board now state ((k, i) ∷ es) =
      let rest = prune_board now state es in if is_over now (state i) then rest else (k, i) ∷ rest

  abbrev pub stage_at : ℕ → CallerStage R → Group R → Group R
  stage_at c s g = record g { stage = put c s g.stage }

  abbrev pub met : ℕ → Str → Option ℕ → Group R → Group R
  met c k (some i) g = stage_at c (waiting k i) g
  met c k none g = record {
    next = suc g.next;
    key_of = put g.next k g.key_of;
    state = put g.next unfinished g.state;
    board = (k, g.next) ∷ g.board;
    stage = put c (working k g.next) g.stage;
  }

  abbrev pub arrives : ℤ → ℕ → Str → CallerStage R → Group R → Group R
  arrives now c k outside g =
      let live = prune_board now g.state g.board in
      met c k (on_board k live) (record g { board = live })
  arrives now c k s g = g

  abbrev pub closes : ℤ → ℕ → Option R → CallerStage R → ℕ → Group R → Group R
  closes now i o s c g = record g {
    state = put i (finished o now) g.state;
    stage = put c s g.stage;
  }

  abbrev pub lands_by : ℤ → ℕ → R → CallerStage R → Group R → Group R
  lands_by now c r (working k i) g = closes now i (some r) (answered (some r)) c g
  lands_by now c r s g = g

  abbrev pub crashes : ℤ → ℕ → CallerStage R → Group R → Group R
  crashes now c (working k i) g =
      closes now i none panicked c (record g { board = off_board k g.board })
  crashes now c s g = g

  abbrev pub woken : ℕ → CallState R → Group R → Group R
  woken c unfinished g = g
  woken c (finished o at) g = stage_at c (answered o) g

  abbrev pub wakes : ℕ → CallerStage R → Group R → Group R
  wakes c (waiting k i) g = woken c (g.state i) g
  wakes c s g = g

  abbrev pub leaves : ℕ → CallerStage R → Group R → Group R
  leaves c (waiting k i) g = stage_at c (answered none) g
  leaves c s g = g

  -- `do`, one locked piece or one wait at a time.
  unfoldable pub act : Act R → Group R → Group R
  unfolding prune_board on_board off_board
  act (arrive now c k) g = arrives now c k (g.stage c) g
  act (land now c r) g = lands_by now c r (g.stage c) g
  act (crash now c) g = crashes now c (g.stage c) g
  act (wake c) g = wakes c (g.stage c) g
  act (leave c) g = leaves c (g.stage c) g

  -- Nobody has called yet.
  abbrev pub fresh_group : Group R
  fresh_group = record {
    next = 0;
    key_of = λ i. [];
    state = λ i. unfinished;
    board = [];
    stage = λ c. outside;
  }

  unfoldable pub acts : List (Act R) → Group R → Group R
  acts [] g = g
  acts (a ∷ more) g = acts more (act a g)
