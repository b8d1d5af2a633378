-- ===== src/Deferred.antt =====
-- deferred.go: the constructor that works in the background. The goroutine and the callers of the
-- handle interleave; of the goroutine the mutex and the channel leave three stages, and a schedule
-- says, for each of its turns, what New has answered by then. The callers change nothing.
pub mod Schedules
use go_vai_oidc.Prelude.{Bool, true, false, Option, none, some, List, [], ◌∷◌, Result, ok, err}
use go_vai_oidc.Auth.{Auth}
use go_vai_oidc.Setup.Construction.{SetupError}

-- `DeferredAuth`; `ready` says that the channel is closed.
pub record DeferredAuth : Type 0 where
  pub ready : Bool
  pub auth : Option Auth
  pub error : Option SetupError

-- Where the goroutine stands: in New, before the close of the channel, at its end.
pub data Stage : Type 0 where
  calling stored closed : Stage

pub record Background : Type 0 where
  pub stage : Stage
  pub handle : DeferredAuth

-- Go's (auth, err) of an outcome of New.
abbrev pub auth_part : Result SetupError Auth → Option Auth
auth_part (ok a) = some a
auth_part (err e) = none

abbrev pub error_part : Result SetupError Auth → Option SetupError
error_part (ok a) = none
error_part (err e) = some e

-- `NewBackground`
abbrev pub new_background : Background
new_background = record {
  stage = calling;
  handle = record { ready = false; auth = none; error = none };
}

abbrev pub store_result : DeferredAuth → Option (Result SetupError Auth) → Background
store_result d none = record { stage = calling; handle = d }
store_result d (some res) = record {
  stage = stored;
  handle = record d { auth = auth_part res; error = error_part res };
}

abbrev pub turn_at : Stage → Option (Result SetupError Auth) → DeferredAuth → Background
turn_at calling answer d = store_result d answer
turn_at stored answer d = record { stage = closed; handle = record d { ready = true } }
turn_at closed answer d = record { stage = closed; handle = d }

-- One turn of the goroutine.
unfoldable pub turn : Option (Result SetupError Auth) → Background → Background
turn answer b = turn_at b.stage answer b.handle

unfoldable pub run : List (Option (Result SetupError Auth)) → Background → Background
unfolding turn
run [] b = b
run (answer ∷ schedule) b = run schedule (turn answer b)

-- `DeferredAuth.Ready`
unfoldable pub is_ready : DeferredAuth → Bool
is_ready d = d.ready

abbrev pub received : Bool → DeferredAuth → Option (Option Auth × Option SetupError)
received false d = none
received true d = some (d.auth, d.error)

-- `DeferredAuth.Get`; `none` while it blocks.
unfoldable pub get : DeferredAuth → Option (Option Auth × Option SetupError)
get d = received d.ready d

-- `DeferredAuth.Err`
unfoldable pub error_of : DeferredAuth → Option SetupError
error_of d = d.error
