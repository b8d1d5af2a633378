-- ===== src/Deferred/Schedules.antt =====
-- deferred.go: what the callers of the handle meet, over every schedule of the goroutine.
use go_vai_oidc.Prelude.{
  ◌≡◌, refl, sym, ap, ◌∙◌, ◌↔◌, true, false, Option, none, some, List, [], ◌∷◌, ◌++◌, All, Result,
  ok, err, some-eq,
}
use go_vai_oidc.Auth.{Auth}
use go_vai_oidc.Setup.Construction.{SetupError}
use go_vai_oidc.Deferred.{
  DeferredAuth, stored, closed, auth_part, error_part, new_background, turn, run, get, error_of,
}

abbrev pub Answers : Type 0
Answers = List (Option (Result SetupError Auth))

-- New answers `res` first at the turn in front of `after`.
abbrev pub Returns : Result SetupError Auth → Answers → Answers → Type 0
Returns res schedule after =
    (before : Answers) × All (λ answer. answer ≡ none) before
    × (schedule ≡ before ++ some res ∷ after)

run-closed :
    (schedule : Answers) (d : DeferredAuth)
    → run schedule (record { stage = closed; handle = d }) ≡ record { stage = closed; handle = d }
unfolding run turn
run-closed [] d = refl
run-closed (answer ∷ schedule) d = run-closed schedule d

run-stored :
    (schedule : Answers) (answer : Option (Result SetupError Auth)) (d : DeferredAuth)
    → (run (answer ∷ schedule) (record { stage = stored; handle = d })).handle
      ≡ record d { ready = true }
unfolding run turn
run-stored schedule answer d = ap (λ b. b.handle) (run-closed schedule (record d { ready = true }))

abbrev with_answer : Result SetupError Auth → DeferredAuth
with_answer res = record { ready = false; auth = auth_part res; error = error_part res }

-- The turns that New answers nothing at change nothing.
run-before :
    (before rest : Answers)
    → All (λ answer. answer ≡ none) before
    → run (before ++ rest) new_background ≡ run rest new_background
unfolding run turn
run-before [] rest h = refl
run-before (none ∷ before) rest (e, h) = run-before before rest h
run-before (some res ∷ before) rest (e, h) = cc

get-after :
    (res : Result SetupError Auth) (answer : Option (Result SetupError Auth)) (after : Answers)
    → get (run (some res ∷ answer ∷ after) new_background).handle
      ≡ some (auth_part res, error_part res)
unfolding get run turn
get-after res answer after = rw (run-stored after answer (with_answer res)) refl

error_of-after :
    (res : Result SetupError Auth) (after : Answers)
    → error_of (run (some res ∷ after) new_background).handle ≡ error_part res
unfolding error_of run turn
error_of-after res [] = refl
error_of-after res (answer ∷ after) = rw (run-stored after answer (with_answer res)) refl

-- One more turn at which New answers nothing.
later :
    (res : Result SetupError Auth) (schedule after : Answers)
    → Returns res schedule after
    → Returns res (none ∷ schedule) after
later res schedule after (before, silent, e) =
    (none ∷ before, (refl, silent), ap (λ rest. none ∷ rest) e)

abbrev pub Got : Option Auth × Option SetupError → Answers → Type 0
Got pair schedule =
    (res : Result SetupError Auth) × (answer : Option (Result SetupError Auth)) × (after : Answers)
    × Returns res schedule (answer ∷ after)
    × (pair ≡ (auth_part res, error_part res))

returned :
    (schedule : Answers) (pair : Option Auth × Option SetupError)
    → get (run schedule new_background).handle ≡ some pair
    → Got pair schedule
unfolding get run turn
returned [] pair h = cc
returned (none ∷ schedule) pair h =
    let (res, answer, after, first, same) = returned schedule pair h in
    (res, answer, after, later res schedule (answer ∷ after) first, same)
returned (some res ∷ []) pair h = cc
returned (some res ∷ answer ∷ schedule) pair h =
    (res, answer, schedule, ([], tt, refl), some-eq (sym h ∙ get-after res answer schedule))

-- A Get returns exactly when New has answered and the goroutine has had its turn behind that, and
-- then it returns what New answered, to every caller and for good.
pub get_iff :
    (schedule : Answers) (pair : Option Auth × Option SetupError)
    → (get (run schedule new_background).handle ≡ some pair) ↔ Got pair schedule
get_iff schedule pair = (
  returned schedule pair,
  λ (res, answer, after, (before, silent, e), same).
      rw (e, run-before before (some res ∷ answer ∷ after) silent, same)
        (get-after res answer after),
)

reported :
    (schedule : Answers) (e : SetupError)
    → error_of (run schedule new_background).handle ≡ some e
    → (after : Answers) × Returns (err e) schedule after
unfolding error_of run turn
reported [] e h = cc
reported (none ∷ schedule) e h =
    let (after, first) = reported schedule e h in (after, later (err e) schedule after first)
reported (some res ∷ schedule) e h = failed res (sym (error_of-after res schedule) ∙ h)
  where
    failed :
        (res : Result SetupError Auth)
        → error_part res ≡ some e
        → (after : Answers) × Returns (err e) (some res ∷ schedule) after
    failed (ok a) h = cc
    failed (err f) h = (schedule, ([], tt, ap (λ g. some (err g) ∷ schedule) (some-eq h)))

-- Err reports an error exactly when New has answered that error: from the turn in which it is
-- stored on, before Ready answers true.
pub error_of_iff :
    (schedule : Answers) (e : SetupError)
    → (error_of (run schedule new_background).handle ≡ some e)
      ↔ ((after : Answers) × Returns (err e) schedule after)
error_of_iff schedule e = (
  reported schedule e,
  λ (after, (before, silent, same)).
      rw (same, run-before before (some (err e) ∷ after) silent) (error_of-after (err e) after),
)
