-- ===== src/Scenarios/Waiting.antt =====
-- A waiter whose call has left the map, on concrete input.
use go_vai_oidc.Prelude.{ℕ, ◌≡◌, refl, [], ◌∷◌, List, none, some, ◌*◌}
use go_vai_oidc.Prelude.Int.{pos, ◌-ℤ◌}
use go_vai_oidc.Prelude.Text.{codes, str_eq}
use go_vai_oidc.Session.Payload.{second}
use go_vai_oidc.Flight.Callers.{
  Act, arrive, land, crash, wake, answered, finished, acts, act, on_board, fresh_group, prune_board,
}
use go_vai_oidc.Flight.{find}
use go_vai_oidc.Flight.Single.{run}
use go_vai_oidc.Flight.Callers.Looks.{look, events}
use go_vai_oidc.Flight.Callers.Refined.{look-acts-find}
use go_vai_oidc.Flight.Callers.Served.{IsServed, waiter-IsServed}

-- 2 waits for the work of 1; 3 arrives when the retention of its result is over, and 4 waits for 3.
abbrev busy : List (Act ℕ)
busy =
    arrive (pos 0) 1 (codes "k")
    ∷ arrive (pos 1) 2 (codes "k")
    ∷ land (pos 2) 1 7
    ∷ arrive (pos (11 * second)) 3 (codes "k")
    ∷ arrive (pos (11 * second)) 4 (codes "k")
    ∷ []

waiter-IsServed_example : IsServed (acts busy fresh_group) 2 (codes "k") 0
unfolding acts act on_board prune_board str_eq codes ◌-ℤ◌
waiter-IsServed_example = waiter-IsServed busy 2 0 (codes "k") refl

the_late_waiter : IsServed (acts busy fresh_group) 4 (codes "k") 1
unfolding acts act on_board prune_board str_eq codes ◌-ℤ◌
the_late_waiter = waiter-IsServed busy 4 1 (codes "k") refl

it_wakes_to_the_first_result : (act (wake 2) (acts busy fresh_group)).stage 2 ≡ answered (some 7)
unfolding acts act on_board prune_board str_eq codes ◌-ℤ◌
it_wakes_to_the_first_result = refl

a_panic_frees_it :
    (act (wake 4) (act (crash (pos (12 * second)) 3) (acts busy fresh_group))).stage 4
    ≡ answered none
unfolding acts act on_board prune_board str_eq codes ◌-ℤ◌ go_vai_oidc.Flight.Callers.off_board
a_panic_frees_it = refl

look-acts-find_example :
    look (acts busy fresh_group) (codes "k") ≡ find (codes "k") (run (events busy fresh_group) [])
look-acts-find_example = look-acts-find busy (codes "k")
