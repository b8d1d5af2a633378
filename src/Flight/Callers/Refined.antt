-- ===== src/Flight/Callers/Refined.antt =====
-- revalidate_flight.go: the group with callers as the call map that it stands for.
use go_vai_oidc.Prelude.{
  ℕ, ◌≡◌, refl, sym, ap, ◌∙◌, Option, none, some, List, [], ◌∷◌, if◌then◌else◌,
}
use go_vai_oidc.Prelude.Int.{ℤ}
use go_vai_oidc.Prelude.Text.{Str, str_eq}
use go_vai_oidc.Flight.{Event, find}
use go_vai_oidc.Flight.Single.{run}
use go_vai_oidc.Flight.Board.{started, observed, find-run-observed}
use go_vai_oidc.Flight.Callers.{
  CallState, unfinished, finished, CallerStage, outside, working, waiting, answered, panicked, Act,
  arrive, land, crash, wake, leave, Group, on_board, prune_board, stage_at, arrives, lands_by,
  crashes, woken, wakes, leaves, act, fresh_group, acts,
}
use go_vai_oidc.Flight.Callers.Sound.{IsSound, fresh_group-IsSound}
use go_vai_oidc.Flight.Callers.Steps.{act-IsSound, pruned-IsSound}
use go_vai_oidc.Flight.Callers.Posted.{
  IsPosted, fresh_group-IsPosted, pruned-IsPosted, on_board-prune_board,
}
use go_vai_oidc.Flight.Callers.Postings.{
  stage_at-IsPosted, met-IsPosted, landed-IsPosted, crashed-IsPosted,
}
use go_vai_oidc.Flight.Callers.Looks.{
  held, look, event_at, actor, then_events, events, Seen, held-remembered, look-met, look-landing,
  look-crashing,
}

module _ {R : Type 0} where
  module _ (g : Group R) (sound : IsSound g) (p : IsPosted g) where
    -- What a step leaves in order, and how it looks key by key.
    abbrev Kept : Option (Event R) → Group R → Type 0
    Kept e h = IsPosted h × Seen e g h

    unmoved : Kept none g
    unmoved = (p, λ k. refl)

    arrives-Kept :
        (now : ℤ) (c : ℕ) (key : Str) (s : CallerStage R)
        → Kept (event_at s (arrive now c key)) (arrives now c key s g)
    arrives-Kept now c key outside =
        let pruned = record g { board = prune_board now g.state g.board } in
        let sound' = pruned-IsSound g now sound in
        let p' = pruned-IsPosted g now sound p in
        (
          met-IsPosted pruned c key _ sound' p' refl,
          λ k.
              look-met pruned sound' p' c key k
              ∙ ap (λ o. if str_eq key k then started o else o)
                  (ap (held g.state) (on_board-prune_board now g.state k g.board p.keyed)
                    ∙ held-remembered now g.state (on_board k g.board)),
        )
    arrives-Kept now c key (working l i) = unmoved
    arrives-Kept now c key (waiting l i) = unmoved
    arrives-Kept now c key (answered o) = unmoved
    arrives-Kept now c key panicked = unmoved

    lands_by-Kept :
        (now : ℤ) (c : ℕ) (r : R) (s : CallerStage R)
        → g.stage c ≡ s
        → Kept (event_at s (land now c r)) (lands_by now c r s g)
    lands_by-Kept now c r outside h = unmoved
    lands_by-Kept now c r (working key i) h =
        (landed-IsPosted g now c i r p, λ k. look-landing g sound p now c i key k r h)
    lands_by-Kept now c r (waiting l i) h = unmoved
    lands_by-Kept now c r (answered o) h = unmoved
    lands_by-Kept now c r panicked h = unmoved

    crashes-Kept :
        (now : ℤ) (c : ℕ) (s : CallerStage R)
        → g.stage c ≡ s
        → Kept (event_at s (crash now c)) (crashes now c s g)
    crashes-Kept now c outside h = unmoved
    crashes-Kept now c (working key i) h =
        (crashed-IsPosted g now c i key sound p h, λ k. look-crashing g sound p now c i key k h)
    crashes-Kept now c (waiting l i) h = unmoved
    crashes-Kept now c (answered o) h = unmoved
    crashes-Kept now c panicked h = unmoved

    rests-Kept : (c : ℕ) (o : Option R) → Kept none (stage_at c (answered o) g)
    rests-Kept c o = (stage_at-IsPosted g c (answered o) p (λ k i. idle), λ k. refl)
      where
        idle : {k : Str} {i : ℕ} → ◌≡◌ {A = CallerStage R} (answered o) (working k i) → ⊥
        idle e = cc

    woken-Kept : (c : ℕ) (s : CallState R) → Kept none (woken c s g)
    woken-Kept c unfinished = unmoved
    woken-Kept c (finished o at) = rests-Kept c o

    wakes-Kept : (c : ℕ) (s : CallerStage R) → Kept (event_at s (wake c)) (wakes c s g)
    wakes-Kept c outside = unmoved
    wakes-Kept c (working l i) = unmoved
    wakes-Kept c (waiting l i) = woken-Kept c (g.state i)
    wakes-Kept c (answered o) = unmoved
    wakes-Kept c panicked = unmoved

    leaves-Kept : (c : ℕ) (s : CallerStage R) → Kept (event_at s (leave c)) (leaves c s g)
    leaves-Kept c outside = unmoved
    leaves-Kept c (working l i) = unmoved
    leaves-Kept c (waiting l i) = rests-Kept c none
    leaves-Kept c (answered o) = unmoved
    leaves-Kept c panicked = unmoved

    act-Kept : (a : Act R) → Kept (event_at (g.stage (actor a)) a) (act a g)
    unfolding act
    act-Kept (arrive now c k) = arrives-Kept now c k (g.stage c)
    act-Kept (land now c r) = lands_by-Kept now c r (g.stage c) refl
    act-Kept (crash now c) = crashes-Kept now c (g.stage c) refl
    act-Kept (wake c) = wakes-Kept c (g.stage c)
    act-Kept (leave c) = leaves-Kept c (g.stage c)

  Seen-then_events :
      (e : Option (Event R)) (es : List (Event R)) (g h : Group R) (k : Str)
      → Seen e g h
      → observed es k (look h k) ≡ observed (then_events e es) k (look g k)
  Seen-then_events none es g h k same = ap (observed es k) (same k)
  Seen-then_events (some e) es g h k same = ap (observed es k) (same k)

  look-acts :
      (more : List (Act R)) (g : Group R) (k : Str)
      → IsSound g
      → IsPosted g
      → look (acts more g) k ≡ observed (events more g) k (look g k)
  unfolding acts
  look-acts [] g k sound p = refl
  look-acts (a ∷ more) g k sound p =
      let (p', same) = act-Kept g sound p a in
      look-acts more (act a g) k (act-IsSound a g sound) p'
      ∙ Seen-then_events (event_at (g.stage (actor a)) a) (events more (act a g)) g (act a g) k same

-- The group with its callers stands for the call map: after any sequence of steps from the
-- beginning on, what it holds under a key is what the call map holds after the arrivals, landings
-- and panics of that sequence; a wait, its end and a step that its caller cannot take change
-- nothing there.
pub look-acts-find :
    {R : Type 0} (more : List (Act R)) (k : Str)
    → look (acts more fresh_group) k ≡ find k (run (events more fresh_group) [])
unfolding on_board
look-acts-find more k =
    look-acts more fresh_group k fresh_group-IsSound fresh_group-IsPosted
    ∙ sym (find-run-observed (events more fresh_group) k)
