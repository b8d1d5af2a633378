-- ===== src/Flight/Board.antt =====
-- revalidate_flight.go: the call map as what it stands for, a function from keys to calls.
use go_vai_oidc.Prelude.{
  ◌≡◌, refl, ap, ◌∙◌, Option, none, some, List, [], ◌∷◌, arith, inl, inr, Bool-cases, if◌then◌else◌,
}
use go_vai_oidc.Prelude.Int.{ℤ}
use go_vai_oidc.Prelude.Text.{Str, str_eq, str_eq_iff}
use go_vai_oidc.Flight.{
  Call, running, done, Event, arrive, land, panic, Calls, find, is_stale, prune, delete, update,
  joined_by, enter, step,
}
use go_vai_oidc.Flight.Laws.{find-prune-none}
use go_vai_oidc.Flight.Single.{run}

module _ {ℓ} {R : Type ℓ} where
  -- A call that is remembered at `now`.
  abbrev pub live : ℤ → Option (Call R) → Option (Call R)
  live now none = none
  live now (some c) = if is_stale now c then none else some c

  abbrev pub started : Option (Call R) → Option (Call R)
  started none = some running
  started (some c) = some c

  abbrev pub landed : ℤ → R → Option (Call R) → Option (Call R)
  landed now r none = none
  landed now r (some c) = some (done r now)

  -- What an event does to the call of the key `k`: an arrival forgets it when it is stale, and
  -- starts it if it is for that key and there is none; a landing of that key records the result; a
  -- panic of that key forgets it.
  abbrev pub seen : Event R → Str → Option (Call R) → Option (Call R)
  seen (arrive now key) k o = if str_eq key k then started (live now o) else live now o
  seen (land now key r) k o = if str_eq key k then landed now r o else o
  seen (panic now key) k o = if str_eq key k then none else o

  abbrev pub observed : List (Event R) → Str → Option (Call R) → Option (Call R)
  observed [] k o = o
  observed (e ∷ es) k o = observed es k (seen e k o)

  -- No key stands twice.
  abbrev pub IsMap : Calls R → Type ℓ
  IsMap [] = Unit
  IsMap ((k, c) ∷ cs) = (find k cs ≡ none) × IsMap cs

  find-prune-live :
      (now : ℤ) (key : Str) (cs : Calls R)
      → IsMap cs
      → find key (prune now cs) ≡ live now (find key cs)
  unfolding find prune
  find-prune-live now key [] m = refl
  find-prune-live now key ((k, c) ∷ cs) (fresh, m) = elim (Bool-cases (str_eq k key)) [
    | inl here ↦
        let same : k ≡ key = (str_eq_iff k key).0 here in
        let gone : find key cs ≡ none = rw (← same) fresh in
        ground (arith, here, find-prune-none now key cs gone)
    | inr there ↦ ground (arith, there, find-prune-live now key cs m)
  ]

  find-update :
      (now : ℤ) (key k : Str) (r : R) (cs : Calls R)
      → find k (update key (done r now) cs)
        ≡ (if str_eq key k then landed now r (find k cs) else find k cs)
  unfolding find update
  find-update now key k r [] = ground arith
  find-update now key k r ((j, c) ∷ cs) =
      ground (arith, str_eq_iff j key, str_eq_iff j k, str_eq_iff key k, find-update now key k r cs)

  find-delete :
      (key k : Str) (cs : Calls R)
      → find k (delete key cs) ≡ (if str_eq key k then none else find k cs)
  unfolding find delete
  find-delete key k [] = ground arith
  find-delete key k ((j, c) ∷ cs) =
      ground (arith, str_eq_iff j key, str_eq_iff j k, str_eq_iff key k, find-delete key k cs)

  prune-IsMap : (now : ℤ) (cs : Calls R) → IsMap cs → IsMap (prune now cs)
  unfolding prune
  prune-IsMap now [] m = tt
  prune-IsMap now ((k, c) ∷ cs) (fresh, m) = elim (Bool-cases (is_stale now c)) [
    | inl old ↦ rw old (prune-IsMap now cs m)
    | inr young ↦ rw young (find-prune-none now k cs fresh, prune-IsMap now cs m)
  ]

  update-IsMap :
      (now : ℤ) (key : Str) (r : R) (cs : Calls R) → IsMap cs → IsMap (update key (done r now) cs)
  unfolding update
  update-IsMap now key r [] m = tt
  update-IsMap now key r ((k, c) ∷ cs) (fresh, m) = elim (Bool-cases (str_eq k key)) [
    | inl here ↦ rw here (fresh, m)
    | inr there ↦
        let gone : find k (update key (done r now) cs) ≡ none =
          ground (arith, find-update now key k r cs, fresh) in
        rw there (gone, update-IsMap now key r cs m)
  ]

  delete-IsMap : (key : Str) (cs : Calls R) → IsMap cs → IsMap (delete key cs)
  unfolding delete
  delete-IsMap key [] m = tt
  delete-IsMap key ((k, c) ∷ cs) (fresh, m) = elim (Bool-cases (str_eq k key)) [
    | inl here ↦ rw here (delete-IsMap key cs m)
    | inr there ↦
        let gone : find k (delete key cs) ≡ none = ground (arith, find-delete key k cs, fresh) in
        rw there (gone, delete-IsMap key cs m)
  ]

  joined_by-IsMap :
      (key : Str) (cs : Calls R) (met : Option (Call R))
      → find key cs ≡ met
      → IsMap cs
      → IsMap (joined_by key met cs)
  joined_by-IsMap key cs none e m = (e, m)
  joined_by-IsMap key cs (some c) e m = m

  find-joined_by :
      (key k : Str) (cs : Calls R) (met : Option (Call R))
      → find key cs ≡ met
      → find k (joined_by key met cs) ≡ (if str_eq key k then started (find k cs) else find k cs)
  unfolding find
  find-joined_by key k cs none e = elim (Bool-cases (str_eq key k)) [
    | inl here ↦
        let same : key ≡ k = (str_eq_iff key k).0 here in
        let gone : find k cs ≡ none = rw (← same) e in rw (here, gone) refl
    | inr there ↦ rw there refl
  ]
  find-joined_by key k cs (some c) e = elim (Bool-cases (str_eq key k)) [
    | inl here ↦
        let same : key ≡ k = (str_eq_iff key k).0 here in
        let held : find k cs ≡ some c = rw (← same) e in rw (here, held) refl
    | inr there ↦ rw there refl
  ]

  step-IsMap : (e : Event R) (cs : Calls R) → IsMap cs → IsMap (step e cs)
  unfolding step enter
  step-IsMap (arrive now key) cs m =
      joined_by-IsMap key (prune now cs) (find key (prune now cs)) refl (prune-IsMap now cs m)
  step-IsMap (land now key r) cs m = update-IsMap now key r cs m
  step-IsMap (panic now key) cs m = delete-IsMap key cs m

  find-step :
      (e : Event R) (k : Str) (cs : Calls R) → IsMap cs → find k (step e cs) ≡ seen e k (find k cs)
  unfolding step enter
  find-step (arrive now key) k cs m =
      find-joined_by key k (prune now cs) (find key (prune now cs)) refl
      ∙ rw (find-prune-live now k cs m) refl
  find-step (land now key r) k cs m = find-update now key k r cs
  find-step (panic now key) k cs m = find-delete key k cs

  find-run :
      (es : List (Event R)) (k : Str) (cs : Calls R)
      → IsMap cs
      → find k (run es cs) ≡ observed es k (find k cs)
  unfolding run
  find-run [] k cs m = refl
  find-run (e ∷ es) k cs m =
      find-run es k (step e cs) (step-IsMap e cs m) ∙ ap (observed es k) (find-step e k cs m)

-- From an empty group on, the call map is the function that the events define key by key: events
-- for other keys only forget a stale call.
pub find-run-observed :
    {R : Type 0} (es : List (Event R)) (k : Str) → find k (run es []) ≡ observed es k none
unfolding find
find-run-observed es k = find-run es k [] tt
