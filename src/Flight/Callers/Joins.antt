-- ===== src/Flight/Callers/Joins.antt =====
-- revalidate_flight.go: an arriving caller keeps the group sound.
use go_vai_oidc.Prelude.{
  ℕ, suc, ◌<◌, ◌≡◌, sym, ap, ◌∙◌, ◌≢◌, inl, inr, none, List, [], ◌∷◌, arith, All, subst,
}
use go_vai_oidc.Prelude.Text.{Str}
use go_vai_oidc.Flight.Callers.{
  unfinished, CallerStage, outside, working, waiting, Group, put, stage_at, met,
}
use go_vai_oidc.Flight.Callers.Sound.{same_or_other, put_self, put_ne, put-cases, IsEntry, IsSound}

module _ {R : Type 0} where
  -- A caller that begins to wait for a call on the board leaves the group sound.
  pub waits-IsSound :
      (g : Group R) (c i : ℕ) (k : Str)
      → IsSound g
      → g.stage c ≡ outside
      → (i < g.next) × (g.key_of i ≡ k)
      → IsSound (stage_at c (waiting k i) g)
  waits-IsSound g c i k sound new known = record {
    works = λ d l j h. sound.works d l j (worked d l j h).1;
    waits = λ d l j h. elim (put-cases c (waiting k i) g.stage d (waiting l j) h) [
      | inl (here, e) ↦ waits_known l j e
      | inr (there, e) ↦ sound.waits d l j e
    ];
    entries = sound.entries;
    alone = λ d e l m j h h'. sound.alone d e l m j (worked d l j h).1 (worked e m j h').1;
    led = λ j below unclosed.
        let (l, leads) = sound.led j below unclosed in
        let other : l ≢ c = λ e. idle (sym new ∙ ap g.stage (sym e) ∙ leads) in
        (l, put_ne c (waiting k i) g.stage l other ∙ leads);
  }
    where
      idle : {l : Str} {j : ℕ} → ◌≡◌ {A = CallerStage R} outside (working l j) → ⊥
      idle e = cc

      waits_known :
          (l : Str) (j : ℕ)
          → ◌≡◌ {A = CallerStage R} (waiting k i) (waiting l j)
          → (j < g.next) × (g.key_of j ≡ l)
      waits_known l j e = subst (λ s. known_stage s) e known
        where
          known_stage : CallerStage R → Type 0
          known_stage (waiting m n) = (n < g.next) × (g.key_of n ≡ m)
          known_stage s = Unit

      worked :
          (d : ℕ) (l : Str) (j : ℕ)
          → put c (waiting k i) g.stage d ≡ working l j
          → (d ≢ c) × (g.stage d ≡ working l j)
      worked d l j h = elim (put-cases c (waiting k i) g.stage d (working l j) h) [
        | inl (here, e) ↦ absurd (no_work e)
        | inr kept ↦ kept
      ]
        where
          no_work : ◌≡◌ {A = CallerStage R} (waiting k i) (working l j) → ⊥
          no_work e = cc

  -- A caller that makes a new call leaves the group sound.
  pub leads-IsSound :
      (g : Group R) (c : ℕ) (k : Str) → IsSound g → g.stage c ≡ outside → IsSound (met c k none g)
  leads-IsSound g c k sound new = record {
    works = λ d l j h. elim (put-cases c (working k g.next) g.stage d (working l j) h) [
      | inl (here, e) ↦
          subst (λ s. works_known s) e
            (omega arith, put_self g.next k g.key_of, put_self g.next unfinished g.state)
      | inr (there, e) ↦
          let (below, key, unclosed) = sound.works d l j e in
          let older : j ≢ g.next = λ e. absurd (omega (arith, below, e)) in
          (
            omega (arith, below),
            put_ne g.next k g.key_of j older ∙ key,
            put_ne g.next unfinished g.state j older ∙ unclosed,
          )
    ];
    waits = λ d l j h. elim (put-cases c (working k g.next) g.stage d (waiting l j) h) [
      | inl (here, e) ↦ absurd (no_wait e)
      | inr (there, e) ↦ let (below, key) = sound.waits d l j e in known_later (l, j) (below, key)
    ];
    entries = ((omega arith, put_self g.next k g.key_of), All-later g.board sound.entries);
    alone = λ d e l m j h h'. elim (put-cases c (working k g.next) g.stage d (working l j) h) [
      | inl (here, x) ↦ elim (put-cases c (working k g.next) g.stage e (working m j) h') [
        | inl (here', y) ↦ here ∙ sym here'
        | inr (there', y) ↦ absurd (older_than e m j y (same_call x))
      ]
      | inr (there, x) ↦ elim (put-cases c (working k g.next) g.stage e (working m j) h') [
        | inl (here', y) ↦ absurd (older_than d l j x (same_call y))
        | inr (there', y) ↦ sound.alone d e l m j x y
      ]
    ];
    led = λ j below h. elim (same_or_other j g.next) [
      | inl (last, e) ↦ (
        c,
        put_self c (working k g.next) g.stage
            ∙ rw last (ap (λ key. working key g.next) (sym (put_self g.next k g.key_of))),
      )
      | inr (other, e) ↦
          let (l, leads) =
            sound.led j (older_below j below other)
              (sym (put_ne g.next unfinished g.state j other) ∙ h) in
          let apart : l ≢ c = λ e. idle (sym new ∙ ap g.stage (sym e) ∙ leads) in
          (
            l,
            put_ne c (working k g.next) g.stage l apart
                ∙ leads
                ∙ ap (λ key. working key j) (sym (put_ne g.next k g.key_of j other)),
          )
    ];
  }
    where
      idle : {l : Str} {j : ℕ} → ◌≡◌ {A = CallerStage R} outside (working l j) → ⊥
      idle e = cc

      older_below : (j : ℕ) → j < suc g.next → j ≢ g.next → j < g.next
      older_below j below other = ground arith

      works_known : CallerStage R → Type 0
      works_known (working l j) =
          (j < suc g.next)
          × (put g.next k g.key_of j ≡ l)
          × (put g.next unfinished g.state j ≡ unfinished)
      works_known s = Unit

      no_wait : {l : Str} {j : ℕ} → ◌≡◌ {A = CallerStage R} (working k g.next) (waiting l j) → ⊥
      no_wait e = cc

      same_call :
          {l : Str} {j : ℕ} → ◌≡◌ {A = CallerStage R} (working k g.next) (working l j) → g.next ≡ j
      same_call e = cc

      older_than : (d : ℕ) (l : Str) (j : ℕ) → g.stage d ≡ working l j → g.next ≡ j → ⊥
      older_than d l j h e = absurd (omega (arith, (sound.works d l j h).0, e))

      known_later :
          (e : Str × ℕ) → IsEntry g.next g.key_of e → IsEntry (suc g.next) (put g.next k g.key_of) e
      known_later (l, j) (below, key) =
          let older : j ≢ g.next = λ e. absurd (omega (arith, below, e)) in
          (omega (arith, below), put_ne g.next k g.key_of j older ∙ key)

      All-later :
          (es : List (Str × ℕ))
          → All (IsEntry g.next g.key_of) es
          → All (IsEntry (suc g.next) (put g.next k g.key_of)) es
      All-later [] known = tt
      All-later (e ∷ es) (h, known) = (known_later e h, All-later es known)
