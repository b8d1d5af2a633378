-- ===== src/Flight/Callers/Sound.antt =====
-- revalidate_flight.go: the invariant of the group and its callers.
use go_vai_oidc.Prelude.{
  ℕ, ◌<◌, ◌==◌, ◌≡◌, refl, sym, ap, ◌∙◌, ◌≢◌, ◌⊎◌, inl, inr, true, false, Option, List, arith, All,
  Bool-cases, subst,
}
use go_vai_oidc.Prelude.Int.{ℤ}
use go_vai_oidc.Prelude.Text.{Str}
use go_vai_oidc.Flight.Callers.{
  unfinished, finished, CallerStage, working, waiting, Group, put, stage_at, closes, fresh_group,
}

pub same_or_other : (m n : ℕ) → ((m ≡ n) × (m == n ≡ true)) ⊎ ((m ≢ n) × (m == n ≡ false))
same_or_other m n = elim (Bool-cases (m == n)) [
  | inl same ↦ inl (ground arith, same)
  | inr other ↦ inr ((λ e. ground arith), other)
]

module _ {A : Type 0} (n : ℕ) (x : A) (f : ℕ → A) where
  pub put_self : put n x f n ≡ x
  put_self = let same : n == n ≡ true = ground arith in rw same refl

  pub put_ne : (m : ℕ) → m ≢ n → put n x f m ≡ f m
  put_ne m ne = let other : m == n ≡ false = ground arith in rw other refl

  -- Where a value of the changed function comes from.
  pub put-cases : (m : ℕ) (y : A) → put n x f m ≡ y → ((m ≡ n) × (x ≡ y)) ⊎ ((m ≢ n) × (f m ≡ y))
  put-cases m y h = elim (same_or_other m n) [
    | inl (same, e) ↦ inl (same, rw e at h)
    | inr (other, e) ↦ inr (other, rw e at h)
  ]

-- An entry of the map is a call that was made for its key.
abbrev pub IsEntry : ℕ → (ℕ → Str) → Str × ℕ → Type 0
IsEntry next key_of e = (e.1 < next) × (key_of e.1 ≡ e.0)

module _ {R : Type 0} where
  -- What holds of every group: a working caller leads the open call of its key, a waiting one holds
  -- a call of its key, no two callers lead one call, and every open call is led.
  pub record IsSound (g : Group R) : Type 0 where
    pub works :
        (c : ℕ) (k : Str) (i : ℕ)
        → g.stage c ≡ working k i
        → (i < g.next) × (g.key_of i ≡ k) × (g.state i ≡ unfinished)
    pub waits :
        (c : ℕ) (k : Str) (i : ℕ) → g.stage c ≡ waiting k i → (i < g.next) × (g.key_of i ≡ k)
    pub entries : All (IsEntry g.next g.key_of) g.board
    pub alone :
        (c d : ℕ) (k l : Str) (i : ℕ) → g.stage c ≡ working k i → g.stage d ≡ working l i → c ≡ d
    pub led :
        (i : ℕ)
        → i < g.next
        → g.state i ≡ unfinished
        → (c : ℕ) × (g.stage c ≡ working (g.key_of i) i)

  pub fresh_group-IsSound : IsSound fresh_group
  fresh_group-IsSound = record {
    works = λ c k i h. cc;
    waits = λ c k i h. cc;
    entries = tt;
    alone = λ c d k l i h. cc;
    led = λ i h. absurd (omega (arith, h));
  }

  -- A stage that neither works nor waits.
  abbrev pub IsRest : CallerStage R → Type 0
  IsRest (working k i) = ⊥
  IsRest (waiting k i) = ⊥
  IsRest s = Unit

  rest-not_working : (s : CallerStage R) (k : Str) (i : ℕ) → IsRest s → s ≡ working k i → ⊥
  rest-not_working s k i rest e = subst IsRest e rest

  rest-not_waiting : (s : CallerStage R) (k : Str) (i : ℕ) → IsRest s → s ≡ waiting k i → ⊥
  rest-not_waiting s k i rest e = subst IsRest e rest

  -- Who works or waits after a caller came to rest did so before.
  module _ (c : ℕ) (s : CallerStage R) (rest : IsRest s) (stage : ℕ → CallerStage R) where
    pub still_working :
        (d : ℕ) (k : Str) (i : ℕ)
        → put c s stage d ≡ working k i
        → (d ≢ c) × (stage d ≡ working k i)
    still_working d k i h = elim (put-cases c s stage d (working k i) h) [
      | inl (here, e) ↦ absurd (rest-not_working s k i rest e)
      | inr kept ↦ kept
    ]

    still_waiting :
        (d : ℕ) (k : Str) (i : ℕ)
        → put c s stage d ≡ waiting k i
        → (d ≢ c) × (stage d ≡ waiting k i)
    still_waiting d k i h = elim (put-cases c s stage d (waiting k i) h) [
      | inl (here, e) ↦ absurd (rest-not_waiting s k i rest e)
      | inr kept ↦ kept
    ]

  -- A caller that leaves its wait leaves the group sound.
  pub stage_at-IsSound :
      (g : Group R) (c : ℕ) (s : CallerStage R)
      → IsSound g
      → IsRest s
      → ((k : Str) (i : ℕ) → g.stage c ≢ working k i)
      → IsSound (stage_at c s g)
  stage_at-IsSound g c s sound rest free = record {
    works = λ d k i h. sound.works d k i (still_working c s rest g.stage d k i h).1;
    waits = λ d k i h. sound.waits d k i (still_waiting c s rest g.stage d k i h).1;
    entries = sound.entries;
    alone = λ d e k l i h h'.
        sound.alone d e k l i (still_working c s rest g.stage d k i h).1
          (still_working c s rest g.stage e l i h').1;
    led = λ i below unclosed.
        let (l, leads) = sound.led i below unclosed in
        let other : l ≢ c = λ e. free (g.key_of i) i (ap g.stage (sym e) ∙ leads) in
        (l, put_ne c s g.stage l other ∙ leads);
  }

  -- A leader that closes its call leaves the group sound, on any board of known entries.
  pub closes-IsSound :
      (g : Group R) (now : ℤ) (c i : ℕ) (k : Str) (o : Option R) (s : CallerStage R)
      (board : List (Str × ℕ))
      → IsSound g
      → IsRest s
      → g.stage c ≡ working k i
      → All (IsEntry g.next g.key_of) board
      → IsSound (closes now i o s c (record g { board = board }))
  closes-IsSound g now c i k o s board sound rest leading known = record {
    works = λ d l j h.
        let (other, before) = still_working c s rest g.stage d l j h in
        let (below, key, unclosed) = sound.works d l j before in
        let apart : j ≢ i =
          λ e. other (sound.alone d c l k i (before ∙ ap (working l) e) leading) in
        (below, key, put_ne i (finished o now) g.state j apart ∙ unclosed);
    waits = λ d l j h. sound.waits d l j (still_waiting c s rest g.stage d l j h).1;
    entries = known;
    alone = λ d e l m j h h'.
        sound.alone d e l m j (still_working c s rest g.stage d l j h).1
          (still_working c s rest g.stage e m j h').1;
    led = λ j below h. elim (put-cases i (finished o now) g.state j unfinished h) [
      | inl (here, e) ↦ absurd (closed e)
      | inr (apart, unclosed) ↦
          let (l, leads) = sound.led j below unclosed in
          let other : l ≢ c = λ e. apart (same_call (sym leads ∙ ap g.stage e ∙ leading)) in
          (l, put_ne c s g.stage l other ∙ leads)
    ];
  }
    where
      closed : {x : Option R} {t : ℤ} → finished x t ≡ unfinished → ⊥
      closed e = cc

      same_call :
          {l m : Str} {a b : ℕ} → ◌≡◌ {A = CallerStage R} (working l a) (working m b) → a ≡ b
      same_call e = cc
