-- ===== src/Admission/Domains.antt =====
-- email_domain.go: whose address passes the domain gate.
use go_vai_oidc.Prelude.{
  ℕ, ◌≡◌, refl, sym, ap, ◌∙◌, ◌≢◌, ◌↔◌, ◌⊎◌, inl, inr, Bool, true, false, Option, none, some, [],
  ◌∷◌, ◌++◌, arith, ok, Bool-cases, Option-cases, All,
}
use go_vai_oidc.Prelude.Text.{
  Str, is_empty, to_lower, folded, equal_fold, str_eq_iff, IsAscii, lowered, folded-IsAscii,
}
use go_vai_oidc.User.{User}
use go_vai_oidc.Admission.{after_last, email_domain_of, enforce_email_domain}

-- An address has a domain: it splits at an "@" behind which there is none, and the text there, in
-- lower case, is not empty.
abbrev pub HasDomain : Str → Str → Type 0
HasDomain email domain =
    (local rest : Str) × (email ≡ local ++ b'@' ∷ rest)
    × All (λ c. c ≢ b'@') rest
    × (to_lower rest ≡ domain)
    × (is_empty domain ≡ false)

after_last-none : (sep : ℕ) (s : Str) → after_last sep s ≡ none → All (λ c. c ≢ sep) s
unfolding after_last
after_last-none sep [] h = tt
after_last-none sep (c ∷ s) h = (ground arith, after_last-none sep s (ground arith))

after_last-some :
    (sep : ℕ) (s rest : Str)
    → after_last sep s ≡ some rest
    → (local : Str) × (s ≡ local ++ sep ∷ rest) × All (λ c. c ≢ sep) rest
unfolding after_last
after_last-some sep [] rest h = absurd (cc)
after_last-some sep (c ∷ s) rest h = elim (Option-cases (after_last sep s)) [
  | inl here ↦
      let same : s ≡ rest = ground arith in
      let byte : c ≡ sep = ground arith in ([], cc, rw (← same) (after_last-none sep s here))
  | inr (t, later) ↦
      let (local, e, h') = after_last-some sep s t later in
      let same : t ≡ rest = ground arith in (c ∷ local, cc, rw (← same) h')
]

-- What is accepted by the domain gate, with no condition when none is required.
abbrev pub PassesDomain : Option User → Str → Type 0
PassesDomain user required =
    (is_empty required ≡ true)
    ⊎ ((u : User) × (domain : Str) × (user ≡ some u)
        × HasDomain u.email domain
        × (folded domain ≡ folded required))

-- The same for a required domain in ASCII, which folds to its lower case.
abbrev pub IsInDomain : Option User → Str → Type 0
IsInDomain user required =
    (is_empty required ≡ true)
    ⊎ ((u : User) × (domain : Str) × (user ≡ some u)
        × HasDomain u.email domain
        × (folded domain ≡ lowered required))

pub PassesDomain-IsInDomain :
    (user : Option User) (required : Str)
    → IsAscii required
    → PassesDomain user required ↔ IsInDomain user required
PassesDomain-IsInDomain user required ascii =
    let same = folded-IsAscii required ascii in
    (
      λ p. elim p [
        | inl e ↦ inl e
        | inr (u, domain, is, has, e) ↦ inr (u, domain, is, has, e ∙ same)
      ],
      λ p. elim p [
        | inl e ↦ inl e
        | inr (u, domain, is, has, e) ↦ inr (u, domain, is, has, e ∙ sym same)
      ],
    )

after_last-absent : (sep : ℕ) (s : Str) → All (λ c. c ≢ sep) s → after_last sep s ≡ none
unfolding after_last
after_last-absent sep [] h = refl
after_last-absent sep (c ∷ s) (ne, h) = ground (arith, after_last-absent sep s h)

after_last-append :
    (sep : ℕ) (local rest : Str)
    → All (λ c. c ≢ sep) rest
    → after_last sep (local ++ sep ∷ rest) ≡ some rest
unfolding after_last
after_last-append sep [] rest h = ground (arith, after_last-absent sep rest h)
after_last-append sep (c ∷ local) rest h = ground (arith, after_last-append sep local rest h)

email_domain_of-none : (email : Str) → after_last b'@' email ≡ none → email_domain_of email ≡ []
unfolding email_domain_of
email_domain_of-none email e = ground arith

email_domain_of-some :
    (email rest : Str) → after_last b'@' email ≡ some rest → email_domain_of email ≡ to_lower rest
unfolding email_domain_of
email_domain_of-some email rest e = ground arith

-- The domain that the code computes is the domain of the address.
pub email_domain_of→HasDomain :
    (email : Str)
    → is_empty (email_domain_of email) ≡ false
    → HasDomain email (email_domain_of email)
email_domain_of→HasDomain email h = elim (Option-cases (after_last b'@' email)) [
  | inl missing ↦ absurd (nil_nonempty (rw (email_domain_of-none email missing) at h))
  | inr (rest, found) ↦
      let (local, e, plain) = after_last-some b'@' email rest found in
      (local, rest, e, plain, sym (email_domain_of-some email rest found), h)
]
  where
    nil_nonempty : ◌≡◌ {A = Bool} true false → ⊥
    nil_nonempty e = cc

pub HasDomain→email_domain_of :
    (email domain : Str) → HasDomain email domain → email_domain_of email ≡ domain
HasDomain→email_domain_of email domain (local, rest, e, plain, lowered, nonempty) =
    email_domain_of-some email rest (rw e (after_last-append b'@' local rest plain)) ∙ lowered

equal_fold_iff : (s t : Str) → (equal_fold s t ≡ true) ↔ (folded s ≡ folded t)
unfolding equal_fold
equal_fold_iff s t = str_eq_iff (folded s) (folded t)

domain_gate-passes :
    (user : Option User) (required : Str)
    → enforce_email_domain user required ≡ ok tt
    → PassesDomain user required
domain_gate-passes none required h = unfold enforce_email_domain in ground arith
domain_gate-passes (some u) required h = elim (Bool-cases (is_empty required)) [
  | inl e ↦ inl e
  | inr e ↦
      let full : is_empty (email_domain_of u.email) ≡ false =
        unfold enforce_email_domain in ground arith in
      let matches : equal_fold (email_domain_of u.email) required ≡ true =
        unfold enforce_email_domain in ground arith in
      inr (
        u,
        email_domain_of u.email,
        refl,
        email_domain_of→HasDomain u.email full,
        (equal_fold_iff _ _).0 matches,
      )
]

open_gate :
    (user : Option User) (required : Str)
    → is_empty required ≡ true
    → enforce_email_domain user required ≡ ok tt
unfolding enforce_email_domain
open_gate none required e = ground arith
open_gate (some u) required e = ground arith

matching_gate :
    (u : User) (required domain : Str)
    → HasDomain u.email domain
    → folded domain ≡ folded required
    → enforce_email_domain (some u) required ≡ ok tt
matching_gate u required domain has same =
    let (local, rest, e, plain, lower_case, nonempty) = has in
    let is : email_domain_of u.email ≡ domain = HasDomain→email_domain_of u.email domain has in
    let matches : equal_fold (email_domain_of u.email) required ≡ true =
      (equal_fold_iff _ _).1 (ap folded is ∙ same) in
    let full : is_empty (email_domain_of u.email) ≡ false = rw is nonempty in
    unfold enforce_email_domain in ground arith

-- The domain gate passes exactly when no domain is required, or the address has a domain, what
-- follows its last "@" in lower case, that folds as the required one does.
pub domain_gate_iff :
    (user : Option User) (required : Str)
    → (enforce_email_domain user required ≡ ok tt) ↔ PassesDomain user required
domain_gate_iff user required = (
  domain_gate-passes user required,
  λ p. elim p [
    | inl e ↦ open_gate user required e
    | inr (u, domain, is, has, same) ↦ rw is (matching_gate u required domain has same)
  ],
)
