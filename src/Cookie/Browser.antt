-- ===== src/Cookie/Browser.antt =====
-- The browser's side of the cookie contract, for the round trips: it keeps one value to a name,
-- drops what it is told to delete or what has expired, and sends what it keeps. The cookies of a jar
-- share one host and one path; a browser may send cookies of other scopes beside them.
use go_vai_oidc.Prelude.{
  ◌∙◌, ◌≡◌, refl, ◌≢◌, Bool, true, false, none, some, List, [], ◌∷◌, arith, if◌then◌else◌,
}
use go_vai_oidc.Prelude.Int.{ℤ, leb_ℤ}
use go_vai_oidc.Prelude.Text.{Str, str_eq, str_eq_iff, str_eq_self}
use go_vai_oidc.Cookie.{SetCookie, Life, expires, max_age, delete, cookie}

abbrev pub Jar : Type 0
Jar = List (Str × Str)

unfoldable pub remove : Str → Jar → Jar
remove name [] = []
remove name ((n, v) ∷ jar) = if str_eq n name then remove name jar else (n, v) ∷ remove name jar

abbrev pub is_live : ℤ → Life → Bool
is_live now (expires at) = if leb_ℤ at now then false else true
is_live now (max_age s) = true
is_live now delete = false

-- One Set-Cookie header, received at the unix time `now`.
unfoldable pub store : ℤ → SetCookie → Jar → Jar
unfolding remove
store now c jar =
    if is_live now c.life then (c.name, c.value) ∷ remove c.name jar else remove c.name jar

unfoldable pub receive : ℤ → List SetCookie → Jar → Jar
receive now [] jar = jar
receive now (c ∷ cs) jar = receive now cs (store now c jar)

pub cookie-remove_self : (name : Str) (jar : Jar) → cookie name (remove name jar) ≡ none
unfolding cookie remove
cookie-remove_self name [] = refl
cookie-remove_self name ((n, v) ∷ jar) = ground (arith, cookie-remove_self name jar)

pub cookie-remove_ne :
    (name other : Str) (jar : Jar) → name ≢ other → cookie name (remove other jar) ≡ cookie name jar
unfolding cookie remove
cookie-remove_ne name other [] ne = refl
cookie-remove_ne name other ((n, v) ∷ jar) ne =
    ground (arith, str_eq_iff n other, str_eq_iff n name, cookie-remove_ne name other jar)

pub cookie-store_live :
    (now : ℤ) (c : SetCookie) (jar : Jar)
    → is_live now c.life ≡ true
    → cookie c.name (store now c jar) ≡ some c.value
unfolding store cookie
cookie-store_live now c jar live = ground (arith, str_eq_self c.name)

pub cookie-store_dead :
    (now : ℤ) (c : SetCookie) (jar : Jar)
    → is_live now c.life ≡ false
    → cookie c.name (store now c jar) ≡ none
unfolding store
cookie-store_dead now c jar dead = ground (arith, cookie-remove_self c.name jar)

pub cookie-store_ne :
    (now : ℤ) (name : Str) (c : SetCookie) (jar : Jar)
    → name ≢ c.name
    → cookie name (store now c jar) ≡ cookie name jar
unfolding store cookie
cookie-store_ne now name c jar ne =
    ground (arith, str_eq_iff c.name name, cookie-remove_ne name c.name jar)

abbrev pub Avoids : Str → List SetCookie → Type 0
Avoids name [] = Unit
Avoids name (c ∷ cs) = (name ≢ c.name) × Avoids name cs

-- Cookies of other names leave a cookie as it was.
pub cookie-receive_ne :
    (now : ℤ) (name : Str) (cs : List SetCookie) (jar : Jar)
    → Avoids name cs
    → cookie name (receive now cs jar) ≡ cookie name jar
unfolding receive
cookie-receive_ne now name [] jar h = refl
cookie-receive_ne now name (c ∷ cs) jar (ne, h) =
    cookie-receive_ne now name cs (store now c jar) h ∙ cookie-store_ne now name c jar ne
