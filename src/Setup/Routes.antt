-- ===== src/Setup/Routes.antt =====
-- auth.go: the router, and the routes that a gateway in front of it is told to skip. go-chi finds a
-- route by its method and its exact path.
use mathlib.Core.List.{Memᴰ}
use go_vai_oidc.Prelude.{◌≡◌, refl, ◌↔◌, List, [], ◌∷◌, ◌++◌, map, ap, sym, subst}
use go_vai_oidc.Prelude.Text.{Str, codes}

-- `Auth.SkipPaths`
abbrev pub skip_paths : List Str
skip_paths =
    codes "/login"
    ∷ codes "/callback"
    ∷ codes "/logout"
    ∷ codes "/session"
    ∷ codes "/session/sync"
    ∷ codes "/session/sync.js"
    ∷ codes "/session/sync/blocked"
    ∷ []

-- `Auth.SkipPathsWithPrefix`
unfoldable pub skip_paths_with_prefix : Str → List Str
skip_paths_with_prefix prefix = map (λ p. prefix ++ p) skip_paths

pub data Method : Type 0 where
  get post : Method

-- The handlers by their names.
pub data Endpoint : Type 0 where
  login callback logout session session_sync : Endpoint
  session_sync_script session_sync_blocked : Endpoint

-- `Auth.Routes`
abbrev pub routes : List (Method × Str × Endpoint)
routes =
    (get, codes "/login", login)
    ∷ (get, codes "/callback", callback)
    ∷ (get, codes "/logout", logout)
    ∷ (post, codes "/logout", logout)
    ∷ (get, codes "/session", session)
    ∷ (get, codes "/session/sync", session_sync)
    ∷ (get, codes "/session/sync.js", session_sync_script)
    ∷ (post, codes "/session/sync/blocked", session_sync_blocked)
    ∷ []

-- A mount at the prefix answers the path.
abbrev pub IsRouted : Str → Str → Type 0
IsRouted prefix path =
    (method : Method) × (route : Str) × (endpoint : Endpoint) × Memᴰ (method, route, endpoint)
      routes
    × (path ≡ prefix ++ route)

Mem-map : (f : Str → Str) (x : Str) (xs : List Str) → Memᴰ x xs → Memᴰ (f x) (map f xs)
Mem-map f x [] m = elim m [ ]
Mem-map f x (y ∷ xs) (Memᴰ.head e) = Memᴰ.head (ap f e)
Mem-map f x (y ∷ xs) (Memᴰ.tail m) = Memᴰ.tail (Mem-map f x xs m)

map-Mem :
    (f : Str → Str) (y : Str) (xs : List Str)
    → Memᴰ y (map f xs)
    → (x : Str) × Memᴰ x xs × (y ≡ f x)
map-Mem f y [] m = elim m [ ]
map-Mem f y (x ∷ xs) (Memᴰ.head e) = (x, Memᴰ.head refl, e)
map-Mem f y (x ∷ xs) (Memᴰ.tail m) =
    let (z, held, same) = map-Mem f y xs m in (z, Memᴰ.tail held, same)

abbrev IsRoute : Str → Type 0
IsRoute route = (method : Method) × (endpoint : Endpoint) × Memᴰ (method, route, endpoint) routes

routed_at :
    (method : Method) (endpoint : Endpoint) {route named : Str}
    → route ≡ named
    → Memᴰ (method, named, endpoint) routes
    → Memᴰ (method, route, endpoint) routes
routed_at method endpoint e m = subst (λ r. Memᴰ (method, r, endpoint) routes) (sym e) m

routed : (route : Str) → Memᴰ route skip_paths → IsRoute route
routed route (Memᴰ.head e) = (get, login, routed_at get login e (Memᴰ.head refl))
routed route (Memᴰ.tail (Memᴰ.head e)) =
    (get, callback, routed_at get callback e (Memᴰ.tail (Memᴰ.head refl)))
routed route (Memᴰ.tail (Memᴰ.tail (Memᴰ.head e))) =
    (get, logout, routed_at get logout e (Memᴰ.tail (Memᴰ.tail (Memᴰ.head refl))))
routed route (Memᴰ.tail (Memᴰ.tail (Memᴰ.tail (Memᴰ.head e)))) = (
  get,
  session,
  routed_at get session e (Memᴰ.tail (Memᴰ.tail (Memᴰ.tail (Memᴰ.tail (Memᴰ.head refl))))),
)
routed route (Memᴰ.tail (Memᴰ.tail (Memᴰ.tail (Memᴰ.tail (Memᴰ.head e))))) = (
  get,
  session_sync,
  routed_at get session_sync e
      (Memᴰ.tail (Memᴰ.tail (Memᴰ.tail (Memᴰ.tail (Memᴰ.tail (Memᴰ.head refl)))))),
)
routed route (Memᴰ.tail (Memᴰ.tail (Memᴰ.tail (Memᴰ.tail (Memᴰ.tail (Memᴰ.head e)))))) = (
  get,
  session_sync_script,
  routed_at get session_sync_script e
      (Memᴰ.tail (Memᴰ.tail (Memᴰ.tail (Memᴰ.tail (Memᴰ.tail (Memᴰ.tail (Memᴰ.head refl))))))),
)
routed route (Memᴰ.tail (Memᴰ.tail (Memᴰ.tail (Memᴰ.tail (Memᴰ.tail (Memᴰ.tail (Memᴰ.head e))))))) =
    (
      post,
      session_sync_blocked,
      routed_at post session_sync_blocked e (
          Memᴰ.tail (
            Memᴰ.tail
              (Memᴰ.tail (Memᴰ.tail (Memᴰ.tail (Memᴰ.tail (Memᴰ.tail (Memᴰ.head refl)))))))),
    )
routed route (Memᴰ.tail (Memᴰ.tail (Memᴰ.tail (Memᴰ.tail (Memᴰ.tail (Memᴰ.tail (Memᴰ.tail m))))))) =
    elim m [ ]

skipped :
    (method : Method) (route : Str) (endpoint : Endpoint)
    → Memᴰ (method, route, endpoint) routes
    → Memᴰ route skip_paths
skipped method route endpoint (Memᴰ.head e) = Memᴰ.head (ap (λ t. t.1) e)
skipped method route endpoint (Memᴰ.tail (Memᴰ.head e)) = Memᴰ.tail (Memᴰ.head (ap (λ t. t.1) e))
skipped method route endpoint (Memᴰ.tail (Memᴰ.tail (Memᴰ.head e))) =
    Memᴰ.tail (Memᴰ.tail (Memᴰ.head (ap (λ t. t.1) e)))
skipped method route endpoint (Memᴰ.tail (Memᴰ.tail (Memᴰ.tail (Memᴰ.head e)))) =
    Memᴰ.tail (Memᴰ.tail (Memᴰ.head (ap (λ t. t.1) e)))
skipped method route endpoint (Memᴰ.tail (Memᴰ.tail (Memᴰ.tail (Memᴰ.tail (Memᴰ.head e))))) =
    Memᴰ.tail (Memᴰ.tail (Memᴰ.tail (Memᴰ.head (ap (λ t. t.1) e))))
skipped method route endpoint
      (Memᴰ.tail (Memᴰ.tail (Memᴰ.tail (Memᴰ.tail (Memᴰ.tail (Memᴰ.head e)))))) =
    Memᴰ.tail (Memᴰ.tail (Memᴰ.tail (Memᴰ.tail (Memᴰ.head (ap (λ t. t.1) e)))))
skipped method route endpoint
      (Memᴰ.tail (Memᴰ.tail (Memᴰ.tail (Memᴰ.tail (Memᴰ.tail (Memᴰ.tail (Memᴰ.head e))))))) =
    Memᴰ.tail (Memᴰ.tail (Memᴰ.tail (Memᴰ.tail (Memᴰ.tail (Memᴰ.head (ap (λ t. t.1) e))))))
skipped method route endpoint
      (Memᴰ.tail
        (Memᴰ.tail (Memᴰ.tail (Memᴰ.tail (Memᴰ.tail (Memᴰ.tail (Memᴰ.tail (Memᴰ.head e)))))))) =
    Memᴰ.tail
      (Memᴰ.tail (Memᴰ.tail (Memᴰ.tail (Memᴰ.tail (Memᴰ.tail (Memᴰ.head (ap (λ t. t.1) e)))))))
skipped method route endpoint
      (Memᴰ.tail
        (Memᴰ.tail (Memᴰ.tail (Memᴰ.tail (Memᴰ.tail (Memᴰ.tail (Memᴰ.tail (Memᴰ.tail m)))))))) =
    elim m [ ]

-- The paths that are skipped under a prefix are exactly those that a mount there answers.
pub skip_paths_with_prefix_iff :
    (prefix path : Str) → Memᴰ path (skip_paths_with_prefix prefix) ↔ IsRouted prefix path
unfolding skip_paths_with_prefix
skip_paths_with_prefix_iff prefix path = (
  λ m.
      let (route, held, same) = map-Mem (λ p. prefix ++ p) path skip_paths m in
      let (method, endpoint, there) = routed route held in (method, route, endpoint, there, same),
  λ (method, route, endpoint, there, same).
      subst (λ p. Memᴰ p (map (λ q. prefix ++ q) skip_paths)) (sym same)
        (Mem-map (λ p. prefix ++ p) route skip_paths (skipped method route endpoint there)),
)
