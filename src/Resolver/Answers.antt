-- ===== src/Resolver/Answers.antt =====
-- The answers to a route: the entries that it asks for, and those that the catalog holds.
use Prim.Native.String.{◌++◌}
use parparchik.Common.{
  String, Option, none, some, Bool, true, false, List, [], ◌∷◌, ◌≡◌, refl, arith,
}
use parparchik.Common.{◌==◌, eq_iff, Bool-cases, inl, inr, sym}
use parparchik.Common.{Member, subst}
use parparchik.Common.Split.{cut_prefix}
use parparchik.Config.{Bucket, RepoKind, has_storage, bucket_by_name}
use parparchik.Catalog.{Catalog, Entry, lookup, route_for}
use parparchik.Catalog.Invariant.{IsWellFormed}
use parparchik.Resolver.Actions.{Services, pure}
use parparchik.Resolver.Route.{
  parse_virtual_prefix, at_route, named_member, fetch_through, resolve_proxy_route,
  proxy_cache_expired, resolve_hosted_member_route, resolve_member, try_members, resolve_if_at,
}
use parparchik.Resolver.Gives.{
  Gives, Gives-bind, Gives-option, Gives-pure, Gives-if, Gives-with_state, Gives-map, Gives-first,
  Gives-named_member,
}
use parparchik.Resolver.Found.{
  IsFound, resolve_missing_file-IsFound, register_resolved_object-IsFound,
}

-- Why an entry is the answer to a route: it has that route; or the route is /public/<key> or
-- /private/<key>, and the entry lies in a bucket with storage of that visibility; or the route is
-- /<name>/<key> for a virtual repository, and the entry lies in one of its members.
pub data Answer (buckets : List Bucket) (route : String) (e : Entry) : Type 0 where
  direct : e.route ≡ route → Answer buckets route e
  by_visibility :
      (public : Bool) (b : Bucket)
      → parse_virtual_prefix route ≡ some (e.key, public)
      → Member b buckets
      → b.name ≡ e.bucket
      → has_storage b ≡ true
      → b.public ≡ public
      → Answer buckets route e
  by_virtual :
      (v : Bucket)
      → Member v buckets
      → v.kind ≡ RepoKind.virtual
      → cut_prefix route ("/" ++ (v.name ++ "/")) ≡ some e.key
      → Member e.bucket v.members
      → Answer buckets route e

-- A returned entry is registered under its key, and the answer to the route.
abbrev pub IsAnswer : List Bucket → String → Option Entry → Catalog → Type 0
IsAnswer buckets route none c = Unit
IsAnswer buckets route (some e) c =
    IsWellFormed c → (lookup e.key c ≡ some e) × Answer buckets route e

-- What `IsFound` says in a well-formed catalog.
pub found_entry :
    (key : String) (B : String → Type 0) (e : Entry) (c : Catalog)
    → IsFound key B (some e) c
    → IsWellFormed c
    → (e.key ≡ key) × (lookup e.key c ≡ some e) × (e.route ≡ route_for e.bucket key)
unfolding lookup
found_entry key B e c (at, good) w =
    let i = w.entries key e at in (i.key, ground (arith, at, i.key), i.routed)

module _ {World Content Error : Type 0} (sv : Services World Content Error)
    (buckets : List Bucket) where
  fetch_through-IsFound :
      (b : Bucket) (key : String) (B : String → Type 0)
      → B b.name
      → Gives (IsFound key B) (fetch_through sv buckets b key)
  unfolding fetch_through
  fetch_through-IsFound b key B good = Gives-bind _ _ _ λ fetched.
      Gives-option _ fetched _ _ (Gives-pure _ none (λ c. tt)) λ got.
        Gives-bind _ _ _
          λ _. register_resolved_object-IsFound sv buckets b.name key _ "" true B good

  pub resolve_proxy_route-IsFound :
      (b : Bucket) (key : String) (B : String → Type 0)
      → B b.name
      → Gives (IsFound key B) (resolve_proxy_route sv buckets b key)
  unfolding resolve_proxy_route
  resolve_proxy_route-IsFound b key B good =
      let fetched = fetch_through-IsFound b key B good in
      Gives-bind _ _ _ λ cached. Gives-option _ cached _ _ fetched λ obj. Gives-with_state _ _ λ s.
        Gives-if _ (proxy_cache_expired sv buckets b obj s.world) _ _ (λ _. fetched)
          (λ _. register_resolved_object-IsFound sv buckets b.name key _ _ false B good)

  resolve_hosted_member_route-IsFound :
      (b : Bucket) (key : String) (B : String → Type 0)
      → B b.name
      → Gives (IsFound key B) (resolve_hosted_member_route sv buckets b key)
  unfolding resolve_hosted_member_route
  resolve_hosted_member_route-IsFound b key B good = Gives-bind _ _ _ λ found.
      Gives-option _ found _ _ (Gives-pure _ none (λ c. tt))
        (λ obj. register_resolved_object-IsFound sv buckets b.name key _ _ true B good)

  member-IsFound :
      (virtual key : String) (b : Bucket) (kind : RepoKind) (B : String → Type 0)
      → B b.name
      → Gives (IsFound key B) (elim kind [
        | RepoKind.proxy ↦ named_member virtual b.name (resolve_proxy_route sv buckets b key)
        | RepoKind.virtual ↦ pure none
        | RepoKind.hosted ↦
            named_member virtual b.name (resolve_hosted_member_route sv buckets b key)
      ])
  member-IsFound virtual key b RepoKind.proxy B good =
      Gives-named_member _ virtual b.name _ (resolve_proxy_route-IsFound b key B good)
  member-IsFound virtual key b RepoKind.virtual B good = Gives-pure _ none (λ c. tt)
  member-IsFound virtual key b RepoKind.hosted B good =
      Gives-named_member _ virtual b.name _ (resolve_hosted_member_route-IsFound b key B good)

  resolve_member-IsFound :
      (virtual key : String) (o : Option Bucket) (B : String → Type 0)
      → ((b : Bucket) → o ≡ some b → B b.name)
      → Gives (IsFound key B) (resolve_member sv buckets virtual key o)
  unfolding resolve_member
  resolve_member-IsFound virtual key none B good = Gives-pure _ none (λ c. tt)
  resolve_member-IsFound virtual key (some b) B good =
      member-IsFound virtual key b b.kind B (good b refl)

  named_by :
      (name : String) (bs : List Bucket) (b : Bucket)
      → bucket_by_name name bs ≡ some b
      → b.name ≡ name
  unfolding bucket_by_name
  named_by name [] b e = absurd (ground arith)
  named_by name (c ∷ bs) b e = ground (arith, eq_iff c.name name, named_by name bs b)

  pub try_members-IsFound :
      (virtual key : String) (names : List String) (B : String → Type 0)
      → ((name : String) → Member name names → B name)
      → Gives (IsFound key B) (try_members sv buckets virtual key names)
  unfolding try_members
  try_members-IsFound virtual key [] B good = Gives-pure _ none (λ c. tt)
  try_members-IsFound virtual key (name ∷ names) B good =
      Gives-first _ _ _
        (resolve_member-IsFound virtual key (bucket_by_name name buckets) B
          λ b e. subst B (sym (named_by name buckets b e)) (good name (inl refl)))
        (try_members-IsFound virtual key names B (λ n m. good n (inr m)))

  pub resolve_if_at-IsAnswer :
      (route key : String) → Gives (IsAnswer buckets route) (resolve_if_at sv buckets route key)
  unfolding resolve_if_at
  resolve_if_at-IsAnswer route key =
      Gives-map (IsFound key (λ _. Unit {0})) _ _ (at_route route) (answers)
        (resolve_missing_file-IsFound sv buckets key (λ _. Unit {0}) (λ b m h. tt))
    where
      answers :
          (o : Option Entry) (c : Catalog)
          → IsFound key (λ _. Unit {0}) o c
          → IsAnswer buckets route (at_route route o) c
      answers none c f = tt
      answers (some e) c f = elim (Bool-cases (e.route == route)) [
        | inl same ↦
            rw same λ w.
              ((found_entry key (λ _. Unit {0}) e c f w).1, Answer.direct ((eq_iff _ _).0 same))
        | inr other ↦ rw other tt
      ]
