-- ===== src/Resolver/Sound.antt =====
-- Sequences of requests to the resolver, and what ResolveRoute returns.
use parparchik.Common.{String, Option, none, some, List, [], ◌∷◌, ◌≡◌, All}
use parparchik.Common.Results.{Result, ok, err, OnOk}
use parparchik.Config.{Bucket}
use parparchik.Catalog.{Catalog, Entry, lookup}
use parparchik.Catalog.Routes.{IsBucketName}
use parparchik.Catalog.Invariant.{IsWellFormed}
use parparchik.Catalog.Preservation.{register-IsWellFormed, set-IsWellFormed, remove-IsWellFormed}
use parparchik.Resolver.Actions.{Services, State, ResolverError}
use parparchik.Resolver.Persist.{sync_registry}
use parparchik.Resolver.Missing.{resolve_missing_file}
use parparchik.Resolver.Route.{resolve_route}
use parparchik.Resolver.Relocation.{relocate}
use parparchik.Resolver.Keeps.{IsClosed}
use parparchik.Resolver.Closure.{resolve_missing_file-Keeps}
use parparchik.Resolver.Serving.{resolve_route-Keeps}
use parparchik.Resolver.Moving.{relocate-Keeps, sync_registry-Keeps}
use parparchik.Resolver.Answers.{Answer, IsAnswer}
use parparchik.Resolver.Routed.{route-IsAnswer}

pub IsWellFormed-IsClosed : IsClosed IsBucketName IsWellFormed
IsWellFormed-IsClosed = record {
  on_set = set-IsWellFormed;
  on_register = register-IsWellFormed;
  on_remove = remove-IsWellFormed;
}

-- A request, or the tick of the background sync.
pub data Request : Type 0 where
  get_route update_file relocate_file : String → Request
  sync : Request

-- One part of a configuration: all bucket names are free of slashes.
abbrev pub HasBucketNames : List Bucket → Type 0
HasBucketNames buckets = All (λ b. IsBucketName b.name) buckets

-- What a call returns if it succeeds: nothing, or an entry that the catalog now holds under its key
-- and that answers the route.
abbrev pub IsServed : List Bucket → String → Catalog → Option Entry → Type 0
IsServed buckets route c none = Unit
IsServed buckets route c (some e) = (lookup e.key c ≡ some e) × Answer buckets route e

module _ {World Content Error : Type 0} (sv : Services World Content Error)
    (buckets : List Bucket) where
  -- The state that a request leaves, whether it succeeds or fails.
  unfoldable pub step : Request → State World → State World
  step (get_route route) s = (resolve_route sv buckets route s).1
  step (update_file key) s = (resolve_missing_file sv buckets key s).1
  step (relocate_file key) s = (relocate sv buckets key s).1
  step sync s = (sync_registry sv buckets s).1

  unfoldable pub serve : List Request → State World → State World
  unfolding step
  serve [] s = s
  serve (r ∷ rs) s = serve rs (step r s)

module _ {World Content Error : Type 0} (sv : Services World Content Error) (buckets : List Bucket)
    (named : HasBucketNames buckets) where
  step-IsWellFormed :
      (r : Request) (s : State World)
      → IsWellFormed s.catalog
      → IsWellFormed (step sv buckets r s).catalog
  unfolding step
  step-IsWellFormed (get_route route) s w =
      (resolve_route-Keeps sv buckets IsWellFormed-IsClosed named route).at s w
  step-IsWellFormed (update_file key) s w =
      (resolve_missing_file-Keeps sv buckets IsWellFormed-IsClosed key named).at s w
  step-IsWellFormed (relocate_file key) s w =
      (relocate-Keeps sv buckets IsWellFormed-IsClosed key named).at s w
  step-IsWellFormed sync s w = (sync_registry-Keeps sv buckets IsWellFormed-IsClosed named).at s w

  -- From a well-formed catalog, after any sequence of ResolveRoute, ResolveMissingFile, Relocate and
  -- SyncRegistry calls, failed ones included, and whatever storage, upstream and clock answer, the
  -- catalog is well formed, where the configured bucket names are free of slashes.
  pub serve-IsWellFormed :
      (rs : List Request) (s : State World)
      → IsWellFormed s.catalog
      → IsWellFormed (serve sv buckets rs s).catalog
  unfolding serve
  serve-IsWellFormed [] s w = w
  serve-IsWellFormed (r ∷ rs) s w =
      serve-IsWellFormed rs (step sv buckets r s) (step-IsWellFormed r s w)

  served :
      (route : String) (c : Catalog) (r : Result (ResolverError Error) (Option Entry))
      → IsWellFormed c
      → OnOk (λ o. IsAnswer buckets route o c) r
      → OnOk (IsServed buckets route c) r
  served route c (ok none) w h = tt
  served route c (ok (some e)) w h = h w
  served route c (err x) w h = tt

  -- From a well-formed catalog, an entry that ResolveRoute returns is the one that the catalog then
  -- holds under its key, and answers the route: it has the requested route; or the route is
  -- /public/<key> or /private/<key> and the entry lies in a configured bucket with storage of that
  -- visibility; or the route names a virtual repository and the entry lies in one of its members;
  -- where the configured bucket names are free of slashes.
  pub resolve_route_sound :
      (route : String) (s : State World)
      → IsWellFormed s.catalog
      → OnOk
          (IsServed buckets route (resolve_route sv buckets route s).1.catalog)
          (resolve_route sv buckets route s).0
  resolve_route_sound route s w =
      served route (resolve_route sv buckets route s).1.catalog (resolve_route sv buckets route s).0
        ((resolve_route-Keeps sv buckets IsWellFormed-IsClosed named route).at s w)
        (route-IsAnswer sv buckets route s w)
