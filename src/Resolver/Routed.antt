-- ===== src/Resolver/Routed.antt =====
-- ResolveRoute: its answers and the catalog behind it.
use Prim.Native.String.{◌++◌}
use text.Mathlib.TextLemmas.{append_assoc}
use parparchik.Common.{String, Option, none, some, Bool, true, List, [], ◌∷◌, ◌≡◌, refl}
use parparchik.Common.{if◌then◌else◌, Bool-cases, Option-cases, inl, inr, sym, ap, ◌∙◌, Member}
use parparchik.Common.Results.{Result, OnOk, ok}
use parparchik.Common.Split.{cut_prefix, cut_prefix-some}
use parparchik.Config.{Bucket, RepoKind, has_storage}
use parparchik.Catalog.{Catalog, Entry, lookup_by_route, route_for}
use parparchik.Catalog.Invariant.{IsWellFormed}
use parparchik.Catalog.Preservation.{lookup_by_route_iff}
use parparchik.Resolver.Actions.{Object, Services, State, ResolverError, Action, ◌>>=◌, with_state}
use parparchik.Resolver.Missing.{is_present, exists}
use parparchik.Resolver.Route.{
  parse_virtual_prefix, resolve_proxy_route, resolve_virtual_route, resolve_if_at,
  resolve_in_bucket, resolve_by_prefix, resolve_known, resolve_unknown, resolve_route,
}
use parparchik.Resolver.Gives.{Gives, Gives-pure, Gives-weaken}
use parparchik.Resolver.Found.{IsFound, resolve_missing_file_by_type-IsFound}
use parparchik.Resolver.Answers.{
  Answer, IsAnswer, found_entry, resolve_proxy_route-IsFound, try_members-IsFound,
  resolve_if_at-IsAnswer,
}

-- The prefix of a bucket and the key make up the route of the entry.
route_of_prefix :
    (route name key : String)
    → cut_prefix route ("/" ++ (name ++ "/")) ≡ some key
    → route ≡ route_for name key
unfolding route_for
route_of_prefix route name key e =
    cut_prefix-some route _ key e
    ∙ append_assoc "/" (name ++ "/") key
    ∙ ap (λ t. "/" ++ t) (append_assoc name "/" key)

module _ {World Content Error : Type 0} (sv : Services World Content Error)
    (buckets : List Bucket) where
  proxy-IsAnswer :
      (route key : String) (b : Bucket)
      → cut_prefix route ("/" ++ (b.name ++ "/")) ≡ some key
      → Gives (IsAnswer buckets route) (resolve_proxy_route sv buckets b key)
  proxy-IsAnswer route key b cut =
      Gives-weaken (IsFound key (λ n. n ≡ b.name)) _ _ answers
        (resolve_proxy_route-IsFound sv buckets b key (λ n. n ≡ b.name) refl)
    where
      answers :
          (o : Option Entry) (c : Catalog)
          → IsFound key (λ n. n ≡ b.name) o c
          → IsAnswer buckets route o c
      answers none c f = tt
      answers (some e) c f = λ w.
          let (_, found, routed) = found_entry key (λ n. n ≡ b.name) e c f w in
          (
            found,
            Answer.direct (
                routed
                ∙ ap (λ n. route_for n key) f.1
                ∙ sym (route_of_prefix route b.name key cut)),
          )

  virtual-IsAnswer :
      (route key : String) (b : Bucket)
      → Member b buckets
      → b.kind ≡ RepoKind.virtual
      → cut_prefix route ("/" ++ (b.name ++ "/")) ≡ some key
      → Gives (IsAnswer buckets route) (resolve_virtual_route sv buckets b key)
  unfolding resolve_virtual_route
  virtual-IsAnswer route key b m is_virtual cut =
      Gives-weaken (IsFound key (λ n. Member n b.members)) _ _ answers
        (try_members-IsFound sv buckets b.name key b.members (λ n. Member n b.members) (λ n k. k))
    where
      answers :
          (o : Option Entry) (c : Catalog)
          → IsFound key (λ n. Member n b.members) o c
          → IsAnswer buckets route o c
      answers none c f = tt
      answers (some e) c f = λ w.
          let (keyed, found, _) = found_entry key (λ n. Member n b.members) e c f w in
          (found, Answer.by_virtual b m is_virtual (cut ∙ ap some (sym keyed)) f.1)

  in_bucket-IsAnswer :
      (route key : String) (b : Bucket) (kind : RepoKind)
      → Member b buckets
      → b.kind ≡ kind
      → cut_prefix route ("/" ++ (b.name ++ "/")) ≡ some key
      → Gives (IsAnswer buckets route) (elim kind [
        | RepoKind.proxy ↦ resolve_proxy_route sv buckets b key
        | RepoKind.virtual ↦ resolve_virtual_route sv buckets b key
        | RepoKind.hosted ↦ resolve_if_at sv buckets route key
      ])
  in_bucket-IsAnswer route key b RepoKind.proxy m k cut = proxy-IsAnswer route key b cut
  in_bucket-IsAnswer route key b RepoKind.virtual m k cut = virtual-IsAnswer route key b m k cut
  in_bucket-IsAnswer route key b RepoKind.hosted m k cut =
      resolve_if_at-IsAnswer sv buckets route key

  by_prefix-IsAnswer :
      (route : String) (bs : List Bucket)
      → ((b : Bucket) → Member b bs → Member b buckets)
      → Gives (IsAnswer buckets route) (resolve_by_prefix sv buckets route bs)
  unfolding resolve_by_prefix resolve_in_bucket
  by_prefix-IsAnswer route [] sub = Gives-pure _ none (λ c. tt)
  by_prefix-IsAnswer route (b ∷ bs) sub =
      elim (Option-cases (cut_prefix route ("/" ++ (b.name ++ "/")))) [
        | inl other ↦
            rw (other, resolve_by_prefix) (by_prefix-IsAnswer route bs (λ c m. sub c (inr m)))
        | inr (key, cut) ↦
            rw (cut, resolve_by_prefix)
              (in_bucket-IsAnswer route key b b.kind (sub b (inl refl)) refl cut)
      ]

  -- A name of a bucket with storage of the visibility.
  abbrev IsOfType : Bool → String → Type 0
  IsOfType public n =
      (b : Bucket) × Member b buckets × (b.name ≡ n) × (has_storage b ≡ true) × (b.public ≡ public)

  visible-IsAnswer :
      (route key : String) (public : Bool)
      → parse_virtual_prefix route ≡ some (key, public)
      → (o : Option Entry) (c : Catalog) → IsFound key (IsOfType public) o c
      → IsAnswer buckets route o c
  visible-IsAnswer route key public parsed none c f = tt
  visible-IsAnswer route key public parsed (some e) c f = λ w.
      let (keyed, found, _) = found_entry key (IsOfType public) e c f w in
      let (b, m, named, stored, visible) = f.1 in
      (
        found,
        Answer.by_visibility public b (parsed ∙ ap (λ k. some (k, public)) (sym keyed)) m named
            stored visible,
      )

  unknown-IsAnswer :
      (route : String) → Gives (IsAnswer buckets route) (resolve_unknown sv buckets route)
  unfolding resolve_unknown
  unknown-IsAnswer route = elim (Option-cases (parse_virtual_prefix route)) [
    | inl plain ↦ rw (plain, resolve_unknown) (by_prefix-IsAnswer route buckets (λ b m. m))
    | inr ((key, public), parsed) ↦
        rw (parsed, resolve_unknown)
          (Gives-weaken (IsFound key (IsOfType public)) _ _
            (visible-IsAnswer route key public parsed)
            (resolve_missing_file_by_type-IsFound sv buckets key public (IsOfType public)
              (λ b m stored visible. (b, m, refl, stored, visible))))
  ]

  known-IsAnswer :
      (route : String) (e : Entry) (s : State World)
      → IsWellFormed s.catalog
      → lookup_by_route route s.catalog ≡ some e
      → OnOk
          (λ o. IsAnswer buckets route o (resolve_known sv buckets route e s).1.catalog)
          (resolve_known sv buckets route e s).0
  unfolding resolve_known exists ◌>>=◌
  known-IsAnswer route e s w at =
      elim (Bool-cases (is_present (sv.head_object e.bucket e.key s.world).0)) [
        | inl present ↦
            rw (present, if◌then◌else◌)
              (λ _.
                let (found, routed) = (lookup_by_route_iff s.catalog route e w).0 at in
                (found, Answer.direct routed))
        | inr absent ↦
            rw (absent, if◌then◌else◌)
              ((resolve_if_at-IsAnswer sv buckets route e.key).at
                (record s { world = (sv.head_object e.bucket e.key s.world).1 }))
      ]

  -- The choice that ResolveRoute makes by what the route index says.
  chosen :
      String
      → State World
      → Option Entry
      → Result (ResolverError Error) (Option Entry) × State World
  chosen route s o =
      (elim o as (λ x. Action World Error (Option Entry)) [
        | none ↦ resolve_unknown sv buckets route
        | some entry ↦ resolve_known sv buckets route entry
      ])
        s

  route_chosen :
      (route : String) (s : State World) (o : Option Entry)
      → lookup_by_route route s.catalog ≡ o
      → resolve_route sv buckets route s ≡ chosen route s o
  unfolding resolve_route with_state chosen
  route_chosen route s o e = ap (chosen route s) e

  pub route-IsAnswer :
      (route : String) (s : State World)
      → IsWellFormed s.catalog
      → OnOk
          (λ o. IsAnswer buckets route o (resolve_route sv buckets route s).1.catalog)
          (resolve_route sv buckets route s).0
  unfolding chosen
  route-IsAnswer route s w = elim (Option-cases (lookup_by_route route s.catalog)) [
    | inl unknown ↦ rw (route_chosen route s none unknown) ((unknown-IsAnswer route).at s)
    | inr (e, at) ↦ rw (route_chosen route s (some e) at) (known-IsAnswer route e s w at)
  ]

  -- An entry of the route index whose object exists is the answer.
  pub resolve_route-present :
      (route : String) (s : State World) (e : Entry) (obj : Object)
      → lookup_by_route route s.catalog ≡ some e
      → (sv.head_object e.bucket e.key s.world).0 ≡ ok (some obj)
      → resolve_route sv buckets route s
        ≡ (ok (some e), record s { world = (sv.head_object e.bucket e.key s.world).1 })
  unfolding chosen resolve_known exists ◌>>=◌ is_present
  resolve_route-present route s e obj at there =
      route_chosen route s (some e) at ∙ rw (there, is_present, if◌then◌else◌) refl
