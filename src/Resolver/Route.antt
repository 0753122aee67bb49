-- ===== src/Resolver/Route.antt =====
-- resolver.go: ResolveRoute with parseVirtualPrefix, resolveProxyRoute, proxyCacheExpired,
-- resolveVirtualRoute and resolveHostedMemberRoute.
use Prim.Native.String.{◌++◌}
use parparchik.Common.{String, Option, none, some, List, [], ◌∷◌, Bool, true, false, ◌==◌}
use parparchik.Common.{if◌then◌else◌}
use parparchik.Common.Int.{pos, ◌-ℤ◌, ltb_ℤ, saturate}
use parparchik.Common.Results.{Result, ok, err}
use parparchik.Common.Split.{cut_prefix}
use parparchik.Config.{Bucket, RepoKind, bucket_by_name}
use parparchik.Catalog.{Entry, lookup_by_route}
use parparchik.Resolver.Actions.{
  Object, Services, State, ResolverError, proxy_check, proxy_fetch, proxy_store, member_check,
  virtual_member, Action, pure, ◌>>=◌, ◌>>◌, call, with_state,
}
use parparchik.Resolver.Missing.{
  resolve_missing_file, resolve_missing_file_by_type, exists, register_resolved_object,
}

-- The key and whether the prefix is /public/.
unfoldable pub parse_virtual_prefix : String → Option (String × Bool)
parse_virtual_prefix route =
    let private_key : Option (String × Bool) = elim (cut_prefix route "/private/") [
      | none ↦ none
      | some k ↦ if k == "" then none else some (k, false)
    ] in
    elim (cut_prefix route "/public/") [
      | none ↦ private_key
      | some k ↦ if k == "" then private_key else some (k, true)
    ]

-- The outcome of a member that is tried: an error is wrapped, a hit is returned.
abbrev pub wrap_member :
    {World Error A : Type 0}
    → String
    → String
    → Result (ResolverError Error) A × State World
    → Result (ResolverError Error) A × State World
wrap_member virtual member (ok a, s) = (ok a, s)
wrap_member virtual member (err e, s) = (err (virtual_member virtual member e), s)

unfoldable pub named_member :
    {World Error A : Type 0} → String → String → Action World Error A → Action World Error A
named_member virtual member m s = wrap_member virtual member (m s)

-- `resolved != nil && resolved.Route == route`
abbrev pub at_route : String → Option Entry → Option Entry
at_route route none = none
at_route route (some e) = if e.route == route then some e else none

module _ {World Content Error : Type 0} (sv : Services World Content Error)
    (buckets : List Bucket) where
  -- `time.Since(cachedAt) > bucket.CacheTTL`, on the clock of the moment.
  unfoldable pub proxy_cache_expired : Bucket → Object → World → Bool
  proxy_cache_expired b obj w =
      if ltb_ℤ (pos 0) b.cache_ttl
      then elim (sv.parse_time obj.last_modified) [
        | none ↦ true
        | some cached_at ↦ ltb_ℤ b.cache_ttl (saturate (sv.now w -ℤ cached_at))
      ]
      else false

  unfoldable pub fetch_through : Bucket → String → Action World Error (Option Entry)
  fetch_through b key = do
    fetched ← call (proxy_fetch b.upstream_url) (sv.fetch b.upstream_url key)
    elim fetched [
      | none ↦ pure none
      | some (body, content_type) ↦ do
        call (proxy_store b.name) (sv.put_object b.name key body content_type)
        register_resolved_object sv buckets b.name key (pos (sv.content_length body)) "" true
    ]

  unfoldable pub resolve_proxy_route : Bucket → String → Action World Error (Option Entry)
  unfolding fetch_through proxy_cache_expired
  resolve_proxy_route b key = do
    cached ← call (proxy_check b.name) (sv.head_object b.name key)
    elim cached [
      | none ↦ fetch_through b key
      | some obj ↦ with_state (λ s.
          if proxy_cache_expired b obj s.world
          then fetch_through b key
          else register_resolved_object sv buckets b.name key obj.size obj.last_modified false)
    ]

  unfoldable pub resolve_hosted_member_route : Bucket → String → Action World Error (Option Entry)
  resolve_hosted_member_route member key = do
    found ← call (member_check member.name) (sv.head_object member.name key)
    elim found [
      | none ↦ pure none
      | some obj ↦
          register_resolved_object sv buckets member.name key obj.size obj.last_modified true
    ]

  -- One member of a virtual repository: none where it is skipped or has no such key.
  unfoldable pub resolve_member :
      String → String → Option Bucket → Action World Error (Option Entry)
  unfolding resolve_proxy_route resolve_hosted_member_route named_member
  resolve_member virtual key none = pure none
  resolve_member virtual key (some member) = elim member.kind [
    | RepoKind.proxy ↦ named_member virtual member.name (resolve_proxy_route member key)
    | RepoKind.virtual ↦ pure none
    | RepoKind.hosted ↦ named_member virtual member.name (resolve_hosted_member_route member key)
  ]

  -- The loop of resolveVirtualRoute.
  unfoldable pub try_members : String → String → List String → Action World Error (Option Entry)
  unfolding resolve_member
  try_members virtual key [] = pure none
  try_members virtual key (name ∷ names) = do
    entry ← resolve_member virtual key (bucket_by_name name buckets)
    elim entry [ some e ↦ pure (some e) | none ↦ try_members virtual key names ]

  unfoldable pub resolve_virtual_route : Bucket → String → Action World Error (Option Entry)
  unfolding try_members
  resolve_virtual_route b key = try_members b.name key b.members

  -- ResolveMissingFile, and what it found only if it has the requested route.
  unfoldable pub resolve_if_at : String → String → Action World Error (Option Entry)
  resolve_if_at route key = do
    resolved ← resolve_missing_file sv buckets key
    pure (at_route route resolved)

  unfoldable pub resolve_in_bucket : String → Bucket → String → Action World Error (Option Entry)
  unfolding resolve_if_at resolve_proxy_route resolve_virtual_route
  resolve_in_bucket route b key = elim b.kind [
    | RepoKind.proxy ↦ resolve_proxy_route b key
    | RepoKind.virtual ↦ resolve_virtual_route b key
    | RepoKind.hosted ↦ resolve_if_at route key
  ]

  -- The loop of ResolveRoute over the buckets: the first whose prefix fits decides.
  unfoldable pub resolve_by_prefix : String → List Bucket → Action World Error (Option Entry)
  unfolding resolve_in_bucket
  resolve_by_prefix route [] = pure none
  resolve_by_prefix route (b ∷ bs) = elim (cut_prefix route ("/" ++ (b.name ++ "/"))) [
    | none ↦ resolve_by_prefix route bs
    | some key ↦ resolve_in_bucket route b key
  ]

  -- The entry of the route is in the catalog.
  unfoldable pub resolve_known : String → Entry → Action World Error (Option Entry)
  unfolding resolve_if_at
  resolve_known route entry = do
    present ← exists sv buckets entry.bucket entry.key
    if present then pure (some entry) else resolve_if_at route entry.key

  unfoldable pub resolve_unknown : String → Action World Error (Option Entry)
  unfolding resolve_by_prefix
  resolve_unknown route = elim (parse_virtual_prefix route) [
    | none ↦ resolve_by_prefix route buckets
    | some (key, public) ↦ resolve_missing_file_by_type sv buckets key public
  ]

  unfoldable pub resolve_route : String → Action World Error (Option Entry)
  unfolding resolve_known resolve_unknown
  resolve_route route = with_state (λ s. elim (lookup_by_route route s.catalog) [
    | none ↦ resolve_unknown route
    | some entry ↦ resolve_known route entry
  ])
