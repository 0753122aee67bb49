-- ===== src/Resolver/Serving.antt =====
-- ResolveRoute and the predicates on a catalog that Set, Register and Remove keep.
use Prim.Native.String.{◌++◌}
use parparchik.Common.{String, Option, none, some, true, false, List, [], ◌∷◌, All, ◌≡◌, refl}
use parparchik.Common.{◌==◌, Bool-cases, inl, inr, arith, subst}
use parparchik.Common.Split.{cut_prefix}
use parparchik.Config.{Bucket, RepoKind, bucket_by_name}
use parparchik.Catalog.{Catalog, Entry, lookup_by_route}
use parparchik.Resolver.Actions.{Services, Action, pure}
use parparchik.Resolver.Route.{
  named_member, fetch_through, resolve_proxy_route, proxy_cache_expired,
  resolve_hosted_member_route, resolve_member, try_members, resolve_virtual_route, resolve_if_at,
  resolve_in_bucket, resolve_by_prefix, resolve_known, resolve_unknown, resolve_route,
  parse_virtual_prefix,
}
use parparchik.Resolver.Keeps.{
  Keeps, IsClosed, Keeps-bind, Keeps-pure, Keeps-call, Keeps-if, Keeps-option, Keeps-with_state,
}
use parparchik.Resolver.Closure.{
  resolve_missing_file-Keeps, resolve_missing_file_by_type-Keeps, exists-Keeps,
  register_resolved_object-Keeps,
}

-- Every bucket that a name finds among buckets that are fine is fine.
found_ok :
    (Ok : String → Type 0) (name : String) (bs : List Bucket)
    → All (λ b. Ok b.name) bs
    → (b : Bucket) → bucket_by_name name bs ≡ some b
    → Ok b.name
unfolding bucket_by_name
found_ok Ok name [] h b e = absurd (ground arith)
found_ok Ok name (c ∷ bs) h b e = elim (Bool-cases (c.name == name)) [
  | inl same ↦ let here : c ≡ b = ground arith in subst (λ (x : Bucket). Ok x.name) here h.0
  | inr other ↦ found_ok Ok name bs h.1 b (ground arith)
]

module _ {World Content Error : Type 0} (sv : Services World Content Error) (buckets : List Bucket)
    {Ok : String → Type 0} {P : Catalog → Type 0} (closed : IsClosed Ok P)
    (named : All (λ b. Ok b.name) buckets) where
  fetch_through-Keeps :
      (b : Bucket) (key : String) → Ok b.name → Keeps P (fetch_through sv buckets b key)
  unfolding fetch_through
  fetch_through-Keeps b key good = Keeps-bind _ _ (Keeps-call _ _) λ fetched.
      Keeps-option fetched _ _ (Keeps-pure none) λ got.
        Keeps-bind _ _ (Keeps-call _ _)
          λ _. register_resolved_object-Keeps sv buckets closed b.name key _ "" true good

  resolve_proxy_route-Keeps :
      (b : Bucket) (key : String) → Ok b.name → Keeps P (resolve_proxy_route sv buckets b key)
  unfolding resolve_proxy_route
  resolve_proxy_route-Keeps b key good =
      let fetched = fetch_through-Keeps b key good in
      Keeps-bind _ _ (Keeps-call _ _) λ cached. Keeps-option cached _ _ fetched λ obj.
        Keeps-with_state _ λ s.
          Keeps-if (proxy_cache_expired sv buckets b obj s.world) _ _ fetched
            (register_resolved_object-Keeps sv buckets closed b.name key _ _ false good)

  resolve_hosted_member_route-Keeps :
      (b : Bucket) (key : String)
      → Ok b.name
      → Keeps P (resolve_hosted_member_route sv buckets b key)
  unfolding resolve_hosted_member_route
  resolve_hosted_member_route-Keeps b key good = Keeps-bind _ _ (Keeps-call _ _) λ found.
      Keeps-option found _ _ (Keeps-pure none)
        (λ obj. register_resolved_object-Keeps sv buckets closed b.name key _ _ true good)

  named_member-Keeps :
      (virtual member : String) (m : Action World Error (Option Entry))
      → Keeps P m
      → Keeps P (named_member virtual member m)
  unfolding named_member
  named_member-Keeps virtual member m k = record { at = λ s h. subst P (ground arith) (k.at s h) }

  member-Keeps :
      (virtual key : String) (b : Bucket) (kind : RepoKind)
      → Ok b.name
      → Keeps P (elim kind [
        | RepoKind.proxy ↦ named_member virtual b.name (resolve_proxy_route sv buckets b key)
        | RepoKind.virtual ↦ pure none
        | RepoKind.hosted ↦
            named_member virtual b.name (resolve_hosted_member_route sv buckets b key)
      ])
  member-Keeps virtual key b RepoKind.proxy good =
      named_member-Keeps virtual b.name _ (resolve_proxy_route-Keeps b key good)
  member-Keeps virtual key b RepoKind.virtual good = Keeps-pure none
  member-Keeps virtual key b RepoKind.hosted good =
      named_member-Keeps virtual b.name _ (resolve_hosted_member_route-Keeps b key good)

  resolve_member-Keeps :
      (virtual key : String) (o : Option Bucket)
      → ((b : Bucket) → o ≡ some b → Ok b.name)
      → Keeps P (resolve_member sv buckets virtual key o)
  unfolding resolve_member
  resolve_member-Keeps virtual key none good = Keeps-pure none
  resolve_member-Keeps virtual key (some b) good = member-Keeps virtual key b b.kind (good b refl)

  try_members-Keeps :
      (virtual key : String) (names : List String)
      → Keeps P (try_members sv buckets virtual key names)
  unfolding try_members
  try_members-Keeps virtual key [] = Keeps-pure none
  try_members-Keeps virtual key (name ∷ names) =
      let rest = try_members-Keeps virtual key names in
      Keeps-bind _ _
        (resolve_member-Keeps virtual key (bucket_by_name name buckets)
          (found_ok Ok name buckets named))
        λ entry. Keeps-option entry _ _ rest (λ e. Keeps-pure (some e))

  resolve_if_at-Keeps : (route key : String) → Keeps P (resolve_if_at sv buckets route key)
  unfolding resolve_if_at
  resolve_if_at-Keeps route key =
      Keeps-bind _ _ (resolve_missing_file-Keeps sv buckets closed key named) (λ r. Keeps-pure _)

  in_bucket-Keeps :
      (route key : String) (b : Bucket) (kind : RepoKind)
      → Ok b.name
      → Keeps P (elim kind [
        | RepoKind.proxy ↦ resolve_proxy_route sv buckets b key
        | RepoKind.virtual ↦ resolve_virtual_route sv buckets b key
        | RepoKind.hosted ↦ resolve_if_at sv buckets route key
      ])
  unfolding resolve_virtual_route
  in_bucket-Keeps route key b RepoKind.proxy good = resolve_proxy_route-Keeps b key good
  in_bucket-Keeps route key b RepoKind.virtual good = try_members-Keeps b.name key b.members
  in_bucket-Keeps route key b RepoKind.hosted good = resolve_if_at-Keeps route key

  resolve_by_prefix-Keeps :
      (route : String) (bs : List Bucket)
      → All (λ b. Ok b.name) bs
      → Keeps P (resolve_by_prefix sv buckets route bs)
  unfolding resolve_by_prefix resolve_in_bucket
  resolve_by_prefix-Keeps route [] h = Keeps-pure none
  resolve_by_prefix-Keeps route (b ∷ bs) h =
      Keeps-option (cut_prefix route ("/" ++ (b.name ++ "/"))) _ _
        (resolve_by_prefix-Keeps route bs h.1) (λ key. in_bucket-Keeps route key b b.kind h.0)

  resolve_unknown-Keeps : (route : String) → Keeps P (resolve_unknown sv buckets route)
  unfolding resolve_unknown
  resolve_unknown-Keeps route =
      Keeps-option (parse_virtual_prefix route) _ _ (resolve_by_prefix-Keeps route buckets named)
        (λ (key, public). resolve_missing_file_by_type-Keeps sv buckets closed key public named)

  resolve_known-Keeps : (route : String) (e : Entry) → Keeps P (resolve_known sv buckets route e)
  unfolding resolve_known
  resolve_known-Keeps route e =
      Keeps-bind _ _ (exists-Keeps sv buckets closed e.bucket e.key)
        λ present. Keeps-if present _ _ (Keeps-pure (some e)) (resolve_if_at-Keeps route e.key)

  pub resolve_route-Keeps : (route : String) → Keeps P (resolve_route sv buckets route)
  unfolding resolve_route
  resolve_route-Keeps route = Keeps-with_state _ λ s.
      Keeps-option (lookup_by_route route s.catalog) _ _ (resolve_unknown-Keeps route)
        (resolve_known-Keeps route)
