-- ===== src/Config/Accepted.antt =====
-- Load: a configuration that it returns.
use parparchik.Common.{◌≡◌, ◌++◌, arith, List, Member, All, All-append, subst}
use parparchik.Common.Results.{ok, >>=-eq-ok, OnOk-ok}
use parparchik.Config.Types.{Bucket, Config}
use parparchik.Config.Parse.{invalid_port, parse_proxy_repos, parse_virtual_repos}
use parparchik.Config.Load.{
  Environment, env, or_fail, load_buckets, validate_virtual_repo_members, Parsers, load_repos, load,
}
use parparchik.Config.Kinds.{
  IsStored, IsVirtual, load_buckets-IsStored, proxies_of_tokens-IsStored,
  virtuals_of_tokens-IsVirtual,
}
use parparchik.Config.Members.{IsResolvable, validated}

module _ {Float : Type 0} (parsers : Parsers Float) (getenv : Environment) where
  load_repos-IsResolvable :
      (bs : List Bucket) (v : Bucket)
      → load_repos parsers getenv ≡ ok bs
      → Member v bs
      → IsVirtual v
      → All (IsResolvable bs) v.members
  unfolding load_repos parse_proxy_repos parse_virtual_repos
  load_repos-IsResolvable bs v loaded m is_v =
      let (hosted, got_hosted, more) = >>=-eq-ok (load_buckets getenv) _ loaded in
      let (proxies, got_proxies, final) =
        >>=-eq-ok (parse_proxy_repos parsers.parse_duration _) _ more in
      let virtuals = parse_virtual_repos (env getenv "PARPARCHIK_VIRTUAL_REPOS" "") in
      let (unit, passed, same) = >>=-eq-ok (validate_virtual_repo_members _ virtuals) _ final in
      let stored =
        All-append IsStored hosted proxies
          (OnOk-ok (All IsStored) (load_buckets getenv) (load_buckets-IsStored getenv) got_hosted)
          (OnOk-ok (All IsStored) (parse_proxy_repos parsers.parse_duration _)
            (proxies_of_tokens-IsStored parsers.parse_duration _) got_proxies) in
      let here : (hosted ++ proxies) ++ virtuals ≡ bs = ground (arith, same) in
      subst (λ b. Member v b → All (IsResolvable b) v.members) here
        (λ n.
          validated (hosted ++ proxies) virtuals stored (virtuals_of_tokens-IsVirtual _) passed v n
            is_v)
        m

  -- In a configuration that Load returns every member of a virtual repository is the name of a
  -- configured bucket, and BucketByName gives one that is not virtual: the resolver skips no member.
  pub load-IsResolvable :
      (cfg : Config Float) (v : Bucket)
      → load parsers getenv ≡ ok cfg
      → Member v cfg.buckets
      → IsVirtual v
      → All (IsResolvable cfg.buckets) v.members
  unfolding load
  load-IsResolvable cfg v loaded m is_v =
      let (port, _, l1) =
        >>=-eq-ok (or_fail invalid_port (parsers.atoi (env getenv "PARPARCHIK_PORT" "8080"))) _
          loaded in
      let (bs, got, l2) = >>=-eq-ok (load_repos parsers getenv) _ l1 in
      let same : bs ≡ cfg.buckets = ground (arith, l2) in
      subst (λ b. Member v b → All (IsResolvable b) v.members) same
        (λ n. load_repos-IsResolvable bs v got n is_v) m
