-- ===== src/Config/Kinds.antt =====
-- The kinds of the buckets that the parsers make.
use parparchik.Common.{String, Option, none, some, ◌≡◌, refl, ◌∙◌, ap, arith}
use parparchik.Common.{List, [], ◌∷◌, All, true, false, ◌==◌, ◌||◌}
use parparchik.Common.{inl, inr, Bool-cases}
use parparchik.Common.Int.{ℤ}
use parparchik.Common.Results.{ok, OnOk, Result-cases}
use parparchik.Common.Split.{split, trim_space}
use parparchik.Config.Types.{Bucket, is_virtual}
use parparchik.Config.Parse.{
  cons_some, bucket_of_parts, bucket_of_token, buckets_of_tokens, parse_buckets_list,
  proxy_of_parts, proxy_of_token, proxies_of_tokens, virtual_of_members, virtual_of_parts,
  virtual_of_token, virtuals_of_tokens, non_blank,
}
use parparchik.Config.Load.{Environment, env, load_buckets}

abbrev pub IsStored : Bucket → Type 0
IsStored b = is_virtual b.kind ≡ false

abbrev pub IsVirtual : Bucket → Type 0
IsVirtual b = is_virtual b.kind ≡ true

All-cons_some :
    (P : Bucket → Type 0) (o : Option Bucket) (bs : List Bucket)
    → ((b : Bucket) → o ≡ some b → P b)
    → All P bs
    → All P (cons_some o bs)
All-cons_some P none bs h k = k
All-cons_some P (some b) bs h k = (h b refl, k)

bucket_of_parts-IsStored :
    (parts : List String) (b : Bucket) → bucket_of_parts parts ≡ some b → IsStored b
unfolding bucket_of_parts
bucket_of_parts-IsStored [] b e = ground arith
bucket_of_parts-IsStored (name ∷ rest) b e = ground arith

bucket_of_token-IsStored :
    (token : String) (b : Bucket) → bucket_of_token token ≡ some b → IsStored b
unfolding bucket_of_token
bucket_of_token-IsStored token b e =
    ground (arith, bucket_of_parts-IsStored (split b':' (trim_space token)) b)

buckets_of_tokens-IsStored : (tokens : List String) → All IsStored (buckets_of_tokens tokens)
unfolding buckets_of_tokens
buckets_of_tokens-IsStored [] = tt
buckets_of_tokens-IsStored (token ∷ tokens) =
    All-cons_some IsStored (bucket_of_token token) _ (bucket_of_token-IsStored token)
      (buckets_of_tokens-IsStored tokens)

pub load_buckets-IsStored : (getenv : Environment) → OnOk (All IsStored) (load_buckets getenv)
unfolding load_buckets parse_buckets_list
load_buckets-IsStored getenv = elim (Bool-cases (env getenv "PARPARCHIK_BUCKETS" "" == "")) [
  | inl empty ↦
      elim (Bool-cases (
        env getenv "PARPARCHIK_PUBLIC_BUCKET" "" == ""
        || env getenv "PARPARCHIK_PRIVATE_BUCKET" "" == "")) [
          | inl missing ↦ rw (empty, missing) tt
          | inr given ↦ rw (empty, given) (refl, (refl, tt))
        ]
  | inr given ↦ rw given (buckets_of_tokens-IsStored _)
]

module _ (parse_duration : String → Option ℤ) where
  proxy_of_parts-IsStored :
      (parts : List String) (b : Bucket)
      → proxy_of_parts parse_duration parts ≡ ok (some b)
      → IsStored b
  unfolding proxy_of_parts
  proxy_of_parts-IsStored [] b e = ground arith
  proxy_of_parts-IsStored (name ∷ []) b e = ground arith
  proxy_of_parts-IsStored (name ∷ url ∷ rest) b e = ground arith

  proxy_of_token-IsStored :
      (token : String) (b : Bucket) → proxy_of_token parse_duration token ≡ ok (some b) → IsStored b
  unfolding proxy_of_token
  proxy_of_token-IsStored token b e =
      ground (arith, proxy_of_parts-IsStored (split b'|' (trim_space token)) b)

  pub proxies_of_tokens-IsStored :
      (tokens : List String) → OnOk (All IsStored) (proxies_of_tokens parse_duration tokens)
  unfolding proxies_of_tokens
  proxies_of_tokens-IsStored [] = tt
  proxies_of_tokens-IsStored (token ∷ tokens) =
      let ih = proxies_of_tokens-IsStored tokens in
      elim (Result-cases (proxy_of_token parse_duration token)) [
        | inr (e, failed) ↦ rw (failed, proxies_of_tokens) tt
        | inl (o, done) ↦ elim (Result-cases (proxies_of_tokens parse_duration tokens)) [
          | inr (e, failed) ↦ rw (done, failed, proxies_of_tokens) tt
          | inl (bs, rest) ↦
              rw (done, rest, proxies_of_tokens)
                (All-cons_some IsStored o bs
                  (λ b same. proxy_of_token-IsStored token b (done ∙ ap ok same)) (rw rest at ih))
        ]
      ]

virtual_of_members-IsVirtual :
    (name : String) (ms : List String) (b : Bucket)
    → virtual_of_members name ms ≡ some b
    → IsVirtual b
unfolding virtual_of_members
virtual_of_members-IsVirtual name [] b e = ground arith
virtual_of_members-IsVirtual name (m ∷ ms) b e = ground arith

virtual_of_parts-IsVirtual :
    (parts : List String) (b : Bucket) → virtual_of_parts parts ≡ some b → IsVirtual b
unfolding virtual_of_parts
virtual_of_parts-IsVirtual [] b e = ground arith
virtual_of_parts-IsVirtual (name ∷ []) b e = ground arith
virtual_of_parts-IsVirtual (name ∷ ms ∷ rest) b e =
    ground (arith, virtual_of_members-IsVirtual name (non_blank (split b'+' ms)) b)

virtual_of_token-IsVirtual :
    (token : String) (b : Bucket) → virtual_of_token token ≡ some b → IsVirtual b
unfolding virtual_of_token
virtual_of_token-IsVirtual token b e =
    ground (arith, virtual_of_parts-IsVirtual (split b'|' (trim_space token)) b)

pub virtuals_of_tokens-IsVirtual :
    (tokens : List String) → All IsVirtual (virtuals_of_tokens tokens)
unfolding virtuals_of_tokens
virtuals_of_tokens-IsVirtual [] = tt
virtuals_of_tokens-IsVirtual (token ∷ tokens) =
    All-cons_some IsVirtual (virtual_of_token token) _ (virtual_of_token-IsVirtual token)
      (virtuals_of_tokens-IsVirtual tokens)
