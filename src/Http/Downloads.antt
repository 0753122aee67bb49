-- ===== src/Http/Downloads.antt =====
-- handleDownload: where a redirect leads, and when a download is answered with one.
use parparchik.Common.{String, Option, none, some, List, ◌==◌, ◌≡◌, ◌≢◌}
use parparchik.Common.{arith, eq_iff, Bool-cases, Option-cases, inl, inr, refl, ◌⊎◌}
use parparchik.Common.Results.{Result, ok, err, OnOk}
use parparchik.Config.{Bucket}
use parparchik.Catalog.{Catalog, Entry, lookup, lookup_by_route}
use parparchik.Catalog.Invariant.{IsWellFormed}
use parparchik.Resolver.{Services, State, Object, ResolverError, resolve_route}
use parparchik.Resolver.Routed.{resolve_route-present}
use parparchik.Resolver.Answers.{Answer}
use parparchik.Resolver.Sound.{HasBucketNames, IsServed, resolve_route_sound}
use parparchik.Http.Validation.{validate_key}
use parparchik.Http.Keys.{IsSafeKey, validate_key_iff}
use parparchik.Http.Answers.{Body, Response, reply}
use parparchik.Http.Handlers.{
  Api, Links, presign_expiry, download_url, url_reply, redirect, handle_download,
}

-- The URL is the public one of the entry, or one that the store has signed for it.
abbrev pub IsLinkTo : {World Error : Type 0} → Links World Error → Entry → String → Type 0
IsLinkTo {World} {Error} links e url =
    ((e.bucket_type ≡ "public") × (url ≡ links.public_url e.bucket e.key))
    ⊎ ((e.bucket_type ≢ "public")
        × ((w : World) × ((links.presigned_url e.bucket e.key presign_expiry w).0 ≡ ok url)))

-- The URL leads to an entry that the catalog holds and that answers the path.
pub record IsServedLink {World Error : Type 0} (buckets : List Bucket) (links : Links World Error)
    (path : String) (c : Catalog) (url : String) : Type 0 where
  pub entry : Entry
  pub found : lookup entry.key c ≡ some entry
  pub answers : Answer buckets path entry
  pub leads : IsLinkTo links entry url

-- The location of an answer, if it is a redirect.
abbrev pub location_of : Response → Option String
location_of answer = elim answer.body [ Body.location url ↦ some url | _ ↦ none ]

module _ {World Error : Type 0} (links : Links World Error) where
  signed :
      (r : Result Error String) {url : String}
      → location_of (url_reply links r) ≡ some url
      → r ≡ ok url
  signed (ok u) at = ground arith
  signed (err x) at = absurd (ground arith)

  url_reply_link :
      (e : Entry) (w : World) (url : String)
      → location_of (url_reply links (download_url links e w).0) ≡ some url
      → IsLinkTo links e url
  unfolding download_url
  url_reply_link e w url at = elim (Bool-cases (e.bucket_type == "public")) [
    | inl public ↦ inl ((eq_iff e.bucket_type "public").0 public, ground (arith, public))
    | inr private ↦ inr (
      ground (arith, private, eq_iff e.bucket_type "public"),
      (w, signed (links.presigned_url e.bucket e.key presign_expiry w).0 (ground (arith, private))),
    )
  ]

  redirect_link :
      (buckets : List Bucket) (path url : String) (r : Result (ResolverError Error) (Option Entry))
      (s : State World)
      → OnOk (IsServed buckets path s.catalog) r
      → location_of (redirect links path r s).0 ≡ some url
      → IsServedLink buckets links path (redirect links path r s).1.catalog url
  unfolding redirect
  redirect_link buckets path url (err x) s h at = absurd (ground arith)
  redirect_link buckets path url (ok none) s h at = absurd (ground arith)
  redirect_link buckets path url (ok (some e)) s (found, answer) at = record {
    entry = e;
    found = found;
    answers = answer;
    leads = url_reply_link e s.world url at;
  }

module _ {World Content Error Limiter : Type 0} (sv : Services World Content Error)
    (links : Links World Error) (buckets : List Bucket) where
  -- What a redirect of handleDownload comes from.
  pub handle_download_link :
      (path key url : String) (a : Api World Limiter)
      → HasBucketNames buckets
      → IsWellFormed a.resolver.catalog
      → location_of (handle_download sv links buckets path key a).0 ≡ some url
      → IsSafeKey key
        × IsServedLink buckets links path
            (handle_download sv links buckets path key a).1.resolver.catalog
            url
  unfolding handle_download
  handle_download_link path key url a named w at = elim (Option-cases (validate_key key)) [
    | inr (e, bad) ↦ absurd (ground (arith, bad, at))
    | inl accepted ↦ (
      (validate_key_iff key).0 accepted,
      rw (accepted, handle_download)
          (redirect_link links buckets path url (resolve_route sv buckets path a.resolver).0
            (resolve_route sv buckets path a.resolver).1
            (resolve_route_sound sv buckets named path a.resolver w)
            (ground (arith, accepted, at))),
    )
  ]

  -- A public entry that the route index and the storage know.
  pub handle_download_public :
      (path key : String) (a : Api World Limiter) (e : Entry) (obj : Object)
      → validate_key key ≡ none
      → lookup_by_route path a.resolver.catalog ≡ some e
      → (sv.head_object e.bucket e.key a.resolver.world).0 ≡ ok (some obj)
      → e.bucket_type ≡ "public"
      → (handle_download sv links buckets path key a).0
        ≡ reply 302 (Body.location (links.public_url e.bucket e.key))
  unfolding handle_download redirect download_url
  handle_download_public path key a e obj accepted known there public =
      rw
        (
          accepted,
          resolve_route-present sv buckets path a.resolver e obj known there,
          handle_download,
        )
        (rw (public, redirect) refl)
