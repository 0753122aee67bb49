-- ===== src/Http/Answers.antt =====
-- api.go: what a handler writes: the status and the JSON document (or the page of the gauges, or
-- the Location of a redirect). The encoding of a document as text is not modelled.
use parparchik.Common.{String, ℕ, Option, none, some, List, Bool, ◌==◌}
use parparchik.Common.{if◌then◌else◌}
use parparchik.Common.Results.{Result, ok, err}
use parparchik.Config.{RepoKind}
use parparchik.Catalog.{Entry}
use parparchik.Resolver.{ResolverError, file_not_found, RelocateResult}
use parparchik.Metrics.{Gauges}
use parparchik.Http.Validation.{KeyError}

-- The document of a bucket in the answer to /status.
pub record BucketReport : Type 0 where
  pub name : String
  pub manifest_key : String
  pub public : Bool
  pub kind : RepoKind

pub record StatusReport : Type 0 where
  pub buckets : List BucketReport
  pub region : String
  pub ready : Bool
  pub file_count : ℕ
  pub public_bucket : String
  pub private_bucket : String

-- The documents, by their fields.
pub data Body : Type 0 where
  error : String → Body
  error_filename : String → String → Body
  error_route : String → String → Body
  fail_filename : String → String → Body
  status_report : StatusReport → Body
  health : Bool → Body
  readiness : String → Bool → ℕ → Body
  listing : ℕ → List Entry → Body
  file_located : Entry → Body
  relocated : Entry → Option (String × String) → Bool → Body
  gauges_page : Gauges → Body
  location : String → Body

pub record Response : Type 0 where
  pub status : ℕ
  pub body : Body

abbrev pub reply : ℕ → Body → Response
reply status body = record { status = status; body = body }

abbrev pub unauthorized : Response
unauthorized = reply 401 (Body.error "unauthorized")

abbrev pub rate_limit_exceeded : Response
rate_limit_exceeded = reply 429 (Body.error "rate limit exceeded")

abbrev pub not_initialized : Response
not_initialized = reply 503 (Body.error "service not initialized")

abbrev pub not_found : Response
not_found = reply 404 (Body.error "not found")

abbrev pub missing_filename : Response
missing_filename = reply 400 (Body.error "missing 'filename' query parameter")

-- The texts of the errors of validateKey.
abbrev pub key_message : KeyError → String
key_message KeyError.empty_key = "key must not be empty"
key_message KeyError.key_too_long = "key exceeds maximum length"
key_message KeyError.key_leading_slash = "key must not start with '/'"
key_message KeyError.key_traversal = "key must not contain '..' path segments"
key_message KeyError.key_control_char = "key must not contain control characters"

abbrev pub bad_filename : KeyError → String → Response
bad_filename e filename = reply 400 (Body.error_filename (key_message e) filename)

-- The end of handleUpdate.
unfoldable pub update_reply :
    {Error : Type 0} → String → Result (ResolverError Error) (Option Entry) → Response
update_reply filename (err e) = reply 500 (Body.error "failed to resolve file")
update_reply filename (ok none) = reply 404 (Body.error_filename "file not found" filename)
update_reply filename (ok (some entry)) = reply 200 (Body.file_located entry)

-- `relocated_from` and `relocated_to`, where they are in the document.
abbrev pub move_of : RelocateResult → Option (String × String)
move_of r = if r.relocated_from == "" then none else some (r.relocated_from, r.relocated_to)

-- The switch at the end of handleRelocate. `relocate` returns ErrFileNotFound itself.
unfoldable pub relocate_reply :
    {Error : Type 0} → String → Result (ResolverError Error) RelocateResult → Response
relocate_reply filename (err file_not_found) =
    reply 404 (Body.fail_filename "file not found in any bucket" filename)
relocate_reply filename (err e) =
    reply 500 (Body.fail_filename "failed to persist manifests" filename)
relocate_reply filename (ok r) = reply 200 (Body.relocated r.entry (move_of r) r.duplicate)
