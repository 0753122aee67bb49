-- ===== src/Resolver/Actions.antt =====
-- The state that a Resolver works on, the services that it calls, and its errors. The storage, the
-- upstream fetcher, the clock and encoding/json are parameters: each call of a service may answer
-- anything and change the outside world in any way.
use parparchik.Common.{String, ℕ, Option, List}
use parparchik.Common.Int.{ℤ}
use parparchik.Common.Results.{Result, ok, err}
use parparchik.Catalog.{Catalog, Manifest, Decoder}

-- objectstore.Object
pub record Object : Type 0 where
  pub key : String
  pub size : ℤ
  pub last_modified : String

abbrev pub Call : Type 0 → Type 0 → Type 0 → Type 0
Call World Error A = World → Result Error A × World

pub record Services (World Content Error : Type 0) : Type 0 where
  -- objectstore.Store
  pub list_objects : String → Call World Error (List Object)
  pub head_object : String → String → Call World Error (Option Object)
  pub get_object : String → String → Call World Error Content
  pub put_object : String → String → Content → String → Call World Error (Unit {0})
  -- proxycache.Fetcher: body and content type, none where the upstream has no such key
  pub fetch : String → String → Call World Error (Option (Content × String))
  -- json.Marshal of a manifest, json.Unmarshal, and the length of a body
  pub marshal : Manifest → Result Error Content
  pub decoder : Decoder Content
  pub content_length : Content → ℕ
  -- time.Now and time.Parse by RFC3339, in nanoseconds
  pub now : World → ℤ
  pub parse_time : String → Option ℤ

pub record State (World : Type 0) : Type 0 where
  pub catalog : Catalog
  pub duplicate_count : ℕ
  pub world : World

-- The errors that the methods return, with what they wrap.
pub data ResolverError (Error : Type 0) : Type 0 where
  bootstrap_fetch sync_list : String → Error → ResolverError Error
  bootstrap_reconcile : ResolverError Error → ResolverError Error
  missing_head typed_head proxy_check proxy_fetch proxy_store : String → Error → ResolverError Error
  member_check relocate_check : String → Error → ResolverError Error
  virtual_member : String → String → ResolverError Error → ResolverError Error
  relocate_persist : List Error → ResolverError Error
  file_not_found : ResolverError Error

abbrev pub Action : Type 0 → Type 0 → Type 0 → Type 0
Action World Error A = State World → Result (ResolverError Error) A × State World

module _ {World Error : Type 0} where
  unfoldable pub pure : {A : Type 0} → A → Action World Error A
  pure a s = (ok a, s)

  unfoldable pub raise : {A : Type 0} → ResolverError Error → Action World Error A
  raise e s = (err e, s)

  -- A change of the state that returns a value.
  unfoldable pub modify : {A : Type 0} → (State World → A × State World) → Action World Error A
  modify f s = let (a, s') = f s in (ok a, s')

  -- A look at the state.
  unfoldable pub with_state :
      {A : Type 0} → (State World → Action World Error A) → Action World Error A
  with_state f s = f s s

  -- A change of the catalog, under its lock.
  unfoldable pub update : (Catalog → Catalog) → Action World Error (Unit {0})
  update f s = (ok tt, record s { catalog = f s.catalog })

  abbrev pub wrapped :
      {A : Type 0}
      → (Error → ResolverError Error)
      → State World
      → Result Error A × World
      → Result (ResolverError Error) A × State World
  wrapped wrap s (ok a, w) = (ok a, record s { world = w })
  wrapped wrap s (err e, w) = (err (wrap e), record s { world = w })

  -- A call of a service whose error is wrapped.
  unfoldable pub call :
      {A : Type 0} → (Error → ResolverError Error) → Call World Error A → Action World Error A
  call wrap m s = wrapped wrap s (m s.world)

  abbrev pub continue :
      {A B : Type 0}
      → Result (ResolverError Error) A × State World
      → (A → Action World Error B)
      → Result (ResolverError Error) B × State World
  continue (ok a, s) f = f a s
  continue (err e, s) f = (err e, s)

  infixl 5 ◌>>=◌ ◌>>◌
  -- To open this is to open the others of this section too.
  unfoldable pub ◌>>=◌ :
      {A B : Type 0} → Action World Error A → (A → Action World Error B) → Action World Error B
  unfolding pure raise modify with_state update call
  ◌>>=◌ m f s = continue (m s) f

  abbrev pub ◌>>◌ :
      {B : Type 0} → Action World Error (Unit {0}) → Action World Error B → Action World Error B
  m >> k = m >>= λ _. k
