-- ===== src/Replication/Puller.antt =====
-- puller.go: Pull and alreadyUpToDate.
use parparchik.Common.{String, ℕ, List, [], ◌∷◌, ◌++◌, none, some, Bool, false, ◌==◌, not}
use parparchik.Common.{str_ltb, if◌then◌else◌}
use parparchik.Common.Int.{pos}
use parparchik.Common.Results.{Result, ok, err}
use parparchik.Catalog.{Catalog, Entry, lookup, register}

pub record Remote (World Content Error : Type 0) : Type 0 where
  pub fetch_manifest : World → Result Error (List Entry) × World
  pub fetch_object : Entry → World → Result Error Content × World
  -- the local store
  pub put_object : String → String → Content → String → World → Result Error (Unit {0}) × World
  pub content_length : Content → ℕ

pub data PullError (Error : Type 0) : Type 0 where
  manifest_error : Error → PullError Error
  fetch_error store_error : String → Error → PullError Error

pub record PullResult (Error : Type 0) : Type 0 where
  pub pulled : List String
  pub skipped : List String
  pub failed : List String
  pub errors : List (PullError Error)

pub record PullState (World : Type 0) : Type 0 where
  pub catalog : Catalog
  pub world : World

unfoldable pub already_up_to_date : String → Catalog → Entry → Bool
already_up_to_date target c remote =
    if remote.last_modified == "" then false else elim (lookup remote.key c) [
      | none ↦ false
      | some local ↦
          if not (local.bucket == target)
          then false
          else not (str_ltb local.last_modified remote.last_modified)
    ]

module _ {World Content Error : Type 0} (rm : Remote World Content Error) (target : String) where
  abbrev pub fail_with : String → PullError Error → PullResult Error → PullResult Error
  fail_with key e r = record r { failed = r.failed ++ (key ∷ []); errors = r.errors ++ (e ∷ []) }

  -- The body of the loop behind the fetch: store and register.
  unfoldable pub store_entry :
      Entry → Content → PullResult Error × PullState World → PullResult Error × PullState World
  store_entry e body (r, s) =
      let (result, w) = rm.put_object target e.key body "" s.world in
      elim result [
        | err x ↦ (fail_with e.key (store_error e.key x) r, record s { world = w })
        | ok _ ↦ (
          record r { pulled = r.pulled ++ (e.key ∷ []) },
          record {
            catalog =
                register e.key target (pos (rm.content_length body)) e.last_modified s.catalog;
            world = w;
          },
        )
      ]

  -- One round of the loop.
  unfoldable pub pull_entry :
      Entry → PullResult Error × PullState World → PullResult Error × PullState World
  unfolding store_entry
  pull_entry e (r, s) =
      if already_up_to_date target s.catalog e
      then (record r { skipped = r.skipped ++ (e.key ∷ []) }, s)
      else let (result, w) = rm.fetch_object e s.world in
        elim result [
          | err x ↦ (fail_with e.key (fetch_error e.key x) r, record s { world = w })
          | ok body ↦ store_entry e body (r, record s { world = w })
        ]

  unfoldable pub pull_each :
      List Entry → PullResult Error × PullState World → PullResult Error × PullState World
  unfolding pull_entry
  pull_each [] p = p
  pull_each (e ∷ es) p = pull_each es (pull_entry e p)

  unfoldable pub pull :
      PullState World → Result (PullError Error) (PullResult Error) × PullState World
  unfolding pull_each
  pull s =
      let (result, w) = rm.fetch_manifest s.world in
      elim result [
        | err x ↦ (err (manifest_error x), record s { world = w })
        | ok entries ↦
            let start : PullResult Error = record {
              pulled = [];
              skipped = [];
              failed = [];
              errors = [];
            } in
            let (r, s') = pull_each entries (start, record s { world = w }) in (ok r, s')
      ]
