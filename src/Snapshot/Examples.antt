-- ===== src/Snapshot/Examples.antt =====
-- Two files in two buckets, captured and restored into a catalog with other priorities.
use parparchik.Common.{ℕ, Option, none, some, List, ◌≡◌, refl, false, arith}
use parparchik.Common.Assoc
use parparchik.Common.Int.{pos}
use parparchik.Common.Results.{ok, err}
use parparchik.Catalog.{Catalog, Entry, Manifest, new, set, lookup}
use parparchik.Catalog.Invariant.{IsWellFormed}
use parparchik.Catalog.Preservation.{new-IsWellFormed, set-IsWellFormed}
use parparchik.Snapshot.Document.{Snapshot, Json}
use parparchik.Snapshot.Restored.{IsFaithful, IsBackedUp, restore-capture}

-- Documents that are kept as they are.
data Paper : Type 0 where
  document_paper : Snapshot → Paper
  manifest_paper : Manifest → Paper

abbrev envelope_of : Paper → Option (Option (List Entry))
envelope_of (document_paper d) = none
envelope_of (manifest_paper m) = some (some m.files)

abbrev read_document : Paper → Option Snapshot
read_document (document_paper d) = some d
read_document (manifest_paper m) = none

abbrev paper_json : Json Paper ℕ
paper_json = record {
  marshal_document = λ d. ok (document_paper d);
  unmarshal_document = λ p. elim (read_document p) [ none ↦ err 1 | some d ↦ ok d ];
  marshal_manifest = λ m. ok (manifest_paper m);
  decoder = record { is_empty = λ p. false; envelope = envelope_of; bare = λ p. none };
}

paper_json-IsFaithful : IsFaithful paper_json
paper_json-IsFaithful = record {
  document = λ d. (document_paper d, refl, refl);
  manifest = λ m. (manifest_paper m, refl, refl, refl);
}

abbrev plain : Catalog
plain = new (λ b. 0) (λ b. "private")

abbrev two_files : Catalog
two_files = set "b.txt" "two" (pos 7) "" (set "a.txt" "one" (pos 5) "" plain)

two_files-IsWellFormed : IsWellFormed two_files
two_files-IsWellFormed =
    set-IsWellFormed "b.txt" "two" (pos 7) "" _ (omega arith)
      (set-IsWellFormed "a.txt" "one" (pos 5) "" plain (omega arith) (new-IsWellFormed _ _))

no_empty_key : lookup "" two_files ≡ none
unfolding lookup set Assoc.lookup new Assoc.insert
no_empty_key = refl

restore-capture_example : IsBackedUp paper_json (pos 1) two_files (new (λ b. 3) (λ b. "private"))
unfolding new set Assoc.lookup Assoc.insert
restore-capture_example =
    restore-capture paper_json (pos 1) two_files (new (λ b. 3) (λ b. "private"))
      paper_json-IsFaithful two_files-IsWellFormed no_empty_key refl
