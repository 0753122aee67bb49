-- ===== src/Cleanup/Examples.antt =====
-- Two victims, of which the storage refuses one.
use parparchik.Common.{String, ℕ, List, [], ◌∷◌, ◌≡◌, ◌⊎◌, if◌then◌else◌, ◌==◌, ◌+◌}
use parparchik.Common.Int.{pos}
use parparchik.Common.Results.{Result, ok, err}
use parparchik.Common.{none, inl, refl}
use parparchik.Catalog.{Entry, new, register, lookup}
use parparchik.Common.{arith, eq_iff, sym, ap, ◌∙◌, false, Option, some, All, Member, inr}
use parparchik.Common.Int.{ℤ, ◌-ℤ◌, saturate}
use parparchik.Catalog.Sorted.{IsAscending}
use parparchik.Cleanup.Plan.{Rule, plan}
use parparchik.Cleanup.Planned.{HasUniqueKeys, plan_lem, plan_complete}
use parparchik.Common.Assoc
use parparchik.Cleanup.Execute.{CleanupState, execute}
use parparchik.Cleanup.Executed.{Attempts, IsVictim, is_one_of, executed_keys, executed_victims}

abbrev old_file : String → Entry
old_file name = record {
  key = name;
  bucket = "cache";
  bucket_type = "private";
  route = "";
  size = pos 1;
  last_modified = "";
}

abbrev refuse_kept : String → String → ℕ → Result ℕ (Unit {0}) × ℕ
refuse_kept bucket key w = (if key == "kept" then err 403 else ok tt, w + 1)

abbrev before : CleanupState ℕ
before = record {
  catalog =
      register "old" "cache" (pos 1) ""
        (register "kept" "cache" (pos 1) "" (new (λ b. 0) (λ b. "private")));
  world = 0;
}

abbrev chosen : List Entry
chosen = old_file "old" ∷ old_file "kept" ∷ []

executed_keys_example :
    (lookup "new" (execute refuse_kept chosen before).1.catalog ≡ lookup "new" before.catalog)
    ⊎ (IsVictim "new" chosen × (lookup "new" (execute refuse_kept chosen before).1.catalog ≡ none))
executed_keys_example = executed_keys refuse_kept chosen before "new"

executed_victims_example :
    (deleted : List String) × Attempts refuse_kept chosen before.world
      (execute refuse_kept chosen before).0
      deleted
      (execute refuse_kept chosen before).1.world
    × (lookup "old" (execute refuse_kept chosen before).1.catalog
        ≡ (if is_one_of "old" deleted then none else lookup "old" before.catalog))
executed_victims_example = executed_victims refuse_kept chosen before "old"

abbrev stamp : String → Option ℤ
stamp s = if s == "old" then some (pos 0) else if s == "new" then some (pos 90) else none

abbrev stored : String → String → Entry
stored name time = record (old_file name) { size = pos 10; last_modified = time }

abbrev held : List Entry
held = stored "a" "new" ∷ stored "b" "old" ∷ stored "c" "" ∷ []

abbrev rule : Rule
rule = record {
  max_age = pos 50;
  max_total_size = pos 15;
  max_version_count = pos 1;
  group_key = some (λ e. "all");
}

apart : (i j : String) {k l : String} → (i == j) ≡ false → k ≡ i → l ≡ j → k ≡ l → ⊥
apart i j other at at' same = ground (arith, other, eq_iff i j, at, at', same)

unique_keys : HasUniqueKeys held
unique_keys d e (inl p) (inl q) same = p ∙ sym q
unique_keys d e (inl p) (inr (inl q)) same =
    absurd (apart "a" "b" refl (ap (λ (x : Entry). x.key) p) (ap (λ (x : Entry). x.key) q) same)
unique_keys d e (inl p) (inr (inr (inl q))) same =
    absurd (apart "a" "c" refl (ap (λ (x : Entry). x.key) p) (ap (λ (x : Entry). x.key) q) same)
unique_keys d e (inr (inl p)) (inl q) same =
    absurd (apart "b" "a" refl (ap (λ (x : Entry). x.key) p) (ap (λ (x : Entry). x.key) q) same)
unique_keys d e (inr (inl p)) (inr (inl q)) same = p ∙ sym q
unique_keys d e (inr (inl p)) (inr (inr (inl q))) same =
    absurd (apart "b" "c" refl (ap (λ (x : Entry). x.key) p) (ap (λ (x : Entry). x.key) q) same)
unique_keys d e (inr (inr (inl p))) (inl q) same =
    absurd (apart "c" "a" refl (ap (λ (x : Entry). x.key) p) (ap (λ (x : Entry). x.key) q) same)
unique_keys d e (inr (inr (inl p))) (inr (inl q)) same =
    absurd (apart "c" "b" refl (ap (λ (x : Entry). x.key) p) (ap (λ (x : Entry). x.key) q) same)
unique_keys d e (inr (inr (inl p))) (inr (inr (inl q))) same = p ∙ sym q
unique_keys d e (inl p) (inr (inr (inr never))) same = elim never [ ]
unique_keys d e (inr (inl p)) (inr (inr (inr never))) same = elim never [ ]
unique_keys d e (inr (inr (inl p))) (inr (inr (inr never))) same = elim never [ ]
unique_keys d e (inr (inr (inr never))) n same = elim never [ ]

plan_lem_example :
    IsAscending (plan stamp rule held (pos 100))
    × All
        (λ e. Member e held × ((t : ℤ) × (stamp e.last_modified ≡ some t)))
        (plan stamp rule held (pos 100))
plan_lem_example = plan_lem stamp rule held (pos 100) unique_keys

plan_complete_example : Member (stored "b" "old") (plan stamp rule held (pos 100))
unfolding ◌-ℤ◌ saturate
plan_complete_example =
    plan_complete stamp rule held (pos 100) (pos 0) (stored "b" "old") unique_keys (inr (inl refl))
      refl refl refl
