-- ===== src/Config/Priority.antt =====
-- BucketByName and BucketPriority: a bucket and its position.
use parparchik.Common.{String, ℕ, zero, suc, Option, none, some, ◌≡◌, ◌≢◌, ◌<◌, arith, eq_iff}
use parparchik.Common.{List, [], ◌∷◌, length, ◌==◌, ◌⊎◌, inl, inr, Bool-cases, refl}
use parparchik.Config.Types.{Bucket, bucket_by_name, bucket_priority}

-- The bucket at a position.
abbrev pub get_elem? : List Bucket → ℕ → Option Bucket
get_elem? [] i = none
get_elem? (b ∷ bs) zero = some b
get_elem? (b ∷ bs) (suc i) = get_elem? bs i

-- A name is not configured and has the last rank, or BucketByName finds a bucket that has the name
-- and stands at the rank.
pub bucket_priority_cases :
    (name : String) (bs : List Bucket)
    → ((bucket_by_name name bs ≡ none) × (bucket_priority name bs ≡ length bs))
      ⊎ ((b : Bucket) × (bucket_by_name name bs ≡ some b)
          × (b.name ≡ name)
          × (bucket_priority name bs < length bs)
          × (get_elem? bs (bucket_priority name bs) ≡ some b))
unfolding bucket_by_name bucket_priority
bucket_priority_cases name [] = inl (refl, refl)
bucket_priority_cases name (b ∷ bs) = elim (Bool-cases (b.name == name)) [
  | inl same ↦ inr (b, ground arith, (eq_iff b.name name).0 same, ground arith, ground arith)
  | inr other ↦ elim (bucket_priority_cases name bs) [
    | inl (absent, last) ↦ inl (ground arith, ground arith)
    | inr (c, found, named, bound, at) ↦ inr (c, ground arith, named, ground arith, ground arith)
  ]
]

-- No bucket before the rank of a name has the name.
pub bucket_priority_first :
    (name : String) (bs : List Bucket) (i : ℕ) (b : Bucket)
    → i < bucket_priority name bs
    → get_elem? bs i ≡ some b
    → b.name ≢ name
unfolding bucket_priority
bucket_priority_first name [] i b h at = ground arith
bucket_priority_first name (c ∷ bs) zero b h at = ground (arith, eq_iff c.name name)
bucket_priority_first name (c ∷ bs) (suc i) b h at =
    ground (arith, eq_iff c.name name, bucket_priority_first name bs i b)

-- Two names with one rank are the same name, or neither is configured.
pub bucket_priority_inj :
    (a b : String) (bs : List Bucket)
    → bucket_priority a bs ≡ bucket_priority b bs
    → (a ≡ b) ⊎ ((bucket_by_name a bs ≡ none) × (bucket_by_name b bs ≡ none))
bucket_priority_inj a b bs same = elim (bucket_priority_cases a bs) [
  | inl (absent, last) ↦ elim (bucket_priority_cases b bs) [
    | inl (absent', last') ↦ inr (absent, absent')
    | inr (d, found', named', bound', at') ↦ absurd (omega arith)
  ]
  | inr (c, found, named, bound, at) ↦ elim (bucket_priority_cases b bs) [
    | inl (absent', last') ↦ absurd (omega arith)
    | inr (d, found', named', bound', at') ↦ inl (ground (arith, named, named', at, at', same))
  ]
]
