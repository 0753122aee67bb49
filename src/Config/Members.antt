-- ===== src/Config/Members.antt =====
-- validateVirtualRepoMembers: the members of virtual repositories among the configured buckets.
use parparchik.Common.{String, some, ◌≡◌, sym, ◌∙◌, arith, eq_iff}
use parparchik.Common.{List, [], ◌∷◌, ◌++◌, Member, All, ◌==◌, subst}
use parparchik.Common.{◌⊎◌, inl, inr, Bool-cases, Option-cases}
use parparchik.Common.Assoc
use parparchik.Common.Assoc.{Assoc, lookup-insert, lookup-empty}
use parparchik.Common.Results.{ok, Result-cases}
use parparchik.Config.Types.{Bucket, bucket_by_name}
use parparchik.Config.Load.{by_name, check_members, check_virtuals, validate_virtual_repo_members}
use parparchik.Config.Kinds.{IsStored, IsVirtual}

-- What `byName` holds is a bucket of the list with that name, or was there before.
lookup-by_name :
    (name : String) (bs : List Bucket) (m : Assoc Bucket) (b : Bucket)
    → Assoc.lookup name (by_name bs m) ≡ some b
    → (Assoc.lookup name m ≡ some b) ⊎ (Member b bs × (b.name ≡ name))
unfolding by_name
lookup-by_name name [] m b at = inl at
lookup-by_name name (c ∷ bs) m b at = elim (lookup-by_name name bs (Assoc.insert c.name c m) b at) [
  | inr (inside, named) ↦ inr (inr inside, named)
  | inl early ↦
      let early' = sym (lookup-insert c.name name c m) ∙ early in
      elim (Bool-cases (c.name == name)) [
        | inl same ↦
            let here : b ≡ c = ground arith in
            inr (inl here, ground (arith, here, eq_iff c.name name))
        | inr other ↦ inl (ground arith)
      ]
]

-- A member that the check has seen: configured, and not virtual.
abbrev IsChecked : Assoc Bucket → String → Type 0
IsChecked m name = (b : Bucket) × (Assoc.lookup name m ≡ some b) × IsStored b

check_members_sound :
    (m : Assoc Bucket) (virtual : String) (members : List String)
    → check_members m virtual members ≡ ok tt
    → All (IsChecked m) members
unfolding check_members
check_members_sound m virtual [] e = tt
check_members_sound m virtual (member ∷ members) e = elim (Option-cases (Assoc.lookup member m)) [
  | inl missing ↦ absurd (ground arith)
  | inr (b, found) ↦
      let stored : IsStored b = ground arith in
      ((b, found, stored), check_members_sound m virtual members (ground arith))
]

check_virtuals_sound :
    (m : Assoc Bucket) (virtuals : List Bucket)
    → check_virtuals m virtuals ≡ ok tt
    → All (λ v. All (IsChecked m) v.members) virtuals
unfolding check_virtuals
check_virtuals_sound m [] e = tt
check_virtuals_sound m (v ∷ vs) e = elim (Result-cases (check_members m v.name v.members)) [
  | inr (x, failed) ↦ absurd (ground arith)
  | inl (tt, done) ↦
      (check_members_sound m v.name v.members done, check_virtuals_sound m vs (ground arith))
]

All-Member : (P : Bucket → Type 0) (bs : List Bucket) (b : Bucket) → All P bs → Member b bs → P b
All-Member P [] b h m = elim m [ ]
All-Member P (c ∷ bs) b h (inl same) = subst P (sym same) h.0
All-Member P (c ∷ bs) b h (inr m) = All-Member P bs b h.1 m

Member-append : (b : Bucket) (xs ys : List Bucket) → Member b (xs ++ ys) → Member b xs ⊎ Member b ys
Member-append b [] ys m = inr m
Member-append b (x ∷ xs) ys (inl same) = inl (inl same)
Member-append b (x ∷ xs) ys (inr m) = elim (Member-append b xs ys m) [
  | inl here ↦ inl (inr here)
  | inr there ↦ inr there
]

-- The first bucket with the name of one with storage has storage too, where all buckets with
-- storage stand before the virtual ones.
first-IsStored :
    (stored rest : List Bucket) (b : Bucket)
    → All IsStored stored
    → Member b stored
    → (c : Bucket) × (bucket_by_name b.name (stored ++ rest) ≡ some c) × IsStored c
unfolding bucket_by_name
first-IsStored [] rest b h m = elim m [ ]
first-IsStored (c ∷ bs) rest b h m = elim (Bool-cases (c.name == b.name)) [
  | inl same ↦ (c, ground arith, h.0)
  | inr other ↦ elim m [
    | inl here ↦ absurd (ground (arith, here, eq_iff c.name b.name))
    | inr there ↦
        let (d, found, stored) = first-IsStored bs rest b h.1 there in (d, ground arith, stored)
  ]
]

-- A member name as the resolver meets it: BucketByName finds a bucket with storage.
abbrev pub IsResolvable : List Bucket → String → Type 0
IsResolvable bs name = (c : Bucket) × (bucket_by_name name bs ≡ some c) × IsStored c

module _ (stored virtuals : List Bucket) (h : All IsStored stored)
    (k : All IsVirtual virtuals) where
  checked-IsResolvable :
      (name : String)
      → IsChecked (by_name (stored ++ virtuals) []) name
      → IsResolvable (stored ++ virtuals) name
  checked-IsResolvable name (b, found, is_stored) =
      elim (lookup-by_name name (stored ++ virtuals) [] b found) [
        | inl early ↦ absurd (ground (arith, early, lookup-empty {V = Bucket} name))
        | inr (inside, named) ↦ elim (Member-append b stored virtuals inside) [
          | inl here ↦
              subst (IsResolvable (stored ++ virtuals)) named
                (first-IsStored stored virtuals b h here)
          | inr there ↦ absurd (ground (arith, All-Member IsVirtual virtuals b k there, is_stored))
        ]
      ]

  members-IsResolvable :
      (names : List String)
      → All (IsChecked (by_name (stored ++ virtuals) [])) names
      → All (IsResolvable (stored ++ virtuals)) names
  members-IsResolvable [] c = tt
  members-IsResolvable (n ∷ ns) c = (checked-IsResolvable n c.0, members-IsResolvable ns c.1)

  pub validated :
      validate_virtual_repo_members (stored ++ virtuals) virtuals ≡ ok tt
      → (v : Bucket) → Member v (stored ++ virtuals)
      → IsVirtual v
      → All (IsResolvable (stored ++ virtuals)) v.members
  unfolding validate_virtual_repo_members
  validated passed v m is_v = elim (Member-append v stored virtuals m) [
    | inl here ↦ absurd (ground (arith, All-Member IsStored stored v h here, is_v))
    | inr there ↦ members-IsResolvable v.members (
        All-Member (λ u. All (IsChecked (by_name (stored ++ virtuals) [])) u.members) virtuals v
          (check_virtuals_sound (by_name (stored ++ virtuals) []) virtuals passed) there)
  ]
