-- ===== src/Cleanup/Budget.antt =====
-- The size rule's budget: the total that is left as its victims go.
use parparchik.Common.{none, some, List, [], ◌∷◌, true, false, ◌≡◌, ◌⊎◌, ◌↔◌, All, Member, refl}
use parparchik.Common.{Bool-cases, Option-cases, inl, inr, arith, if◌then◌else◌, subst, sym}
use parparchik.Common.Assoc
use parparchik.Common.Int.{ℤ, pos, ltb_ℤ, ◌-ℤ◌, wrap}
use parparchik.Catalog.{Entry}
use parparchik.Catalog.Sorted.{All-of_Member, Member_of_All}
use parparchik.Cleanup.Plan.{
  Rule, Ages, older, insert_by_age, sort_by_age, add_sizes, evict_oldest, oldest_first,
}

-- The total that is left when the entries go.
abbrev pub remove_sizes : ℤ → List Entry → ℤ
remove_sizes total [] = total
remove_sizes total (e ∷ es) = remove_sizes (wrap (total -ℤ e.size)) es

-- Before each victim goes, in their order, the total that the earlier ones left is over the limit.
abbrev pub IsNeeded : ℤ → ℤ → List Entry → Type 0
IsNeeded limit total [] = Unit
IsNeeded limit total (v ∷ vs) =
    (ltb_ℤ limit total ≡ true) × IsNeeded limit (wrap (total -ℤ v.size)) vs

-- The entry cannot be dated, or it is one of the victims.
abbrev pub IsSpent : Ages → List Entry → Entry → Type 0
IsSpent ages victims e = (Assoc.lookup e.key ages ≡ none) ⊎ Member e victims

module _ (ages : Ages) where
  Member-insert_by_age :
      (x e : Entry) (es : List Entry) → Member x (insert_by_age ages e es) ↔ ((x ≡ e) ⊎ Member x es)
  unfolding insert_by_age
  Member-insert_by_age x e [] = ground arith
  Member-insert_by_age x e (f ∷ fs) = elim (Bool-cases (older ages e f)) [
    | inl before ↦ rw (before, insert_by_age, if◌then◌else◌) (λ m. m, λ m. m)
    | inr behind ↦
        rw (behind, insert_by_age, if◌then◌else◌) (ground (arith, Member-insert_by_age x e fs))
  ]

  pub Member-sort_by_age :
      (x : Entry) (es : List Entry) → Member x es → Member x (sort_by_age ages es)
  unfolding sort_by_age
  Member-sort_by_age x [] m = m
  Member-sort_by_age x (e ∷ es) (inl same) =
      (Member-insert_by_age x e (sort_by_age ages es)).1 (inl same)
  Member-sort_by_age x (e ∷ es) (inr m) =
      (Member-insert_by_age x e (sort_by_age ages es)).1 (inr (Member-sort_by_age x es m))

  IsSpent-more :
      (e : Entry) (victims es : List Entry)
      → All (IsSpent ages victims) es
      → All (IsSpent ages (e ∷ victims)) es
  IsSpent-more e victims [] h = tt
  IsSpent-more e victims (f ∷ fs) (inl undated, h) = (inl undated, IsSpent-more e victims fs h)
  IsSpent-more e victims (f ∷ fs) (inr m, h) = (inr (inr m), IsSpent-more e victims fs h)

  module _ (limit total : ℤ) (e : Entry) (es : List Entry) where
    pub evict_fits : ltb_ℤ limit total ≡ false → evict_oldest ages limit total (e ∷ es) ≡ []
    unfolding evict_oldest
    evict_fits fits = rw (fits, evict_oldest) refl

    pub evict_undated :
        ltb_ℤ limit total ≡ true
        → Assoc.lookup e.key ages ≡ none
        → evict_oldest ages limit total (e ∷ es) ≡ evict_oldest ages limit total es
    unfolding evict_oldest
    evict_undated over undated = rw (over, undated, evict_oldest) refl

    pub evict_dated :
        (t : ℤ)
        → ltb_ℤ limit total ≡ true
        → Assoc.lookup e.key ages ≡ some t
        → evict_oldest ages limit total (e ∷ es)
          ≡ e ∷ evict_oldest ages limit (wrap (total -ℤ e.size)) es
    unfolding evict_oldest
    evict_dated t over dated = rw (over, dated, evict_oldest) refl

  -- The total is within the limit behind the victims, or they are all that can be dated.
  abbrev pub IsEnough : ℤ → ℤ → List Entry → List Entry → Type 0
  IsEnough limit total es victims =
      (ltb_ℤ limit (remove_sizes total victims) ≡ false) ⊎ All (IsSpent ages victims) es

  evict_oldest-IsEnough :
      (limit total : ℤ) (es : List Entry)
      → IsEnough limit total es (evict_oldest ages limit total es)
  evict_oldest-IsEnough limit total [] = inr tt
  evict_oldest-IsEnough limit total (e ∷ es) = elim (Bool-cases (ltb_ℤ limit total)) [
    | inr fits ↦
        subst (IsEnough limit total (e ∷ es)) (sym (evict_fits limit total e es fits)) (inl fits)
    | inl over ↦ elim (Option-cases (Assoc.lookup e.key ages)) [
      | inl undated ↦
          subst (IsEnough limit total (e ∷ es)) (sym (evict_undated limit total e es over undated))
            (elim (evict_oldest-IsEnough limit total es) [
              | inl met ↦ inl met
              | inr spent ↦ inr (inl undated, spent)
            ])
      | inr (t, dated) ↦
          subst (IsEnough limit total (e ∷ es)) (sym (evict_dated limit total e es t over dated))
            (elim (evict_oldest-IsEnough limit (wrap (total -ℤ e.size)) es) [
              | inl met ↦ inl met
              | inr spent ↦ inr (inr (inl refl), IsSpent-more e _ es spent)
            ])
    ]
  ]

  evict_oldest-IsNeeded :
      (limit total : ℤ) (es : List Entry) → IsNeeded limit total (evict_oldest ages limit total es)
  unfolding evict_oldest
  evict_oldest-IsNeeded limit total [] = tt
  evict_oldest-IsNeeded limit total (e ∷ es) = elim (Bool-cases (ltb_ℤ limit total)) [
    | inr fits ↦ subst (IsNeeded limit total) (sym (evict_fits limit total e es fits)) tt
    | inl over ↦ elim (Option-cases (Assoc.lookup e.key ages)) [
      | inl undated ↦
          subst (IsNeeded limit total) (sym (evict_undated limit total e es over undated))
            (evict_oldest-IsNeeded limit total es)
      | inr (t, dated) ↦
          subst (IsNeeded limit total) (sym (evict_dated limit total e es t over dated))
            (over, evict_oldest-IsNeeded limit (wrap (total -ℤ e.size)) es)
    ]
  ]

  -- Before each victim of the size rule goes, in their order, the total is over the maximum.
  pub oldest_first-IsNeeded :
      (r : Rule) (entries : List Entry)
      → IsNeeded r.max_total_size (add_sizes (pos 0) entries) (oldest_first r entries ages)
  unfolding oldest_first
  oldest_first-IsNeeded r entries =
      elim (Bool-cases (ltb_ℤ r.max_total_size (add_sizes (pos 0) entries))) [
        | inr fits ↦ rw (fits, if◌then◌else◌) tt
        | inl over ↦
            rw (over, if◌then◌else◌)
              (evict_oldest-IsNeeded r.max_total_size (add_sizes (pos 0) entries)
                (sort_by_age ages entries))
      ]

  -- Behind the victims of the size rule the total, as the code computes it, is within the maximum, or
  -- every entry is a victim or has no time stamp that parses.
  pub oldest_first_budget :
      (r : Rule) (entries : List Entry)
      → IsEnough r.max_total_size (add_sizes (pos 0) entries) entries (oldest_first r entries ages)
  unfolding oldest_first
  oldest_first_budget r entries =
      elim (Bool-cases (ltb_ℤ r.max_total_size (add_sizes (pos 0) entries))) [
        | inr fits ↦ rw (fits, if◌then◌else◌) (inl fits)
        | inl over ↦
            rw (over, if◌then◌else◌)
              (elim (evict_oldest-IsEnough r.max_total_size (add_sizes (pos 0) entries)
                (sort_by_age ages entries)) [
                  | inl met ↦ inl met
                  | inr spent ↦ inr (
                      All-of_Member _ entries (λ e m.
                        Member_of_All _ (sort_by_age ages entries) e spent
                          (Member-sort_by_age e entries m)))
                ])
      ]
