-- ===== src/Catalog/Listed.antt =====
-- ListAll and Count against the registered entries and the order of the map.
use parparchik.Common.{String, some, ◌≡◌, ◌↔◌, inl, inr, refl, sym, ◌∙◌, ap, ap₂, arith}
use parparchik.Common.{
  suc, subst, List, [], ◌∷◌, Member, All, str_ltb_irrefl, str_ltb_trans, length,
}
use parparchik.Common.Assoc
use parparchik.Common.Assoc.{Assoc, HasDistinctKeys}
use parparchik.Catalog.Update.{Entry, Catalog, lookup}
use parparchik.Catalog.Listing.{list_all, count}
use parparchik.Catalog.Invariant.{IsWellFormed}
use parparchik.Catalog.Sorted.{
  Precedes, IsAscending, IsKeyed, Member-sort_by_key, length-sort_by_key, Member_of_All, keyed,
  Member-values_iff, sort_by_key-IsAscending,
}

not-Precedes : (e : Entry) → ¬ Precedes e e
not-Precedes e p = ground (arith, p, str_ltb_irrefl e.key)

-- The heads of two ascending lists with the same members are one.
heads_same :
    (e f : Entry) (es fs : List Entry)
    → All (Precedes e) es
    → All (Precedes f) fs
    → Member e (f ∷ fs)
    → Member f (e ∷ es)
    → e ≡ f
heads_same e f es fs h k (inl same) m = same
heads_same e f es fs h k (inr n) (inl same) = sym same
heads_same e f es fs h k (inr n) (inr m) = absurd (
    not-Precedes e (
      str_ltb_trans e.key f.key e.key (Member_of_All (Precedes e) es f h m)
        (Member_of_All (Precedes f) fs e k n)))

-- A member of the one tail is in the other.
tail-Member :
    (e f x : Entry) (es fs : List Entry)
    → e ≡ f
    → All (Precedes e) es
    → Member x es
    → Member x (f ∷ fs)
    → Member x fs
tail-Member e f x es fs same h m (inr n) = n
tail-Member e f x es fs same h m (inl here) =
    let here' : x ≡ e = here ∙ sym same in
    absurd (not-Precedes e (subst (λ y. Precedes e y) here' (Member_of_All (Precedes e) es x h m)))

-- Two ascending lists with the same members are one list.
ascending_unique :
    (es fs : List Entry)
    → IsAscending es
    → IsAscending fs
    → ((x : Entry) → Member x es ↔ Member x fs)
    → es ≡ fs
ascending_unique [] [] h k same = refl
ascending_unique [] (f ∷ fs) h k same = absurd ((same f).1 (inl refl))
ascending_unique (e ∷ es) [] h k same = absurd ((same e).0 (inl refl))
ascending_unique (e ∷ es) (f ∷ fs) h k same =
    let heads = heads_same e f es fs h.0 k.0 ((same e).0 (inl refl)) ((same f).1 (inl refl)) in
    ap₂ ◌∷◌ heads (
      ascending_unique es fs h.1 k.1 λ x. (
        λ m. tail-Member e f x es fs heads h.0 m ((same x).0 (inr m)),
        λ m. tail-Member f e x fs es (sym heads) k.0 m ((same x).1 (inr m)),
      ))

length-values : (m : Assoc Entry) → length (Assoc.values m) ≡ length m
unfolding Assoc.values
length-values [] = refl
length-values (p ∷ m) = ap suc (length-values m)

module _ (c : Catalog) (w : IsWellFormed c) where
  keys_match : IsKeyed c.by_key
  keys_match = keyed c.by_key w.distinct (λ k e at. (w.entries k e at).key)

  -- The entries that ListAll returns are strictly ascending by key.
  pub list_all-IsAscending : IsAscending (list_all c)
  unfolding list_all
  list_all-IsAscending = sort_by_key-IsAscending c.by_key w.distinct keys_match

  -- They are the registered entries and no others.
  pub Member-list_all : (e : Entry) → Member e (list_all c) ↔ (lookup e.key c ≡ some e)
  unfolding list_all lookup
  Member-list_all e =
      let sorted = Member-sort_by_key e (Assoc.values c.by_key) in
      let listed = Member-values_iff c.by_key e w.distinct keys_match in
      (λ m. listed.0 (sorted.0 m), λ at. sorted.1 (listed.1 at))

  pub length-list_all : length (list_all c) ≡ count c
  unfolding list_all count
  length-list_all = length-sort_by_key (Assoc.values c.by_key) ∙ length-values c.by_key

-- In a well-formed catalog ListAll returns the registered entries and no others, strictly ascending
-- by key, and Count is their number.
pub list_all_lem :
    (c : Catalog)
    → IsWellFormed c
    → IsAscending (list_all c)
      × ((e : Entry) → Member e (list_all c) ↔ (lookup e.key c ≡ some e))
      × (length (list_all c) ≡ count c)
list_all_lem c w = (list_all-IsAscending c w, Member-list_all c w, length-list_all c w)

-- Two well-formed catalogs that answer every Lookup alike have the same ListAll, whatever the order
-- of the entries in their maps.
pub list_all_unique :
    (c d : Catalog)
    → IsWellFormed c
    → IsWellFormed d
    → ((k : String) → lookup k c ≡ lookup k d)
    → list_all c ≡ list_all d
list_all_unique c d w v same =
    ascending_unique (list_all c) (list_all d) (list_all-IsAscending c w) (list_all-IsAscending d v)
      λ x. (
        λ m. (Member-list_all d v x).1 (sym (same x.key) ∙ (Member-list_all c w x).0 m),
        λ m. (Member-list_all c w x).1 (same x.key ∙ (Member-list_all d v x).0 m),
      )
