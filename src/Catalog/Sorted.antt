-- ===== src/Catalog/Sorted.antt =====
-- The sort of ListAll: ascending lists by key, and the members of the sorted values of a map.
use parparchik.Common.{String, some, ◌≡◌, ◌↔◌, ◌⊎◌, inl, inr, refl, ◌∙◌, ap, arith}
use parparchik.Common.{List, [], ◌∷◌, Member, All, true, false, str_ltb, str_ltb_trans, eq_iff}
use parparchik.Common.{suc, str_ltb_total, Bool-cases, ◌≢◌, length}
use parparchik.Common.Assoc
use parparchik.Common.Assoc.{Assoc, HasDistinctKeys}
use parparchik.Catalog.Update.{Entry}
use parparchik.Catalog.Listing.{insert_by_key, sort_by_key}

abbrev pub Precedes : Entry → Entry → Type 0
Precedes e f = str_ltb e.key f.key ≡ true

abbrev pub IsAscending : List Entry → Type 0
IsAscending [] = Unit
IsAscending (e ∷ es) = All (Precedes e) es × IsAscending es

Member-insert_by_key :
    (x e : Entry) (es : List Entry) → Member x (insert_by_key e es) ↔ ((x ≡ e) ⊎ Member x es)
unfolding insert_by_key
Member-insert_by_key x e [] = ground arith
Member-insert_by_key x e (f ∷ fs) = ground (arith, Member-insert_by_key x e fs)

pub Member-sort_by_key : (x : Entry) (es : List Entry) → Member x (sort_by_key es) ↔ Member x es
unfolding sort_by_key
Member-sort_by_key x [] = (λ m. m, λ m. m)
Member-sort_by_key x (e ∷ es) =
    ground (arith, Member-insert_by_key x e (sort_by_key es), Member-sort_by_key x es)

length-insert_by_key : (e : Entry) (es : List Entry) → length (insert_by_key e es) ≡ suc (length es)
unfolding insert_by_key
length-insert_by_key e [] = refl
length-insert_by_key e (f ∷ fs) = ground (arith, length-insert_by_key e fs)

pub length-sort_by_key : (es : List Entry) → length (sort_by_key es) ≡ length es
unfolding sort_by_key
length-sort_by_key [] = refl
length-sort_by_key (e ∷ es) =
    length-insert_by_key e (sort_by_key es) ∙ ap suc (length-sort_by_key es)

Precedes-All :
    (e f : Entry) (es : List Entry) → Precedes e f → All (Precedes f) es → All (Precedes e) es
Precedes-All e f [] p h = tt
Precedes-All e f (g ∷ gs) p h = (str_ltb_trans e.key f.key g.key p h.0, Precedes-All e f gs p h.1)

All-insert_by_key :
    (f e : Entry) (es : List Entry)
    → Precedes f e
    → All (Precedes f) es
    → All (Precedes f) (insert_by_key e es)
unfolding insert_by_key
All-insert_by_key f e [] p h = (p, tt)
All-insert_by_key f e (g ∷ gs) p h = ground (arith, All-insert_by_key f e gs p h.1)

abbrev HasOtherKeys : Entry → List Entry → Type 0
HasOtherKeys e es = All (λ f. f.key ≢ e.key) es

Precedes-other : (e f : Entry) → f.key ≢ e.key → str_ltb e.key f.key ≡ false → Precedes f e
Precedes-other e f other h = elim (Bool-cases (str_ltb f.key e.key)) [
  | inl less ↦ less
  | inr more ↦ absurd (other (str_ltb_total f.key e.key more h))
]

insert_by_key-IsAscending :
    (e : Entry) (es : List Entry)
    → HasOtherKeys e es
    → IsAscending es
    → IsAscending (insert_by_key e es)
unfolding insert_by_key
insert_by_key-IsAscending e [] o h = (tt, tt)
insert_by_key-IsAscending e (f ∷ fs) o h = elim (Bool-cases (str_ltb e.key f.key)) [
  | inl less ↦ rw less ((less, Precedes-All e f fs less h.0), h)
  | inr more ↦ rw more (
    All-insert_by_key f e fs (Precedes-other e f o.0 more) h.0,
    insert_by_key-IsAscending e fs o.1 h.1,
  )
]

pub All-of_Member :
    (P : Entry → Type 0) (es : List Entry) → ((e : Entry) → Member e es → P e) → All P es
All-of_Member P [] h = tt
All-of_Member P (e ∷ es) h = (h e (inl refl), All-of_Member P es (λ f m. h f (inr m)))

pub Member_of_All :
    (P : Entry → Type 0) (es : List Entry) (e : Entry) → All P es → Member e es → P e
Member_of_All P [] e h m = elim m [ ]
Member_of_All P (f ∷ fs) e h (inl same) = rw same h.0
Member_of_All P (f ∷ fs) e h (inr m) = Member_of_All P fs e h.1 m

-- Each entry lies under its own key.
abbrev pub IsKeyed : Assoc Entry → Type 0
IsKeyed [] = Unit
IsKeyed ((k, e) ∷ m) = (e.key ≡ k) × IsKeyed m

pub keyed :
    (m : Assoc Entry)
    → HasDistinctKeys m
    → ((k : String) (e : Entry) → Assoc.lookup k m ≡ some e → e.key ≡ k)
    → IsKeyed m
unfolding Assoc.lookup
keyed [] d h = tt
keyed ((j, v) ∷ m) d h = (
  h j v (ground (arith, eq_iff j j)),
  keyed m d.1 (λ k e at. h k e (ground (arith, at, d.0, eq_iff j k))),
)

pub Member-values_iff :
    (m : Assoc Entry) (e : Entry)
    → HasDistinctKeys m
    → IsKeyed m
    → Member e (Assoc.values m) ↔ (Assoc.lookup e.key m ≡ some e)
unfolding Assoc.lookup Assoc.values
Member-values_iff [] e d k = ground arith
Member-values_iff ((j, v) ∷ m) e d k = ground (arith, Member-values_iff m e d.1 k.1, eq_iff j e.key)

pub sort_by_key-IsAscending :
    (m : Assoc Entry) → HasDistinctKeys m → IsKeyed m → IsAscending (sort_by_key (Assoc.values m))
unfolding Assoc.values sort_by_key
sort_by_key-IsAscending [] d k = tt
sort_by_key-IsAscending ((j, v) ∷ m) d k =
    insert_by_key-IsAscending v (sort_by_key (Assoc.values m))
      (All-of_Member (λ f. f.key ≢ v.key) _
        λ f at same.
          let inside = (Member-sort_by_key f (Assoc.values m)).0 at in
          let found = (Member-values_iff m f d.1 k.1).0 inside in
          ground (arith, found, same, k.0, d.0))
      (sort_by_key-IsAscending m d.1 k.1)
