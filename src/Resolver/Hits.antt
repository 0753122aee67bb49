-- ===== src/Resolver/Hits.antt =====
-- The searches of the resolver against independent descriptions: a search stops at the first bucket
-- with storage that has the key, a walk asks them all, both in configuration order.
use parparchik.Common.{
  String, Option, none, some, List, [], ◌∷◌, ◌≡◌, refl, true, false, Bool-cases, inl, inr,
}
use parparchik.Common.Results.{Result, ok, err}
use parparchik.Config.{Bucket, has_storage}
use parparchik.Resolver.Actions.{Object, Services}

-- A bucket that has the file, with what it told of the file.
pub record Hit : Type 0 where
  pub bucket : String
  pub obj : Object

-- A search ends with a hit, without one, or with the error of the bucket that it asked last.
abbrev pub Outcome : Type 0 → Type 0
Outcome Error = Result (String × Error) (Option Hit)

pub data Search {World Content Error : Type 0} (sv : Services World Content Error) (key : String)
    : List Bucket → World → Outcome Error → World → Type 0 where
  done : {w : World} → Search sv key [] w (ok none) w
  skipped :
      {b : Bucket} {bs : List Bucket} {w w' : World} {o : Outcome Error}
      → has_storage b ≡ false
      → Search sv key bs w o w'
      → Search sv key (b ∷ bs) w o w'
  missed :
      {b : Bucket} {bs : List Bucket} {w u w' : World} {o : Outcome Error}
      → has_storage b ≡ true
      → sv.head_object b.name key w ≡ (ok none, u)
      → Search sv key bs u o w'
      → Search sv key (b ∷ bs) w o w'
  found :
      {b : Bucket} {bs : List Bucket} {w w' : World} {obj : Object}
      → has_storage b ≡ true
      → sv.head_object b.name key w ≡ (ok (some obj), w')
      → Search sv key (b ∷ bs) w (ok (some (record { bucket = b.name; obj = obj }))) w'
  failed :
      {b : Bucket} {bs : List Bucket} {w w' : World} {e : Error}
      → has_storage b ≡ true
      → sv.head_object b.name key w ≡ (err e, w')
      → Search sv key (b ∷ bs) w (err (b.name, e)) w'

-- The walk asked every bucket with storage, none failed, and `hits` had the key, in this order.
pub data Walk {World Content Error : Type 0} (sv : Services World Content Error) (key : String)
    : List Bucket → World → List Hit → World → Type 0 where
  walked : {w : World} → Walk sv key [] w [] w
  passed :
      {b : Bucket} {bs : List Bucket} {w w' : World} {hits : List Hit}
      → has_storage b ≡ false
      → Walk sv key bs w hits w'
      → Walk sv key (b ∷ bs) w hits w'
  lacking :
      {b : Bucket} {bs : List Bucket} {w u w' : World} {hits : List Hit}
      → has_storage b ≡ true
      → sv.head_object b.name key w ≡ (ok none, u)
      → Walk sv key bs u hits w'
      → Walk sv key (b ∷ bs) w hits w'
  having :
      {b : Bucket} {bs : List Bucket} {w u w' : World} {hits : List Hit} {obj : Object}
      → has_storage b ≡ true
      → sv.head_object b.name key w ≡ (ok (some obj), u)
      → Walk sv key bs u hits w'
      → Walk sv key (b ∷ bs) w (record { bucket = b.name; obj = obj } ∷ hits) w'

-- Every search ends, and ends in some way.
module _ {World Content Error : Type 0} (sv : Services World Content Error) (key : String) where
  abbrev pub HasEnd : List Bucket → World → Type 0
  HasEnd bs w = (o : Outcome Error) × (w' : World) × Search sv key bs w o w'

  end_of_answer :
      (b : Bucket) (bs : List Bucket) (w u : World) (r : Result Error (Option Object))
      → has_storage b ≡ true
      → sv.head_object b.name key w ≡ (r, u)
      → HasEnd bs u
      → HasEnd (b ∷ bs) w
  end_of_answer b bs w u (ok none) stored answer (o, w', rest) = (o, w', missed stored answer rest)
  end_of_answer b bs w u (ok (some obj)) stored answer rest = (_, _, found stored answer)
  end_of_answer b bs w u (err e) stored answer rest = (_, _, failed stored answer)

  pub search_ends : (bs : List Bucket) (w : World) → HasEnd bs w
  search_ends [] w = (_, _, done)
  search_ends (b ∷ bs) w = elim (Bool-cases (has_storage b)) [
    | inl stored ↦
        let (r, u) = sv.head_object b.name key w in
        end_of_answer b bs w u r stored refl (search_ends bs u)
    | inr skip ↦ let (o, w', rest) = search_ends bs w in (o, w', skipped skip rest)
  ]
