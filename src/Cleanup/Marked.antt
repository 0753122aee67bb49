-- ===== src/Cleanup/Marked.antt =====
-- The map of victims, which the rules of a plan fill.
use parparchik.Common.{
  String, Option, none, some, List, [], ◌∷◌, true, ◌≡◌, ◌==◌, All, Member, refl,
}
use parparchik.Common.{Bool-cases, inl, inr, arith, eq_iff, if◌then◌else◌, sym, ◌∙◌, subst, ap}
use parparchik.Common.Assoc
use parparchik.Common.Assoc.{
  Assoc, HasDistinctKeys, lookup-insert, insert-HasDistinctKeys, lookup-empty,
}
use parparchik.Common.Int.{ℤ, pos, ltb_ℤ, ◌-ℤ◌, saturate}
use parparchik.Catalog.{Entry, sort_by_key}
use parparchik.Catalog.Sorted.{IsKeyed, keyed, Member-sort_by_key, Member-values_iff, All-of_Member}
use parparchik.Cleanup.Plan.{
  Rule, Ages, add_sizes, oldest_first, group_into, version_overflow, mark, too_old, if_positive,
  versions_of, victims_of, sort_by_age,
}
use parparchik.Cleanup.Victims.{
  IsVictim, All-evict_oldest, All-sort_by_age, All-too_old, All-overflow_of_groups,
  group_into-AllGroups,
}

-- The marked entries, each once and under its own key.
pub record IsMarked (V : Entry → Type 0) (m : Assoc Entry) : Type 0 where
  pub distinct : HasDistinctKeys m
  pub fits : (k : String) (e : Entry) → Assoc.lookup k m ≡ some e → (e.key ≡ k) × V e

module _ (V : Entry → Type 0) where
  mark-IsMarked :
      (es : List Entry) (m : Assoc Entry) → All V es → IsMarked V m → IsMarked V (mark es m)
  unfolding mark
  mark-IsMarked [] m v h = h
  mark-IsMarked (e ∷ es) m v h = mark-IsMarked es (Assoc.insert e.key e m) v.1 (record {
    distinct = insert-HasDistinctKeys e.key e m h.distinct;
    fits = λ k f at. elim (Bool-cases (e.key == k)) [
      | inl same ↦
          let named : e.key ≡ k = (eq_iff e.key k).0 same in
          let f_is : e ≡ f = ground (arith, same, at, lookup-insert e.key k e m) in
          subst (λ g. (g.key ≡ k) × V g) f_is (named, v.0)
      | inr other ↦ h.fits k f (ground (arith, other, at, lookup-insert e.key k e m))
    ];
  })

  -- What is marked stays under its key.
  mark-keeps :
      (es : List Entry) (m : Assoc Entry) (k : String)
      → ((e : Entry) × (Assoc.lookup k m ≡ some e))
      → (e : Entry) × (Assoc.lookup k (mark es m) ≡ some e)
  unfolding mark
  mark-keeps [] m k h = h
  mark-keeps (d ∷ es) m k (e, at) =
      mark-keeps es (Assoc.insert d.key d m) k (elim (Bool-cases (d.key == k)) [
        | inl same ↦ (d, ground (arith, same, lookup-insert d.key k d m))
        | inr other ↦ (e, ground (arith, other, at, lookup-insert d.key k d m))
      ])

  mark-marks :
      (es : List Entry) (m : Assoc Entry) (e : Entry)
      → Member e es
      → (f : Entry) × (Assoc.lookup e.key (mark es m) ≡ some f)
  unfolding mark
  mark-marks [] m e at = elim at [ ]
  mark-marks (d ∷ es) m e (inl same) = mark-keeps es (Assoc.insert d.key d m) e.key (
    d,
    ground
        (arith, ap (λ (x : Entry). x.key) same, eq_iff d.key e.key, lookup-insert d.key e.key d m),
  )
  mark-marks (d ∷ es) m e (inr later) = mark-marks es (Assoc.insert d.key d m) e later

if_positive-All :
    (V : Entry → Type 0) (limit : ℤ) (es : List Entry) → All V es → All V (if_positive limit es)
if_positive-All V limit es h = elim (Bool-cases (ltb_ℤ (pos 0) limit)) [
  | inl on ↦ rw (on, if◌then◌else◌) h
  | inr off ↦ rw (off, if◌then◌else◌) tt
]

if_positive-on :
    (limit : ℤ) (es : List Entry) → ltb_ℤ (pos 0) limit ≡ true → if_positive limit es ≡ es
if_positive-on limit es on = rw (on, if◌then◌else◌) refl

module _ (r : Rule) (entries : List Entry) (ages : Ages) where
  -- An entry of the input with a time.
  abbrev pub IsOne : Entry → Type 0
  IsOne = IsVictim (λ e. Member e entries) ages

  every : All (λ e. Member e entries) entries
  every = All-of_Member (λ e. Member e entries) entries (λ e m. m)

  oldest_first-All : All IsOne (oldest_first r entries ages)
  unfolding oldest_first
  oldest_first-All = elim (Bool-cases (ltb_ℤ r.max_total_size (add_sizes (pos 0) entries))) [
    | inl over ↦
        rw (over, if◌then◌else◌)
          (All-evict_oldest (λ e. Member e entries) ages r.max_total_size _
            (sort_by_age ages entries) (All-sort_by_age (λ e. Member e entries) ages entries every))
    | inr fits ↦ rw (fits, if◌then◌else◌) tt
  ]

  versions_of-All : (o : Option (Entry → String)) → All IsOne (versions_of r entries ages o)
  unfolding version_overflow
  versions_of-All none = tt
  versions_of-All (some group_key) = if_positive-All IsOne r.max_version_count _ (
      All-overflow_of_groups (λ e. Member e entries) ages r (group_into group_key entries [])
        (group_into-AllGroups (λ e. Member e entries) ages group_key entries [] every tt))

  victims_of-IsMarked : (now : ℤ) → IsMarked IsOne (victims_of r entries ages now)
  unfolding victims_of Assoc.lookup
  victims_of-IsMarked now =
      mark-IsMarked IsOne (versions_of r entries ages r.group_key) _ (versions_of-All r.group_key) (
        mark-IsMarked IsOne (if_positive r.max_total_size (oldest_first r entries ages)) _
          (if_positive-All IsOne r.max_total_size _ oldest_first-All)
          (mark-IsMarked IsOne (if_positive r.max_age (too_old r ages now entries)) []
            (if_positive-All IsOne r.max_age _
              (All-too_old (λ e. Member e entries) ages r now entries every))
            (record { distinct = tt; fits = λ k e at. absurd (ground arith) })))

  pub victims_of-old :
      (now : ℤ) (e : Entry)
      → ltb_ℤ (pos 0) r.max_age ≡ true
      → Member e (too_old r ages now entries)
      → (f : Entry) × (Assoc.lookup e.key (victims_of r entries ages now) ≡ some f)
  unfolding victims_of
  victims_of-old now e on old = mark-keeps IsOne (versions_of r entries ages r.group_key) _ e.key (
      mark-keeps IsOne (if_positive r.max_total_size (oldest_first r entries ages)) _ e.key (
        mark-marks IsOne (if_positive r.max_age (too_old r ages now entries)) [] e
          (subst (λ es. Member e es) (sym (if_positive-on r.max_age _ on)) old)))

  pub Member-too_old :
      (now t : ℤ) (e : Entry) (es : List Entry)
      → Member e es
      → Assoc.lookup e.key ages ≡ some t
      → ltb_ℤ r.max_age (saturate (now -ℤ t)) ≡ true
      → Member e (too_old r ages now es)
  unfolding too_old
  Member-too_old now t e [] m dated old = m
  Member-too_old now t e (d ∷ es) (inl same) dated old =
      rw (sym same, dated, old, too_old, if◌then◌else◌) (inl same)
  Member-too_old now t e (d ∷ es) (inr m) dated old =
      let later = Member-too_old now t e es m dated old in ground (arith, later)

  module _ (now : ℤ) where
    abbrev pub found : Assoc Entry
    found = victims_of r entries ages now

    pub marked : IsMarked IsOne found
    marked = victims_of-IsMarked now

    pub found-IsKeyed : IsKeyed found
    found-IsKeyed = keyed found marked.distinct (λ k e at. (marked.fits k e at).0)

    pub listed-IsOne : (e : Entry) → Member e (sort_by_key (Assoc.values found)) → IsOne e
    listed-IsOne e m =
        let at =
          (Member-values_iff found e marked.distinct found-IsKeyed).0
            ((Member-sort_by_key e (Assoc.values found)).0 m) in
        (marked.fits e.key e at).1

    pub found_is_listed :
        (k : String) (f : Entry)
        → Assoc.lookup k found ≡ some f
        → Member f (sort_by_key (Assoc.values found))
    found_is_listed k f at =
        let same = (marked.fits k f at).0 in
        (Member-sort_by_key f (Assoc.values found)).1 (
          (Member-values_iff found f marked.distinct found-IsKeyed).1
            (ap (λ j. Assoc.lookup j found) same ∙ at))
