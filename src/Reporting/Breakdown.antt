-- ===== src/Reporting/Breakdown.antt =====
-- LicenseBreakdown against a plain count.
use parparchik.Common.{
  String, ℕ, suc, ◌+◌, ◌≤◌, some, List, [], ◌∷◌, ◌==◌, ◌≡◌, ◌↔◌, ◌⊎◌, Member, sym, ◌∙◌, ap,
}
use parparchik.Common.{if◌then◌else◌, arith, eq_iff, Bool-cases, Option-cases, inl, inr}
use parparchik.Common.Assoc
use parparchik.Common.Assoc.{Assoc, HasDistinctKeys, lookup-insert, insert-HasDistinctKeys}
use parparchik.Reporting.Reports.{
  Record, LicenseBreakdownEntry, counted, count_licenses, breakdown_entries, ranks_before,
  insert_ranked, sort_ranked, license_breakdown,
}

-- The records with the identifier.
abbrev pub occurrences : String → List Record → ℕ
occurrences id [] = 0
occurrences id (r ∷ rs) = (if r.license.spdx_id == id then 1 else 0) + occurrences id rs

-- No count in the map is zero, and each key stands once.
record IsTally (counts : Assoc ℕ) : Type 0 where
  distinct : HasDistinctKeys counts
  positive : (id : String) (n : ℕ) → Assoc.lookup id counts ≡ some n → 1 ≤ n

none_counted : IsTally []
unfolding Assoc.lookup
none_counted = record { distinct = tt; positive = λ id n at. absurd (ground arith) }

insert-IsTally :
    (id : String) (n : ℕ) (counts : Assoc ℕ)
    → IsTally counts
    → IsTally (Assoc.insert id (suc n) counts)
insert-IsTally id n counts h = record {
  distinct = insert-HasDistinctKeys id (suc n) counts h.distinct;
  positive = λ j m at. elim (Bool-cases (id == j)) [
    | inl same ↦ ground (arith, same, at, lookup-insert id j (suc n) counts)
    | inr other ↦ h.positive j m (ground (arith, other, at, lookup-insert id j (suc n) counts))
  ];
}

count_licenses-IsTally :
    (rs : List Record) (counts : Assoc ℕ) → IsTally counts → IsTally (count_licenses rs counts)
unfolding count_licenses
count_licenses-IsTally [] counts h = h
count_licenses-IsTally (r ∷ rs) counts h =
    count_licenses-IsTally rs _ (insert-IsTally r.license.spdx_id _ counts h)

counted-count_licenses :
    (id : String) (rs : List Record) (counts : Assoc ℕ)
    → counted (Assoc.lookup id (count_licenses rs counts))
      ≡ occurrences id rs + counted (Assoc.lookup id counts)
unfolding count_licenses
counted-count_licenses id [] counts = omega arith
counted-count_licenses id (r ∷ rs) counts =
    let key = r.license.spdx_id in
    let n = counted (Assoc.lookup key counts) in
    counted-count_licenses id rs (Assoc.insert key (suc n) counts) ∙ elim (Bool-cases (key == id)) [
      | inl same ↦
          let here = ap (λ j. counted (Assoc.lookup j counts)) ((eq_iff key id).0 same) in
          ground (arith, same, here, lookup-insert key id (suc n) counts)
      | inr other ↦ ground (arith, other, lookup-insert key id (suc n) counts)
    ]

Member-insert_ranked :
    (x e : LicenseBreakdownEntry) (es : List LicenseBreakdownEntry)
    → Member x (insert_ranked e es) ↔ ((x ≡ e) ⊎ Member x es)
unfolding insert_ranked
Member-insert_ranked x e [] = ground arith
Member-insert_ranked x e (f ∷ fs) = elim (Bool-cases (ranks_before e f)) [
  | inl before ↦ rw (before, insert_ranked, if◌then◌else◌) (λ m. m, λ m. m)
  | inr behind ↦
      rw (behind, insert_ranked, if◌then◌else◌) (ground (arith, Member-insert_ranked x e fs))
]

Member-sort_ranked :
    (x : LicenseBreakdownEntry) (es : List LicenseBreakdownEntry)
    → Member x (sort_ranked es) ↔ Member x es
unfolding sort_ranked
Member-sort_ranked x [] = (λ m. m, λ m. m)
Member-sort_ranked x (e ∷ es) =
    ground (arith, Member-insert_ranked x e (sort_ranked es), Member-sort_ranked x es)

Member-breakdown_entries :
    (id : String) (n : ℕ) (counts : Assoc ℕ)
    → HasDistinctKeys counts
    → Member (record { spdx_id = id; count = n }) (breakdown_entries counts)
      ↔ (Assoc.lookup id counts ≡ some n)
unfolding breakdown_entries Assoc.lookup
Member-breakdown_entries id n [] h = ground arith
Member-breakdown_entries id n ((j, m) ∷ counts) h =
    ground (arith, Member-breakdown_entries id n counts h.1, eq_iff j id)

count_licenses_iff :
    (rs : List Record) (id : String) (n : ℕ)
    → (Assoc.lookup id (count_licenses rs []) ≡ some n) ↔ ((1 ≤ n) × (n ≡ occurrences id rs))
unfolding Assoc.lookup
count_licenses_iff rs id n =
    let counts = count_licenses rs [] in
    let total : counted (Assoc.lookup id counts) ≡ occurrences id rs =
      counted-count_licenses id rs [] ∙ omega arith in
    let tally : IsTally counts = count_licenses-IsTally rs [] none_counted in
    (
      λ at. (tally.positive id n at, sym (ap counted at) ∙ total),
      λ h. elim (Option-cases (Assoc.lookup id counts)) [
        | inl missing ↦ absurd (omega (arith, sym (ap counted missing) ∙ total, h.0, h.1))
        | inr (m, at) ↦ at ∙ ap some (sym (ap counted at) ∙ total ∙ sym h.1)
      ],
    )

-- LicenseBreakdown has the entry of an identifier with a count exactly where the count is the number
-- of records with that identifier and is not zero.
pub license_breakdown_iff :
    (rs : List Record) (id : String) (n : ℕ)
    → Member (record { spdx_id = id; count = n }) (license_breakdown rs)
      ↔ ((1 ≤ n) × (n ≡ occurrences id rs))
unfolding license_breakdown
license_breakdown_iff rs id n =
    let counts = count_licenses rs [] in
    let start : IsTally (count_licenses rs []) = count_licenses-IsTally rs [] none_counted in
    let sorted =
      Member-sort_ranked (record { spdx_id = id; count = n }) (breakdown_entries counts) in
    let listed = Member-breakdown_entries id n counts start.distinct in
    let exact = count_licenses_iff rs id n in
    (λ m. exact.0 (listed.0 (sorted.0 m)), λ h. sorted.1 (listed.1 (exact.1 h)))
