-- ===== src/Cleanup/Planned.antt =====
-- What Plan names, over all its rules.
use parparchik.Common.{String, Option, some, List, [], ◌∷◌, true, ◌≡◌, ◌==◌, All, Member, refl, ◌⊎◌}
use parparchik.Common.{Bool-cases, Option-cases, inl, inr, arith, eq_iff, sym, ◌∙◌, subst, ap}
use parparchik.Common.Assoc
use parparchik.Common.Assoc.{
  Assoc, HasDistinctKeys, lookup-insert, insert-HasDistinctKeys, lookup-empty,
}
use parparchik.Common.Int.{ℤ, pos, ltb_ℤ, ◌-ℤ◌, saturate}
use parparchik.Catalog.{Entry, sort_by_key}
use parparchik.Catalog.Sorted.{IsAscending, keyed, All-of_Member, sort_by_key-IsAscending}
use parparchik.Cleanup.Plan.{Rule, Ages, parse_ages, parse_ages_into, plan}
use parparchik.Cleanup.Marked.{
  IsOne, found, marked, found-IsKeyed, listed-IsOne, found_is_listed, victims_of-old,
  Member-too_old,
}

-- Each key stands once.
abbrev pub HasUniqueKeys : List Entry → Type 0
HasUniqueKeys entries = (d e : Entry) → Member d entries → Member e entries → d.key ≡ e.key → d ≡ e

module _ (parse_time : String → Option ℤ) where
  parse_ages_into-source :
      (es : List Entry) (ages : Ages) (k : String) (t : ℤ)
      → Assoc.lookup k (parse_ages_into parse_time es ages) ≡ some t
      → ((d : Entry) × Member d es × (d.key ≡ k) × (parse_time d.last_modified ≡ some t))
        ⊎ (Assoc.lookup k ages ≡ some t)
  unfolding parse_ages_into
  parse_ages_into-source [] ages k t at = inr at
  parse_ages_into-source (e ∷ es) ages k t at = elim (Option-cases (parse_time e.last_modified)) [
    | inl unreadable ↦ elim (parse_ages_into-source es ages k t (ground (arith, unreadable, at))) [
      | inl (d, m, keyed, parsed) ↦ inl (d, inr m, keyed, parsed)
      | inr before ↦ inr before
    ]
    | inr (u, parsed) ↦
        elim (parse_ages_into-source es (Assoc.insert e.key u ages) k t
          (ground (arith, parsed, at))) [
            | inl (d, m, keyed, parsed_d) ↦ inl (d, inr m, keyed, parsed_d)
            | inr now ↦ elim (Bool-cases (e.key == k)) [
              | inl same ↦ inl (
                e,
                inl refl,
                (eq_iff e.key k).0 same,
                ground (arith, parsed, now, same, lookup-insert e.key k u ages),
              )
              | inr other ↦ inr (ground (arith, now, other, lookup-insert e.key k u ages))
            ]
          ]
  ]

  dated :
      (r : Rule) (entries : List Entry) (e : Entry)
      → HasUniqueKeys entries
      → IsOne r entries (parse_ages parse_time entries) e
      → Member e entries × ((t : ℤ) × (parse_time e.last_modified ≡ some t))
  unfolding parse_ages Assoc.lookup
  dated r entries e unique (m, (t, at)) = elim (parse_ages_into-source entries [] e.key t at) [
    | inr never ↦ absurd (ground (arith, never))
    | inl (d, md, same, parsed) ↦ (
      m,
      (t, subst (λ (x : Entry). parse_time x.last_modified ≡ some t) (unique d e md m same) parsed),
    )
  ]

  parse_ages_into-keeps :
      (es : List Entry) (ages : Ages) (k : String)
      → ((t : ℤ) × (Assoc.lookup k ages ≡ some t))
      → (t : ℤ) × (Assoc.lookup k (parse_ages_into parse_time es ages) ≡ some t)
  unfolding parse_ages_into
  parse_ages_into-keeps [] ages k h = h
  parse_ages_into-keeps (e ∷ es) ages k (t, at) = elim (Option-cases (parse_time e.last_modified)) [
    | inl unreadable ↦ rw (unreadable, parse_ages_into) (parse_ages_into-keeps es ages k (t, at))
    | inr (u, parsed) ↦
        rw (parsed, parse_ages_into)
          (parse_ages_into-keeps es (Assoc.insert e.key u ages) k (elim (Bool-cases (e.key == k)) [
            | inl same ↦ (u, ground (arith, same, lookup-insert e.key k u ages))
            | inr other ↦ (t, ground (arith, at, other, lookup-insert e.key k u ages))
          ]))
  ]

  parse_ages_into-has :
      (es : List Entry) (ages : Ages) (e : Entry) (t : ℤ)
      → Member e es
      → parse_time e.last_modified ≡ some t
      → (u : ℤ) × (Assoc.lookup e.key (parse_ages_into parse_time es ages) ≡ some u)
  unfolding parse_ages_into
  parse_ages_into-has [] ages e t m parsed = elim m [ ]
  parse_ages_into-has (d ∷ es) ages e t (inl same) parsed =
      rw (sym same, parsed, parse_ages_into)
        (parse_ages_into-keeps es (Assoc.insert d.key t ages) e.key (
          t,
          ground (
            arith,
            ap (λ (x : Entry). x.key) same,
            eq_iff d.key e.key,
            lookup-insert d.key e.key t ages,
          ),
        ))
  parse_ages_into-has (d ∷ es) ages e t (inr m) parsed =
      elim (Option-cases (parse_time d.last_modified)) [
        | inl unreadable ↦
            rw (unreadable, parse_ages_into) (parse_ages_into-has es ages e t m parsed)
        | inr (u, read) ↦
            rw (read, parse_ages_into)
              (parse_ages_into-has es (Assoc.insert d.key u ages) e t m parsed)
      ]

  -- An entry of a key of its own has the time of its own stamp.
  parse_ages-own :
      (entries : List Entry) (e : Entry) (t : ℤ)
      → HasUniqueKeys entries
      → Member e entries
      → parse_time e.last_modified ≡ some t
      → Assoc.lookup e.key (parse_ages parse_time entries) ≡ some t
  unfolding parse_ages Assoc.lookup
  parse_ages-own entries e t unique m parsed =
      let (u, at) = parse_ages_into-has entries [] e t m parsed in
      elim (parse_ages_into-source entries [] e.key u at) [
        | inr never ↦ absurd (ground (arith, never))
        | inl (d, md, same, read) ↦
            let own =
              subst (λ (x : Entry). parse_time x.last_modified ≡ some u) (unique d e md m same)
                read in
            at ∙ sym own ∙ parsed
      ]

  -- Where no two entries share a key, a plan lists its victims in ascending order of their keys, so
  -- none twice, and each is one of the entries and has a time stamp that parses: an entry that
  -- cannot be dated is never deleted, by no rule.
  pub plan_lem :
      (r : Rule) (entries : List Entry) (now : ℤ)
      → HasUniqueKeys entries
      → IsAscending (plan parse_time r entries now)
        × All
            (λ e. Member e entries × ((t : ℤ) × (parse_time e.last_modified ≡ some t)))
            (plan parse_time r entries now)
  unfolding plan
  plan_lem r entries now unique =
      let ages = parse_ages parse_time entries in
      let found_map = found r entries ages now in
      (
        sort_by_key-IsAscending found_map (marked r entries ages now).distinct
            (found-IsKeyed r entries ages now),
        All-of_Member _ (sort_by_key (Assoc.values found_map))
            (λ e m. dated r entries e unique (listed-IsOne r entries ages now e m)),
      )

  -- Where no two entries share a key and the rule sets a maximal age, the plan lists every entry whose
  -- time stamp parses and that is older, on the clock given.
  pub plan_complete :
      (r : Rule) (entries : List Entry) (now t : ℤ) (e : Entry)
      → HasUniqueKeys entries
      → Member e entries
      → ltb_ℤ (pos 0) r.max_age ≡ true
      → parse_time e.last_modified ≡ some t
      → ltb_ℤ r.max_age (saturate (now -ℤ t)) ≡ true
      → Member e (plan parse_time r entries now)
  unfolding plan
  plan_complete r entries now t e unique m on parsed old =
      let ages = parse_ages parse_time entries in
      let listed_old =
        Member-too_old r entries ages now t e entries m (parse_ages-own entries e t unique m parsed)
          old in
      let (f, at) = victims_of-old r entries ages now e on listed_old in
      let fit = (marked r entries ages now).fits e.key f at in
      subst (λ x. Member x (plan parse_time r entries now)) (unique f e fit.1.0 m fit.0)
        (found_is_listed r entries ages now e.key f at)
