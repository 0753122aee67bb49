-- ===== src/Snapshot/Offered.antt =====
-- The manifests of a capture, and what they offer.
use parparchik.Common.{
  String, List, [], ◌∷◌, ◌++◌, Bool, true, ◌≡◌, ◌≢◌, ◌==◌, ◌⊎◌, refl, Member, Member-append,
  Member-append_left, Member-append_right,
}
use parparchik.Common.{Bool-cases, inl, inr, arith, eq_iff, if◌then◌else◌, sym, ◌∙◌, subst, ap}
use parparchik.Common.Assoc
use parparchik.Common.Assoc.{Assoc, lookup-insert, lookup-empty}
use parparchik.Catalog.{
  Catalog, Entry, Manifest, in_bucket, list_by_bucket, list_all, manifest_for_bucket,
}
use parparchik.Catalog.Loading.{Offer, offer, offers_of_files}
use parparchik.Snapshot.Document.{
  is_seen, collect_buckets, insert_string, sort_strings, distinct_buckets, manifests_of,
}

Member-insert_string :
    (x s : String) (ts : List String) → (x ≡ s) ⊎ Member x ts → Member x (insert_string s ts)
unfolding insert_string
Member-insert_string x s [] m = m
Member-insert_string x s (t ∷ ts) m = ground (arith, m, Member-insert_string x s ts)

Member-sort_strings : (x : String) (ss : List String) → Member x ss → Member x (sort_strings ss)
unfolding sort_strings
Member-sort_strings x [] m = m
Member-sort_strings x (s ∷ ss) (inl same) = Member-insert_string x s (sort_strings ss) (inl same)
Member-sort_strings x (s ∷ ss) (inr m) =
    Member-insert_string x s (sort_strings ss) (inr (Member-sort_strings x ss m))

is_seen-insert :
    (b other : String) (seen : Assoc Bool)
    → is_seen other (Assoc.insert b true seen) ≡ true
    → (b ≡ other) ⊎ (is_seen other seen ≡ true)
is_seen-insert b other seen h = elim (Bool-cases (b == other)) [
  | inl same ↦ inl ((eq_iff b other).0 same)
  | inr apart ↦ inr (ground (arith, apart, h, lookup-insert b other true seen))
]

collect_buckets-Member :
    (es : List Entry) (seen : Assoc Bool) (e : Entry)
    → Member e es
    → (is_seen e.bucket seen ≡ true) ⊎ Member e.bucket (collect_buckets es seen)
unfolding collect_buckets
collect_buckets-Member [] seen e m = elim m [ ]
collect_buckets-Member (d ∷ es) seen e m = elim (Bool-cases (is_seen d.bucket seen)) [
  | inl old ↦ elim m [
    | inl same ↦ inl (ap (λ (x : Entry). is_seen x.bucket seen) same ∙ old)
    | inr later ↦ rw (old, collect_buckets) (collect_buckets-Member es seen e later)
  ]
  | inr fresh ↦ elim m [
    | inl same ↦ inr (rw (fresh, collect_buckets) (inl (ap (λ (x : Entry). x.bucket) same)))
    | inr later ↦ elim (collect_buckets-Member es (Assoc.insert d.bucket true seen) e later) [
      | inr listed ↦ inr (rw (fresh, collect_buckets) (inr listed))
      | inl seen_now ↦ elim (is_seen-insert d.bucket e.bucket seen seen_now) [
        | inl here ↦ inr (rw (fresh, collect_buckets) (inl (sym here)))
        | inr before ↦ inl before
      ]
    ]
  ]
]

pub distinct_buckets-Member :
    (es : List Entry) (e : Entry) → Member e es → Member e.bucket (distinct_buckets es)
unfolding distinct_buckets Assoc.lookup
distinct_buckets-Member es e m = elim (collect_buckets-Member es [] e m) [
  | inl never ↦ absurd (ground (arith, never))
  | inr listed ↦ Member-sort_strings e.bucket (collect_buckets es []) listed
]

in_bucket-Member :
    (b : String) (e : Entry) (es : List Entry)
    → Member e es
    → e.bucket ≡ b
    → Member e (in_bucket b es)
unfolding in_bucket
in_bucket-Member b e [] m at = m
in_bucket-Member b e (d ∷ es) m at = elim (Bool-cases (d.bucket == b)) [
  | inl same ↦
      rw (same, in_bucket, if◌then◌else◌)
        (elim m [ inl here ↦ inl here | inr later ↦ inr (in_bucket-Member b e es later at) ])
  | inr other ↦
      rw (other, in_bucket, if◌then◌else◌)
        (elim m [
          | inl here ↦ absurd (
              ground
                (arith, other, eq_iff d.bucket b, sym (ap (λ (x : Entry). x.bucket) here) ∙ at))
          | inr later ↦ in_bucket-Member b e es later at
        ])
]

kept_or_later :
    (b : String) (e d : Entry) (es : List Entry)
    → Member e (in_bucket b (d ∷ es))
    → ((e ≡ d) × (d.bucket ≡ b)) ⊎ Member e (in_bucket b es)
unfolding in_bucket
kept_or_later b e d es m = ground (arith, m, eq_iff d.bucket b)

Member-in_bucket :
    (b : String) (e : Entry) (es : List Entry)
    → Member e (in_bucket b es)
    → Member e es × (e.bucket ≡ b)
unfolding in_bucket
Member-in_bucket b e [] m = elim m [ ]
Member-in_bucket b e (d ∷ es) m = elim (kept_or_later b e d es m) [
  | inl (here, at) ↦ (inl here, ap (λ (x : Entry). x.bucket) here ∙ at)
  | inr later ↦ let (there, at) = Member-in_bucket b e es later in (inr there, at)
]

offers-Member :
    (b : String) (e : Entry) (es : List Entry)
    → e.key ≢ ""
    → Member e es
    → Member (offer b e) (offers_of_files b es)
unfolding offers_of_files
offers-Member b e [] named m = m
offers-Member b e (d ∷ es) named m = elim (Bool-cases (d.key == "")) [
  | inl empty ↦
      rw (empty, offers_of_files, if◌then◌else◌)
        (elim m [
          | inl here ↦ absurd (named (ap (λ (x : Entry). x.key) here ∙ (eq_iff d.key "").0 empty))
          | inr later ↦ offers-Member b e es named later
        ])
  | inr full ↦
      rw (full, offers_of_files, if◌then◌else◌)
        (elim m [
          | inl here ↦ inl (ap (offer b) here)
          | inr later ↦ inr (offers-Member b e es named later)
        ])
]

offered_or_later :
    (b : String) (o : Offer) (d : Entry) (es : List Entry)
    → Member o (offers_of_files b (d ∷ es))
    → (o ≡ offer b d) ⊎ Member o (offers_of_files b es)
unfolding offers_of_files
offered_or_later b o d es m = elim (Bool-cases (d.key == "")) [
  | inl empty ↦ inr (rw (empty, offers_of_files, if◌then◌else◌) at m)
  | inr full ↦ rw (full, offers_of_files, if◌then◌else◌) at m
]

Member-offers :
    (b : String) (o : Offer) (es : List Entry)
    → Member o (offers_of_files b es)
    → (e : Entry) × Member e es × (o ≡ offer b e)
unfolding offers_of_files
Member-offers b o [] m = elim m [ ]
Member-offers b o (d ∷ es) m = elim (offered_or_later b o d es m) [
  | inl here ↦ (d, inl refl, here)
  | inr later ↦ let (e, there, same) = Member-offers b o es later in (e, inr there, same)
]

-- The offers of all the manifests.
unfoldable pub shown : List Manifest → List Offer
shown [] = []
shown (m ∷ ms) = offers_of_files m.bucket m.files ++ shown ms

-- The offer of an entry by its own bucket.
abbrev pub own_offer : Entry → Offer
own_offer e = record {
  key = e.key;
  bucket = e.bucket;
  size = e.size;
  last_modified = e.last_modified;
}

offer-own : (b : String) (e : Entry) → e.bucket ≡ b → offer b e ≡ own_offer e
offer-own b e at =
    let here : (if e.bucket == "" then b else e.bucket) ≡ e.bucket = ground (arith, at) in
    ap (with_bucket e) here
  where
    with_bucket : Entry → String → Offer
    with_bucket f x = record {
      key = f.key;
      bucket = x;
      size = f.size;
      last_modified = f.last_modified;
    }

pub own_offer-Member :
    (bs : List String) (c : Catalog) (e : Entry)
    → e.key ≢ ""
    → Member e.bucket bs
    → Member e (list_all c)
    → Member (own_offer e) (shown (manifests_of bs c))
unfolding shown manifests_of manifest_for_bucket list_by_bucket
own_offer-Member [] c e named m at = elim m [ ]
own_offer-Member (b ∷ bs) c e named (inl here) at =
    Member-append_left (own_offer e) (offers_of_files b (in_bucket b (list_all c)))
      (shown (manifests_of bs c))
      (subst (λ o. Member o (offers_of_files b (in_bucket b (list_all c)))) (offer-own b e here)
        (offers-Member b e (in_bucket b (list_all c)) named
          (in_bucket-Member b e (list_all c) at here)))
own_offer-Member (b ∷ bs) c e named (inr later) at =
    Member-append_right (own_offer e) (offers_of_files b (in_bucket b (list_all c)))
      (shown (manifests_of bs c)) (own_offer-Member bs c e named later at)

pub Member-shown :
    (bs : List String) (c : Catalog) (o : Offer)
    → Member o (shown (manifests_of bs c))
    → (e : Entry) × Member e (list_all c) × (o ≡ own_offer e)
unfolding shown manifests_of manifest_for_bucket list_by_bucket
Member-shown [] c o m = elim m [ ]
Member-shown (b ∷ bs) c o m =
    elim (Member-append o (offers_of_files b (in_bucket b (list_all c))) (shown (manifests_of bs c))
      m) [
        | inl here ↦
            let (e, listed, same) = Member-offers b o (in_bucket b (list_all c)) here in
            let (there, at) = Member-in_bucket b e (list_all c) listed in
            (e, there, same ∙ offer-own b e at)
        | inr later ↦ Member-shown bs c o later
      ]
