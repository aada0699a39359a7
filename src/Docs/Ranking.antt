-- ===== src/Docs/Ranking.antt =====
-- What a search of the documentation returns.
use gally.Prelude.{
  ℕ, zero, suc, ◌+◌, ◌≤◌, ◌<◌, ◌≡◌, refl, ap, inl, inr, Bool, true, some, List, [], ◌∷◌, map, Text,
  arith, length, length-take, take, All, leb, sort_by, sort_by-All, sort_by-IsSorted, IsSorted,
  IsOrder, nonempty, Bool-cases, Option-cases, if◌then◌else◌, ◌==◌, ◌otherwise◌, sym, ◌∙◌,
}
use gally.Docs.{
  DocSearchRecord, Hit, better, words, score_term, total_of, hits, normal, ranked, rank_docs,
}

All-take : {A : Type 0} (P : A → Type 0) (n : ℕ) (xs : List A) → All P xs → All P (take n xs)
All-take P zero xs h = tt
All-take P (suc n) [] h = tt
All-take P (suc n) (x ∷ xs) h = (h.0, All-take P n xs h.1)

better-IsOrder : IsOrder better
better-IsOrder = record { total = λ a b h. ground arith; trans = λ a b c h k. ground arith }

take-IsSorted : (n : ℕ) (hs : List Hit) → IsSorted better hs → IsSorted better (take n hs)
take-IsSorted zero hs h = tt
take-IsSorted (suc n) [] h = tt
take-IsSorted (suc n) (x ∷ hs) h =
    (All-take (λ y. better x y ≡ true) n hs h.0, take-IsSorted n hs h.1)

module _ (to_lower : Text → Text) where
  -- Each term scores in the record.
  abbrev pub Matches : List Text → DocSearchRecord → Type 0
  Matches terms r = All (λ t. 0 < score_term to_lower t r) terms

  total_of-Matches :
      (r : DocSearchRecord) (terms : List Text) (n : ℕ)
      → total_of to_lower r terms ≡ some n
      → Matches terms r
  total_of-Matches r [] n h = tt
  total_of-Matches r (t ∷ ts) n h = elim (Bool-cases (score_term to_lower t r == 0)) [
    | inl e ↦ absurd (ground arith)
    | inr e ↦ elim (Option-cases (total_of to_lower r ts)) [
      | inl f ↦ absurd (ground arith)
      | inr (m, f) ↦ (ground arith, total_of-Matches r ts m f)
    ]
  ]

  hits-Matches :
      (terms : List Text) (rs : List DocSearchRecord)
      → All (λ (h : Hit). Matches terms h.doc) (hits to_lower terms rs)
  hits-Matches terms [] = tt
  hits-Matches terms (r ∷ rs) = elim (Option-cases (total_of to_lower r terms)) [
    | inl e ↦ rw (e, hits) (hits-Matches terms rs)
    | inr (n, e) ↦ rw (e, hits) (total_of-Matches r terms n e, hits-Matches terms rs)
  ]

  ranked-Matches :
      (records : List DocSearchRecord) (query : Text) (limit : ℕ)
      → All
          (λ (h : Hit). Matches (words (normal to_lower query)) h.doc)
          (ranked to_lower records query limit)
  unfolding ranked
  ranked-Matches records query limit = elim (Bool-cases (nonempty (normal to_lower query))) [
    | inl e ↦ rw e (
        All-take _ limit _
          (sort_by-All better _ _ (hits-Matches (words (normal to_lower query)) records)))
    | inr e ↦ rw e tt
  ]

  ranked-length :
      (records : List DocSearchRecord) (query : Text) (limit : ℕ)
      → length (ranked to_lower records query limit) ≤ limit
  unfolding ranked
  ranked-length records query limit =
      let found = sort_by better (hits to_lower (words (normal to_lower query)) records) in
      elim (Bool-cases (nonempty (normal to_lower query))) [
        | inl e ↦ rw e (omega (arith, length-take {0} limit found))
        | inr e ↦ rw e (omega arith)
      ]

  docs-Matches :
      (terms : List Text) (hs : List Hit)
      → All (λ (h : Hit). Matches terms h.doc) hs
      → All (Matches terms) (map (λ (h : Hit). h.doc) hs)
  docs-Matches terms [] h = tt
  docs-Matches terms (x ∷ hs) h = (h.0, docs-Matches terms hs h.1)

  docs-length : (hs : List Hit) → length (map (λ (h : Hit). h.doc) hs) ≡ length hs
  docs-length [] = refl
  docs-length (x ∷ hs) = ap suc (docs-length hs)

  -- Whatever lower case is, a search returns at most as many records as it is limited to, and in each
  -- of them every word of the query scores.
  pub rank_docs-Matches :
      (records : List DocSearchRecord) (query : Text) (limit : ℕ)
      → All (Matches (words (normal to_lower query))) (rank_docs to_lower records query limit)
        × (length (rank_docs to_lower records query limit) ≤ limit)
  unfolding rank_docs
  rank_docs-Matches records query limit =
      let found = ranked to_lower records query limit in
      (
        docs-Matches (words (normal to_lower query)) found (ranked-Matches records query limit),
        omega (arith, docs-length found, ranked-length records query limit),
      )

  -- The score of a record for some terms: the sum over the terms, and one more for a section.
  abbrev pub value : List Text → DocSearchRecord → ℕ
  value terms r = (total_of to_lower r terms otherwise 0) + (if nonempty r.anchor then 1 else 0)

  abbrev Scored : List Text → Hit → Type 0
  Scored terms h = h.score ≡ value terms h.doc

  hits-Scored :
      (terms : List Text) (rs : List DocSearchRecord) → All (Scored terms) (hits to_lower terms rs)
  hits-Scored terms [] = tt
  hits-Scored terms (r ∷ rs) = elim (Option-cases (total_of to_lower r terms)) [
    | inl e ↦ rw (e, hits) (hits-Scored terms rs)
    | inr (n, e) ↦
        let same : (if nonempty r.anchor then n + 1 else n) ≡ value terms r = ground arith in
        rw (e, hits) (same, hits-Scored terms rs)
  ]

  abbrev pub no_worse : List Text → DocSearchRecord → DocSearchRecord → Bool
  no_worse terms a b = leb (value terms b) (value terms a)

  below_docs :
      (terms : List Text) (x : Hit) (hs : List Hit)
      → Scored terms x
      → All (Scored terms) hs
      → All (λ y. better x y ≡ true) hs
      → All (λ y. no_worse terms x.doc y ≡ true) (map (λ (h : Hit). h.doc) hs)
  below_docs terms x [] s ss b = tt
  below_docs terms x (y ∷ hs) s ss b =
      let le : no_worse terms x.doc y.doc ≡ better x y =
        sym (ap (λ n. leb n (value terms x.doc)) (ss.0)) ∙ sym (ap (leb y.score) s) in
      (le ∙ b.0, below_docs terms x hs s ss.1 b.1)

  docs-IsSorted :
      (terms : List Text) (hs : List Hit)
      → All (Scored terms) hs
      → IsSorted better hs
      → IsSorted (no_worse terms) (map (λ (h : Hit). h.doc) hs)
  docs-IsSorted terms [] ss o = tt
  docs-IsSorted terms (x ∷ hs) ss o =
      (below_docs terms x hs ss.0 ss.1 o.0, docs-IsSorted terms hs ss.1 o.1)

  -- The records come in the order of their scores for the words of the query, the highest first.
  rank_docs-IsSorted :
      (records : List DocSearchRecord) (query : Text) (limit : ℕ)
      → IsSorted (no_worse (words (normal to_lower query))) (rank_docs to_lower records query limit)
  unfolding rank_docs ranked
  rank_docs-IsSorted records query limit =
      let terms = words (normal to_lower query) in
      let all = hits to_lower terms records in
      elim (Bool-cases (nonempty (normal to_lower query))) [
        | inl e ↦ rw e (
            docs-IsSorted terms (take limit (sort_by better all))
              (All-take (Scored terms) limit (sort_by better all)
                (sort_by-All better (Scored terms) all (hits-Scored terms records)))
              (take-IsSorted limit (sort_by better all)
                (sort_by-IsSorted better better-IsOrder all)))
        | inr e ↦ rw e tt
      ]
