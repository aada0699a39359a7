-- ===== src/Docs.antt =====
-- frontend-explorer/lib/docs/search.ts: the ranking of documentation records. `to_lower` is
-- `toLowerCase`, which is up to the tables of Unicode.
pub mod Ranking
use gally.Prelude.{
  ℕ, suc, ◌+◌, Bool, true, false, ◌&&◌, ◌||◌, not, Option, none, some, List, [], ◌∷◌, ◌++◌, map,
  Text, text, text_eq, starts_with, contains, nonempty, is_space, trim, length, leb, take, sort_by,
  option_map, if◌then◌else◌, ◌==◌,
}

pub record DocSearchRecord : Type 0 where
  pub route : Text
  pub heading : Text
  pub page_title : Text
  pub part : Text
  pub body : Text
  pub keywords : List Text
  pub anchor : Text

-- The units of the needle occur in the text in this order.
abbrev pub is_subsequence : Text → Text → Bool
is_subsequence [] hay = true
is_subsequence (n ∷ ns) [] = false
is_subsequence (n ∷ ns) (h ∷ hay) =
    let found = is_subsequence ns hay in
    let later = is_subsequence (n ∷ ns) hay in if h == n then found else later

-- `keywords.join(" ")`
abbrev join_words : List Text → Text
join_words [] = []
join_words (w ∷ []) = w
join_words (w ∷ v ∷ ws) = w ++ text " " ++ join_words (v ∷ ws)

-- `q.split(/\s+/).filter(Boolean)`, from the word that is being read.
abbrev words_from : Text → Text → List Text
words_from word [] = if nonempty word then word ∷ [] else []
words_from word (c ∷ s) =
    let next = words_from [] s in
    let same = words_from (word ++ c ∷ []) s in
    if is_space c then (if nonempty word then word ∷ next else next) else same

unfoldable pub words : Text → List Text
words q = words_from [] q

pub record Hit : Type 0 where
  pub doc : DocSearchRecord
  pub score : ℕ

-- `b.s - a.s` does not put `a` after `b`.
abbrev pub better : Hit → Hit → Bool
better a b = leb b.score a.score

module _ (to_lower : Text → Text) where
  unfoldable pub score_term : Text → DocSearchRecord → ℕ
  score_term term r =
      let heading = to_lower r.heading in
      let kw = to_lower (join_words r.keywords) in
      let s =
        (if text_eq heading term
          then 12
          else if starts_with heading term
          then 9
          else if contains heading term
          then 6
          else 0)
        + (if contains kw term then 7 else 0)
        + (if contains (to_lower r.page_title) term then 4 else 0)
        + (if contains (to_lower r.body) term then 2 else 0) in
      if s == 0 && (leb 4 (length term) && (is_subsequence term heading || is_subsequence term kw))
      then 1
      else s

  -- The sum over the terms, or none where a term does not score.
  abbrev pub total_of : DocSearchRecord → List Text → Option ℕ
  total_of r [] = some 0
  total_of r (t ∷ ts) =
      let rest = total_of r ts in
      if score_term t r == 0 then none else option_map (λ n. score_term t r + n) rest

  -- The loop over the records; a section scores one more.
  abbrev hit : DocSearchRecord → Option ℕ → List Hit → List Hit
  hit r none rest = rest
  hit r (some total) rest =
      record { doc = r; score = (if nonempty r.anchor then total + 1 else total) } ∷ rest

  abbrev pub hits : List Text → List DocSearchRecord → List Hit
  hits terms [] = []
  hits terms (r ∷ rs) = hit r (total_of r terms) (hits terms rs)

  abbrev pub normal : Text → Text
  normal query = to_lower (trim query)

  unfoldable pub ranked : List DocSearchRecord → Text → ℕ → List Hit
  unfolding words
  ranked records query limit =
      if nonempty (normal query)
      then take limit (sort_by better (hits (words (normal query)) records))
      else []

  unfoldable pub rank_docs : List DocSearchRecord → Text → ℕ → List DocSearchRecord
  unfolding ranked
  rank_docs records query limit = map (λ (h : Hit). h.doc) (ranked records query limit)
