-- ===== src/Tests/Search.antt =====
-- A search of two records, and a name of an event.
use gally.Prelude.{◌≤◌, ◌≡◌, refl, [], ◌∷◌, text, length, lower, All, sort_by}
use gally.Docs.{DocSearchRecord, words, normal, rank_docs, score_term}
use gally.Docs.Ranking.{Matches, rank_docs-Matches}

abbrev wrapping : DocSearchRecord
wrapping = record {
  route = text "/docs/wrap";
  anchor = [];
  page_title = text "Tokens";
  part = text "Use";
  heading = text "Wrap deeds";
  body = text "A wrapped deed earns no yield";
  keywords = text "coin" ∷ [];
}

abbrev yields : DocSearchRecord
yields = record {
  route = text "/docs/yield";
  anchor = text "index";
  page_title = text "Yield";
  part = text "Understand";
  heading = text "Yield index";
  body = text "How deeds earn";
  keywords = [];
}

found : rank_docs lower (wrapping ∷ yields ∷ []) (text " Yield deed ") 24 ≡ yields ∷ wrapping ∷ []
unfolding rank_docs words score_term sort_by
found = refl

rank_docs-Matches_example :
    All
      (Matches lower (words (normal lower (text " Yield deed "))))
      (rank_docs lower (wrapping ∷ yields ∷ []) (text " Yield deed ") 24)
    × (length (rank_docs lower (wrapping ∷ yields ∷ []) (text " Yield deed ") 24) ≤ 24)
rank_docs-Matches_example =
    rank_docs-Matches lower (wrapping ∷ yields ∷ []) (text " Yield deed ") 24
