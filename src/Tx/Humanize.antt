-- ===== src/Tx/Humanize.antt =====
-- `humanizeError` of frontend-explorer/lib/tx/executorLive.ts: the regular expressions, and the
-- message that each of them gives.
use gally.Prelude.{
  ℕ, Bool, true, not, Option, none, some, [], ◌∷◌, ◌++◌, ◌&&◌, ◌||◌, Text, text, length, take, drop,
  starts_with, trim_start, any_end, contains, lower, ltb, leb, ◌==◌, ◌<|>◌, if◌then◌else◌,
}

abbrev is_digit : ℕ → Bool
is_digit c = leb b'0' c && leb c b'9'

-- `\d*`, and what follows
abbrev digits : Text → Text × Text
digits [] = ([], [])
digits (c ∷ s) = let (ds, rest) = digits s in if is_digit c then (c ∷ ds, rest) else ([], c ∷ s)

abbrev closed : Text → Text → Option Text
closed [] rest = none
closed (d ∷ ds) rest = if starts_with (trim_start rest) (text ")") then some (d ∷ ds) else none

-- `\s*(\d+)\s*\)` at the start of a text: the digits
abbrev code_at : Text → Option Text
code_at s = let (ds, rest) = digits (trim_start s) in closed ds rest

-- `[\s\S]*?,\s*(\d+)\s*\)`
abbrev find_code : Text → Option Text
find_code [] = none
find_code (c ∷ s) = (if c == b',' then code_at s else none) <|> find_code s

-- `/MoveAbort\([\s\S]*?,\s*(\d+)\s*\)/`
abbrev find_abort : Text → Option Text
find_abort [] = none
find_abort (c ∷ s) =
    (if starts_with (c ∷ s) (text "MoveAbort(") then find_code (drop 9 s) else none)
    <|> find_abort s

abbrev is_word : ℕ → Bool
is_word c = is_digit c || leb b'a' c && leb c b'z' || leb b'A' c && leb c b'Z' || c == b'_'

-- `\b` behind a word character
abbrev at_boundary : Text → Bool
at_boundary [] = true
at_boundary (c ∷ s) = not (is_word c)

-- `/MoveAbort|abort(ed)?\b/i`, on a text in lower case
abbrev mentions_abort : Text → Bool
mentions_abort = any_end λ t.
    starts_with t (text "moveabort")
    || starts_with t (text "aborted") && at_boundary (drop 7 t)
    || starts_with t (text "abort") && at_boundary (drop 5 t)

abbrev mentions_refusal : Text → Bool
mentions_refusal s =
    contains s (text "rejected")
    || contains s (text "denied")
    || contains s (text "canceled")
    || contains s (text "cancelled")

-- The tests after that for an abort code.
humanize_other : Text → Text
humanize_other msg =
    let l = lower msg in
    if mentions_abort l
    then text "Transaction aborted by the contract."
    else if mentions_refusal l
    then text "Transaction rejected in wallet."
    else if contains l (text "insufficient") || contains l (text "gas")
    then text "Insufficient balance or gas for this transaction."
    else if contains l (text "unresolved")
    then msg
    else if ltb 160 (length msg)
    then take 157 msg ++ text "…"
    else msg

unfoldable pub humanize_error : Text → Text
unfolding humanize_other
humanize_error msg = elim (find_abort msg) [
  | some code ↦ text "Transaction aborted by the contract (code " ++ code ++ text ")."
  | none ↦ humanize_other msg
]
