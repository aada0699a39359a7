-- ===== src/Data/Governance/Replay.antt =====
-- What the governance page shows is the outcome of replaying the events one by one.
use gally.Prelude.{
  ◌≡◌, refl, ap, sym, ◌∙◌, inl, inr, Bool, true, false, Option, none, some, List, [], ◌∷◌, Text,
  text_eq, text_eq→eq, text_eq_iff, arith, keep, last?, find?, option_map, ◌<|>◌, if◌then◌else◌,
  Bool-cases,
}
use gally.Data.Records.{WireGovEvent}
use gally.Data.Governance.{
  ParamValue, set_param, param_of, set_optional, fold_params, is_stop, is_resume, is_switch,
  stopped, governance_of,
}

-- The value that is shown for a parameter.
abbrev pub value_of : Text → List ParamValue → Option Text
value_of name config =
    option_map (λ (p : ParamValue). p.value) (find? (λ p. text_eq p.name name) config)

-- The value that an event sets a parameter to.
abbrev sets : Text → Option ParamValue → Option Text
sets name none = none
sets name (some p) = if text_eq p.name name then some p.value else none

-- The value in the last event that sets the parameter.
abbrev pub latest : Text → List WireGovEvent → Option Text
latest name [] = none
latest name (e ∷ es) = latest name es <|> sets name (param_of e)

-- The contract's switch: a stop sets it and a resumption clears it.
abbrev pub switched : Bool → List WireGovEvent → Bool
switched b [] = b
switched b (e ∷ es) = switched (if is_stop e then true else if is_resume e then false else b) es

-- Two different names are not both that of one parameter.
apart : (a b j : Text) → text_eq a b ≡ false → text_eq a j ≡ true → text_eq b j ≡ false
apart a b j e f = elim (Bool-cases (text_eq b j)) [
  | inl g ↦ absurd (cc (e, (text_eq_iff a b).1 (text_eq→eq a j f ∙ sym (text_eq→eq b j g))))
  | inr g ↦ g
]

value_of-set_param :
    (j : Text) (p : ParamValue) (c : List ParamValue)
    → value_of j (set_param p c) ≡ (if text_eq p.name j then some p.value else value_of j c)
value_of-set_param j p [] = ground arith
value_of-set_param j p (q ∷ qs) = elim (Bool-cases (text_eq q.name p.name)) [
  | inl e ↦ rw (e, text_eq→eq q.name p.name e) (ground arith)
  | inr e ↦
      let other = value_of-set_param j p qs in
      rw e (elim (Bool-cases (text_eq q.name j)) [
        | inl f ↦ rw (f, apart q.name p.name j e f) refl
        | inr f ↦ rw f other
      ])
]

value_of-set_optional :
    (j : Text) (o : Option ParamValue) (c : List ParamValue)
    → value_of j (set_optional o c) ≡ sets j o <|> value_of j c
value_of-set_optional j none c = refl
value_of-set_optional j (some p) c = value_of-set_param j p c ∙ ground arith

<|>_assoc : (a b c : Option Text) → (a <|> b) <|> c ≡ a <|> (b <|> c)
<|>_assoc none b c = refl
<|>_assoc (some x) b c = refl

none_after : (a : Option Text) → (a <|> none) ≡ a
none_after none = refl
none_after (some x) = refl

value_of-fold_params :
    (j : Text) (es : List WireGovEvent) (c : List ParamValue)
    → value_of j (fold_params es c) ≡ latest j es <|> value_of j c
value_of-fold_params j [] c = refl
value_of-fold_params j (e ∷ es) c =
    value_of-fold_params j es _
    ∙ ap (λ o. latest j es <|> o) (value_of-set_optional j (param_of e) c)
    ∙ sym (<|>_assoc (latest j es) (sets j (param_of e)) (value_of j c))

-- The switch after events that start with it on or off, from the last of those that move it.
abbrev after_last : Bool → Option WireGovEvent → Bool
after_last b none = b
after_last b (some e) = is_stop e

after_last-any :
    (b c : Bool) (e : WireGovEvent) (es : List WireGovEvent)
    → after_last b (last? (e ∷ es)) ≡ after_last c (last? (e ∷ es))
after_last-any b c e [] = refl
after_last-any b c e (f ∷ es) = after_last-any b c f es

after_last-cons :
    (b : Bool) (e : WireGovEvent) (es : List WireGovEvent)
    → after_last (is_stop e) (last? es) ≡ after_last b (last? (e ∷ es))
after_last-cons b e [] = refl
after_last-cons b e (f ∷ es) = after_last-any (is_stop e) b f es

after_last-switched :
    (b : Bool) (es : List WireGovEvent) → switched b es ≡ after_last b (last? (keep is_switch es))
after_last-switched b [] = refl
after_last-switched b (e ∷ es) =
    let moved = after_last-cons b e (keep is_switch es) in
    elim (Bool-cases (is_stop e)) [
      | inl s ↦ rw s (after_last-switched true es ∙ rw (sym s) moved)
      | inr s ↦ elim (Bool-cases (is_resume e)) [
        | inl r ↦ rw (s, r) (after_last-switched false es ∙ rw (sym s) moved)
        | inr r ↦ rw (s, r) (after_last-switched b es)
      ]
    ]

stopped-last : (o : Option WireGovEvent) → stopped o ≡ after_last false o
stopped-last none = refl
stopped-last (some e) = refl

-- The value shown for a parameter is that of the last event that sets it, and the protocol is shown
-- as paused exactly where a switch that a stop sets and a resumption clears is on after all events.
pub governance_of-replayed :
    (es : List WireGovEvent) (name : Text)
    → (value_of name (governance_of es).config ≡ latest name es)
      × ((governance_of es).paused ≡ switched false es)
unfolding governance_of
governance_of-replayed es name = (
  value_of-fold_params name es [] ∙ none_after (latest name es),
  stopped-last (last? (keep is_switch es)) ∙ sym (after_last-switched false es),
)
