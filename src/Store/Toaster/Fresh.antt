-- ===== src/Store/Toaster/Fresh.antt =====
-- What is shown.
use gally.Prelude.{
  ℕ, zero, suc, text_eq, ◌≡◌, ◌≤◌, refl, ◌∙◌, true, false, not, Option, some, List, [], ◌∷◌, ◌++◌,
  keep, map, take, length, length-take, length-keep, Text, includes, All, All-keep, All-append,
  arith, Bool-cases, inl, inr,
}
use gally.Store.Local.{add_all, includes-add_all}
use gally.Store.Notifications.{AppNotification}
use gally.Store.Toaster.{
  Toaster, mounted, is_outcome, id_of, is_fresh, show_fresh, after_seen, watch, dismiss, Step,
  watches, closes, ends, Reach, here, next,
}

-- An outcome whose id was not in the bell at first.
abbrev pub IsNew : List AppNotification → AppNotification → Type 0
IsNew items n = (is_outcome n ≡ true) × (includes (map id_of items) n.id ≡ false)

-- The ids of the bell at first are known, and the toasts are new and four at most.
pub record IsQuiet (items : List AppNotification) (t : Toaster) : Type 0 where
  pub known : List Text
  pub seen : t.seen ≡ some known
  pub covers : (j : Text) → includes (map id_of items) j ≡ true → includes known j ≡ true
  pub fresh : All (IsNew items) t.toasts
  pub few : length t.toasts ≤ 4

All-take {κ} : {A : Type 0} (P : A → Type κ) (n : ℕ) (xs : List A) → All P xs → All P (take n xs)
All-take P zero xs h = tt
All-take P (suc n) [] h = tt
All-take P (suc n) (x ∷ xs) h = (h.0, All-take P n xs h.1)

new-fresh :
    (items : List AppNotification) (known : List Text)
    → ((j : Text) → includes (map id_of items) j ≡ true → includes known j ≡ true)
    → (xs : List AppNotification) → All (IsNew items) (keep (is_fresh known) xs)
new-fresh items known covers [] = tt
new-fresh items known covers (x ∷ xs) =
    let rest = new-fresh items known covers xs in
    elim (Bool-cases (is_fresh known x)) [
      | inl e ↦ rw e ((ground (arith, covers x.id), ground (arith, covers x.id)), rest)
      | inr e ↦ rw e rest
    ]

show_fresh-IsQuiet :
    (items fresh : List AppNotification) (t : Toaster) (q : IsQuiet items t)
    → All (IsNew items) fresh
    → IsQuiet items (show_fresh fresh q.known t)
show_fresh-IsQuiet items [] t q h = q
show_fresh-IsQuiet items (n ∷ ns) t q h = record {
  known = add_all (map id_of (n ∷ ns)) q.known;
  seen = refl;
  covers = λ j m. includes-add_all (map id_of (n ∷ ns)) q.known j ∙ rw (q.covers j m) refl;
  fresh =
      All-take (IsNew items) 4 ((n ∷ ns) ++ t.toasts)
        (All-append (IsNew items) (n ∷ ns) t.toasts h q.fresh);
  few = omega (arith, length-take 4 ((n ∷ ns) ++ t.toasts));
}

after_seen-IsQuiet :
    (items new : List AppNotification) (o : Option (List Text)) (t : Toaster) (q : IsQuiet items t)
    → o ≡ some q.known
    → IsQuiet items (after_seen new o t)
after_seen-IsQuiet items new o t q e = rw e (
    show_fresh-IsQuiet items (keep (is_fresh q.known) new) t q
      (new-fresh items q.known q.covers new))

Step-IsQuiet :
    (items : List AppNotification) {t u : Toaster} → IsQuiet items t → Step t u → IsQuiet items u
unfolding watch dismiss
Step-IsQuiet items q (watches new t) = after_seen-IsQuiet items new t.seen t q q.seen
Step-IsQuiet items q (closes id t m) = record {
  known = q.known;
  seen = q.seen;
  covers = q.covers;
  fresh = All-keep (IsNew items) _ t.toasts q.fresh;
  few = omega (arith, length-keep (λ n. not (text_eq n.id id)) t.toasts, q.few);
}
Step-IsQuiet items q (ends id before after t e) = record {
  known = q.known;
  seen = q.seen;
  covers = q.covers;
  fresh = All-keep (IsNew items) _ t.toasts q.fresh;
  few = omega (arith, length-keep (λ n. not (text_eq n.id id)) t.toasts, q.few);
}

Reach-IsQuiet :
    (items : List AppNotification) {a t : Toaster} → IsQuiet items a → Reach a t → IsQuiet items t
Reach-IsQuiet items q (here t) = q
Reach-IsQuiet items q (next r s) = Step-IsQuiet items (Reach-IsQuiet items q r) s

-- Whatever happens after the bell was seen at first: what is shown are four outcomes at most, none of
-- which was in it.
pub Reach-IsNew :
    (items : List AppNotification) (t : Toaster)
    → Reach (watch items mounted) t
    → (length t.toasts ≤ 4) × All (IsNew items) t.toasts
unfolding watch
Reach-IsNew items t r =
    let start : IsQuiet items (watch items mounted) = record {
      known = map id_of items;
      seen = refl;
      covers = λ j m. m;
      fresh = tt;
      few = omega arith;
    } in
    let q = Reach-IsQuiet items start r in (q.few, q.fresh)
