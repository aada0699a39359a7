-- ===== src/Data/Live/Find/Resolved.antt =====
-- What the resolver and the search find.
use gally.Prelude.{
  ◌≡◌, refl, inl, inr, ◌≤◌, ◌<◌, ap, sym, ◌∙◌, ◌&&◌, ◌||◌, zero, suc, is_some, length,
  length-append, take, text_eq_refl, ℕ, Bool, true, false, Option, none, some, List, [], ◌∷◌, ◌++◌,
  Text, text, nonempty, trim, starts_with, any, arith, ◌<|>◌, option_map, if◌then◌else◌, Bool-cases,
}
use gally.Domain.{ObjectRef, ObjectKind}
use gally.Data.Client.{one}
use gally.Data.Live.{Server, asset_path}
use gally.Data.Live.Detail.{get_asset_by_acc_id}
use gally.Data.Live.Find.{
  asset_page, validator_page, dispute_page, token_page, tx_page, account_page, resolve_object,
  SearchResult, is_shown, with_ref, ref_result, listed_results, results_for, search_all,
}

-- Where the pages of a kind are.
abbrev page_of : ObjectKind → Text
page_of ObjectKind.asset = text "/assets/"
page_of ObjectKind.token = text "/tokens/"
page_of ObjectKind.validator = text "/validators/"
page_of ObjectKind.dispute = text "/disputes/"
page_of ObjectKind.account = text "/address/"
page_of ObjectKind.tx = text "/tx/"
page_of ObjectKind.config = text "/governance/"

-- The reference names the id and leads to its page.
abbrev pub IsOf : Text → Option ObjectRef → Type 0
IsOf id none = Unit
IsOf id (some r) = (r.id ≡ id) × (r.route ≡ page_of r.kind ++ id)

module _ {A B C D E : Type 0} (id : Text) (f : A → ObjectRef) (g : B → ObjectRef)
    (h : C → ObjectRef) (k : D → ObjectRef) (l : E → ObjectRef) where
  reads-IsOf :
      ((x : A) → IsOf id (some (f x)))
      → ((x : B) → IsOf id (some (g x)))
      → ((x : C) → IsOf id (some (h x)))
      → ((x : D) → IsOf id (some (k x)))
      → ((x : E) → IsOf id (some (l x)))
      → (a : Option A) (b : Option B) (c : Option C) (d : Option D) (e : Option E)
        (r : Option ObjectRef)
      → IsOf id r
      → IsOf id (
          option_map f a
          <|> option_map g b
          <|> option_map h c
          <|> option_map k d
          <|> option_map l e
          <|> r)
  reads-IsOf p q s t u (some a) b c d e r n = p a
  reads-IsOf p q s t u none (some b) c d e r n = q b
  reads-IsOf p q s t u none none (some c) d e r n = s c
  reads-IsOf p q s t u none none none (some d) e r n = t d
  reads-IsOf p q s t u none none none none (some e) r n = u e
  reads-IsOf p q s t u none none none none none r n = n

-- One of several reads answers, or the last resort does.
is_some-reads :
    {A B C D E F : Type 0} (f : A → F) (g : B → F) (h : C → F) (k : D → F) (l : E → F)
    (a : Option A) (b : Option B) (c : Option C) (d : Option D) (e : Option E) (r : Option F)
    → is_some (
        option_map f a
        <|> option_map g b
        <|> option_map h c
        <|> option_map k d
        <|> option_map l e
        <|> r)
      ≡ ((is_some a || is_some b || is_some c || is_some d || is_some e) || is_some r)
is_some-reads f g h k l (some a) b c d e r = refl
is_some-reads f g h k l none (some b) c d e r = refl
is_some-reads f g h k l none none (some c) d e r = refl
is_some-reads f g h k l none none none (some d) e r = refl
is_some-reads f g h k l none none none none (some e) r = refl
is_some-reads f g h k l none none none none none r = refl

account_page-lem :
    (id : Text)
    → IsOf id (account_page id) × (is_some (account_page id) ≡ starts_with id (text "0x"))
account_page-lem id = elim (Bool-cases (starts_with id (text "0x"))) [
  | inl e ↦ rw e ((refl, refl), refl)
  | inr e ↦ rw e (tt, refl)
]

any_append :
    {A : Type 0} (p : A → Bool) (xs ys : List A) → any p ys ≡ true → any p (xs ++ ys) ≡ true
any_append p [] ys h = h
any_append p (x ∷ xs) ys h = ground (arith, any_append p xs ys)

take_all : {A : Type 0} (n : ℕ) (xs : List A) → length xs ≤ n → take n xs ≡ xs
take_all zero [] h = refl
take_all zero (x ∷ xs) h = absurd (omega arith)
take_all (suc n) [] h = refl
take_all (suc n) (x ∷ xs) h = ap (λ ys. x ∷ ys) (take_all n xs (omega arith))

with_ref-lem :
    (r : ObjectRef) (out : List SearchResult)
    → (is_shown r.id (with_ref (some r) out) ≡ true)
      × (length (with_ref (some r) out) ≤ suc (length out))
with_ref-lem r out = elim (Bool-cases (is_shown r.id out)) [
  | inl e ↦ rw e (e, omega arith)
  | inr e ↦
      let last = ref_result r in
      let own : is_shown r.id (last ∷ []) ≡ true = rw (text_eq_refl r.id) refl in
      rw e (any_append _ out (last ∷ []) own, omega (arith, length-append out (last ∷ [])))
]

either : (b : Bool) → (b || true) ≡ true
either true = refl
either false = refl

module _ (server : Server) where
  -- Some read of the indexer answers for the id.
  abbrev pub is_known : Text → Bool
  is_known id =
      is_some (one server.asset (asset_path id []))
      || is_some (one server.validator (text "/validators/" ++ id))
      || is_some (one server.dispute (text "/disputes/" ++ id))
      || is_some (get_asset_by_acc_id server id)
      || is_some (one server.tx (text "/tx/" ++ id))

  -- An id that is resolved leads to a page of that very id, and an id is resolved exactly where it is
  -- not empty and some read of the indexer answers for it or it begins with 0x.
  pub resolve_object-IsOf :
      (id : Text)
      → IsOf id (resolve_object server id)
        × (is_some (resolve_object server id)
            ≡ (nonempty id && (is_known id || starts_with id (text "0x"))))
  unfolding resolve_object
  resolve_object-IsOf [] = (tt, refl)
  resolve_object-IsOf (c ∷ s) =
      let id = c ∷ s in
      let answered =
        is_some-reads (asset_page id) (validator_page id) (dispute_page id) (token_page id)
          (tx_page id) (one server.asset (asset_path id []))
          (one server.validator (text "/validators/" ++ id))
          (one server.dispute (text "/disputes/" ++ id)) (get_asset_by_acc_id server id)
          (one server.tx (text "/tx/" ++ id)) (account_page id) in
      let leads =
        reads-IsOf id (asset_page id) (validator_page id) (dispute_page id) (token_page id)
          (tx_page id) (λ x. (refl, refl)) (λ x. (refl, refl)) (λ x. (refl, refl))
          (λ x. (refl, refl)) (λ x. (refl, refl)) (one server.asset (asset_path id []))
          (one server.validator (text "/validators/" ++ id))
          (one server.dispute (text "/disputes/" ++ id)) (get_asset_by_acc_id server id)
          (one server.tx (text "/tx/" ++ id)) (account_page id) (account_page-lem id).0 in
      (leads, answered ∙ ap (λ b. is_known id || b) (account_page-lem id).1)

  module _ (q : Text) (out : List SearchResult) (limit : ℕ) (few : length out < limit) where
    taken :
        (o : Option ObjectRef)
        → IsOf q o
        → is_some o ≡ true
        → is_shown q (take limit (with_ref o out)) ≡ true
    taken none n h = absurd (cc)
    taken (some r) n h =
        let (shown, short) = with_ref-lem r out in
        rw (take_all limit (with_ref (some r) out) (omega arith)) (rw (sym n.0) shown)

  found :
      (encode : Text → Text) (clock : ℕ) (q : Text) (limit : ℕ)
      → starts_with q (text "0x") ≡ true
      → length (listed_results server encode clock q) < limit
      → is_shown q (if nonempty q then take limit (results_for server encode clock q) else [])
        ≡ true
  found encode clock [] limit h few = absurd (cc)
  found encode clock (c ∷ s) limit h few =
      let q = c ∷ s in
      let (leads, answered) = resolve_object-IsOf q in
      let known : is_some (resolve_object server q) ≡ true =
        answered ∙ rw h (either (is_known q)) in
      rw h (
        taken q (listed_results server encode clock q) limit few (resolve_object server q) leads
          known)

  -- An id that begins with 0x and is searched for is among the results, where the others are fewer
  -- than the limit.
  pub search_all-exact :
      (encode : Text → Text) (clock : ℕ) (query : Text) (limit : ℕ)
      → starts_with (trim query) (text "0x") ≡ true
      → length (listed_results server encode clock (trim query)) < limit
      → is_shown (trim query) (search_all server encode clock query limit) ≡ true
  unfolding search_all
  search_all-exact encode clock query limit h few = found encode clock (trim query) limit h few
