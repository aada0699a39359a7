-- ===== src/Tx/Context/Owned.antt =====
-- Where the owned objects of a resolved context come from.
use gally.Prelude.{
  ℕ, ◌≡◌, refl, inl, inr, true, Option, none, some, List, [], ◌∷◌, Text, text_eq, text_eq→eq, In,
  arith, ◌otherwise◌, Bool-cases, Option-cases, ap,
}
use gally.Tx.Intents.{TxIntent, claim_rewards, wrap, split, refund, claim_shares}
use gally.Tx.Context.{
  OwnedObject, Reader, TxConfig, ResolvedRefs, find_in, find_owned, share_type, receipt_type,
  resolve_live_refs,
}

-- The object found in a list is one of it: an object of the contract, of the asset where one is named.
abbrev FoundIn : Text → List OwnedObject → Text → Type 0
FoundIn asset os id =
    (o : OwnedObject) × In o os
    × (o.object_id ≡ some id)
    × (o.is_move_object ≡ true)
    × (o.asset_id ≡ some asset)

asset_named :
    (a : Option Text) (c : ℕ) (s : Text)
    → text_eq (a otherwise []) (c ∷ s) ≡ true
    → a ≡ some (c ∷ s)
asset_named none c s h = absurd (cc)
asset_named (some t) c s h = ap some (text_eq→eq t (c ∷ s) h)

found_later :
    (asset : Text) (o : OwnedObject) (os : List OwnedObject) (id : Text)
    → FoundIn asset os id
    → FoundIn asset (o ∷ os) id
found_later asset o os id (x, m, a, b, d) = (x, inr m, a, b, d)

find_in-FoundIn :
    (c : ℕ) (s : Text) (os : List OwnedObject) (id : Text)
    → find_in (some (c ∷ s)) os ≡ some id
    → FoundIn (c ∷ s) os id
unfolding find_in
find_in-FoundIn c s [] id h = absurd (cc)
find_in-FoundIn c s (o ∷ os) id h = elim (Bool-cases o.is_move_object) [
  | inl m ↦ elim (Bool-cases (text_eq (o.asset_id otherwise []) (c ∷ s))) [
    | inl w ↦ (o, inl refl, ground arith, m, asset_named o.asset_id c s w)
    | inr w ↦ found_later (c ∷ s) o os id (find_in-FoundIn c s os id (ground arith))
  ]
  | inr m ↦ found_later (c ∷ s) o os id (find_in-FoundIn c s os id (ground arith))
]

-- The asset of the verbs that use an object of the wallet, and the reference to that object: a share
-- or a receipt.
abbrev owned_asset : TxIntent → Option Text
owned_asset (claim_rewards i) = some i.asset_id
owned_asset (wrap i) = some i.asset_id
owned_asset (split i) = some i.asset_id
owned_asset (refund i) = some i.asset_id
owned_asset (claim_shares i) = some i.asset_id
owned_asset _ = none

abbrev owned_ref : TxIntent → ResolvedRefs → Option Text
owned_ref (refund i) r = r.receipt_id
owned_ref (claim_shares i) r = r.receipt_id
owned_ref _ r = r.share_id

module _ (reader : Reader) (config : TxConfig) where
  abbrev pub owned_type : TxIntent → Text
  owned_type (refund i) = receipt_type reader config
  owned_type (claim_shares i) = receipt_type reader config
  owned_type _ = share_type reader config

  -- The object belongs to the sender, has the type, and is of the asset.
  abbrev pub IsOwned : Text → Text → Text → Text → Type 0
  IsOwned sender type asset id =
      (os : List OwnedObject) × (reader.owned_objects sender type ≡ some os) × FoundIn asset os id

  find_owned-IsOwned :
      (sender type : Text) (c : ℕ) (s id : Text)
      → find_owned reader config sender type (some (c ∷ s)) ≡ some id
      → IsOwned sender type (c ∷ s) id
  unfolding find_owned
  find_owned-IsOwned sender type c s id h = elim (Option-cases (reader.owned_objects sender type)) [
    | inl e ↦ absurd (ground arith)
    | inr (os, e) ↦ (os, e, find_in-FoundIn c s os id (ground arith))
  ]

  -- A resolved deed or receipt is never another asset's: it is a contract object of the right type
  -- that the sender owns and that names the asset of the intent, where that id is not empty.
  pub resolve_live_refs-IsOwned :
      (i : TxIntent) (sender : Text) (c : ℕ) (s id : Text)
      → owned_asset i ≡ some (c ∷ s)
      → owned_ref i (resolve_live_refs reader config i sender) ≡ some id
      → IsOwned sender (owned_type i) (c ∷ s) id
  unfolding resolve_live_refs
  resolve_live_refs-IsOwned (claim_rewards i) sender c s id h k =
      let e : i.asset_id ≡ c ∷ s = cc in
      find_owned-IsOwned sender (share_type reader config) c s id (rw e at k)
  resolve_live_refs-IsOwned (wrap i) sender c s id h k =
      let e : i.asset_id ≡ c ∷ s = cc in
      find_owned-IsOwned sender (share_type reader config) c s id (rw e at k)
  resolve_live_refs-IsOwned (split i) sender c s id h k =
      let e : i.asset_id ≡ c ∷ s = cc in
      find_owned-IsOwned sender (share_type reader config) c s id (rw e at k)
  resolve_live_refs-IsOwned (refund i) sender c s id h k =
      let e : i.asset_id ≡ c ∷ s = cc in
      find_owned-IsOwned sender (receipt_type reader config) c s id (rw e at k)
  resolve_live_refs-IsOwned (claim_shares i) sender c s id h k =
      let e : i.asset_id ≡ c ∷ s = cc in
      find_owned-IsOwned sender (receipt_type reader config) c s id (rw e at k)
  resolve_live_refs-IsOwned _ sender c s id h k = absurd (cc)
