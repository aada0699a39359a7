-- ===== src/Tx/Context.antt =====
-- The references that the builders need: frontend-explorer/lib/tx/resolve.ts reads them from the
-- indexer and the wallet's RPC node, and buildCtx.ts and config.ts put the context together.
pub mod TokenType
pub mod Build
pub mod Owned
use gally.Prelude.{
  ℕ, zero, suc, ◌+◌, ◌-◌, Bool, true, false, not, Option, none, some, List, [], ◌∷◌, ◌++◌, ◌||◌,
  Text, text, text_eq, nonempty, trim, take, drop, leb, ◌==◌, ◌<|>◌, ◌otherwise◌, option_bind,
  option_map, if◌then◌else◌,
}
use gally.Domain.{Asset, Accumulator, Dispute}
use gally.Tx.Intents.{
  CrankKind, resolve_dispute, flag_default, abort_failed_raise, sweep_rollover, sweep_compensation,
  CrankIntent, TxIntent, contribute, claim_shares, refund, claim_rewards, split, wrap, unwrap,
  raise_dispute, crank,
}
use gally.Tx.Plan.{AssetCtx, OwnedRefs, BuildCtx}

-- `s.indexOf(c)` and `s.lastIndexOf(c)`, for one character; `none` is -1
abbrev index_of : ℕ → Text → Option ℕ
index_of c [] = none
index_of c (d ∷ s) = let rest = option_map suc (index_of c s) in if d == c then some 0 else rest

abbrev last_index_of : ℕ → Text → Option ℕ
last_index_of c [] = none
last_index_of c (d ∷ s) = option_map suc (last_index_of c s) <|> (if d == c then some 0 else none)

-- `s || undefined`
abbrev pub or_undefined : Text → Option Text
or_undefined [] = none
or_undefined (c ∷ s) = some (c ∷ s)

abbrev between : Text → Option ℕ → Option ℕ → Option Text
between t (some lt) (some gt) =
    if leb gt lt then none else or_undefined (trim (take (gt - (lt + 1)) (drop (lt + 1) t)))
between t _ _ = none

-- An absent type and an empty one both give nothing.
unfoldable pub token_type_from_accumulator_type : Text → Option Text
token_type_from_accumulator_type t = between t (index_of b'<' t) (last_index_of b'>' t)

-- An object that the wallet owns, as the node describes it: `asset_id` is that field of its content.
pub record OwnedObject : Type 0 where
  pub object_id : Option Text
  pub is_move_object : Bool
  pub asset_id : Option Text

-- The indexer and the node. `none` is an answer that there is no such thing, or a failed read.
pub record Reader : Type 0 where
  pub get_asset : Text → Option Asset
  pub get_dispute : Text → Option Dispute
  pub owned_objects : Text → Text → Option (List OwnedObject)
  pub coins : Text → Text → Option (List Text)
  pub object_type : Text → Option Text

-- The deployed package and its objects, from the environment.
pub record TxConfig : Type 0 where
  pub package_id : Text
  pub config_id : Text
  pub usdc_type : Text

-- `!assetId || String(f.asset_id ?? "") === assetId`
abbrev wanted : Option Text → OwnedObject → Bool
wanted none o = true
wanted (some []) o = true
wanted (some (c ∷ s)) o = text_eq (o.asset_id otherwise []) (c ∷ s)

unfoldable pub find_in : Option Text → List OwnedObject → Option Text
find_in asset [] = none
find_in asset (o ∷ os) =
    let rest = find_in asset os in
    if not o.is_move_object then rest else if wanted asset o then o.object_id else rest

pub record ResolvedRefs : Type 0 where
  pub asset_id : Option Text
  pub accumulator_id : Option Text
  pub validator_pool_id : Option Text
  pub token_type : Option Text
  pub receipt_id : Option Text
  pub share_id : Option Text
  pub coin_t_id : Option Text
  pub usdc_coin_id : Option Text
  pub dispute_id : Option Text

abbrev pub no_refs : ResolvedRefs
no_refs = record {
  asset_id = none;
  accumulator_id = none;
  validator_pool_id = none;
  token_type = none;
  receipt_id = none;
  share_id = none;
  coin_t_id = none;
  usdc_coin_id = none;
  dispute_id = none;
}

abbrev first : {A : Type 0} → List A → Option A
first [] = none
first (a ∷ rest) = some a

module _ (reader : Reader) (config : TxConfig) where
  abbrev receipt_type : Text
  receipt_type = config.package_id ++ text "::asset::ContributionReceipt"

  abbrev share_type : Text
  share_type = config.package_id ++ text "::share::GallyShare"

  unfoldable pub find_owned : Text → Text → Option Text → Option Text
  unfolding find_in
  find_owned owner type asset =
      option_bind (reader.owned_objects owner type) (λ os. find_in asset os)

  unfoldable pub first_coin : Text → Text → Option Text
  first_coin owner type =
      if nonempty type then option_bind (reader.coins owner type) (λ cs. first cs) else none

  unfoldable pub token_type_of_accumulator : Option Text → Option Text
  unfolding token_type_from_accumulator_type
  token_type_of_accumulator none = none
  token_type_of_accumulator (some acc) =
      if nonempty acc
      then option_bind (reader.object_type acc) token_type_from_accumulator_type
      else none

  -- the subject asset, and what the intent itself says
  abbrev crank_subject : CrankIntent → CrankKind → ResolvedRefs × Option Text
  crank_subject i resolve_dispute =
      let d = reader.get_dispute i.target_id in
      (
        record no_refs {
          dispute_id = some i.target_id;
          validator_pool_id = option_map (λ (x : Dispute). x.target_pool_id) d;
        },
        option_map (λ (x : Dispute). x.asset_id) d,
      )
  crank_subject i sweep_rollover = (record no_refs { accumulator_id = some i.target_id }, none)
  crank_subject i sweep_compensation = (record no_refs { accumulator_id = some i.target_id }, none)
  crank_subject i flag_default = (no_refs, some i.target_id)
  crank_subject i abort_failed_raise = (no_refs, some i.target_id)

  unfoldable pub subject : TxIntent → ResolvedRefs × Option Text
  subject (contribute i) = (no_refs, some i.asset_id)
  subject (claim_shares i) = (no_refs, some i.asset_id)
  subject (refund i) = (no_refs, some i.asset_id)
  subject (claim_rewards i) = (no_refs, some i.asset_id)
  subject (split i) = (no_refs, some i.asset_id)
  subject (wrap i) = (no_refs, some i.asset_id)
  subject (unwrap i) = (no_refs, some i.asset_id)
  subject (raise_dispute i) =
      (record no_refs { validator_pool_id = some i.pool_id }, some i.asset_id)
  subject (crank i) = crank_subject i i.crank

  abbrev from_asset : Option Asset → ResolvedRefs → ResolvedRefs
  from_asset none r = r
  from_asset (some a) r = record r {
    accumulator_id = r.accumulator_id <|> option_map (λ (x : Accumulator). x.id) a.accumulator;
    validator_pool_id = r.validator_pool_id <|> or_undefined a.validator_pool_id;
  }

  unfoldable pub add_asset : Option Text → ResolvedRefs → ResolvedRefs
  add_asset none r = r
  add_asset (some []) r = r
  add_asset (some (c ∷ s)) r =
      from_asset (reader.get_asset (c ∷ s)) (record r { asset_id = some (c ∷ s) })

  abbrev crank_needs_token : CrankKind → Bool
  crank_needs_token sweep_rollover = true
  crank_needs_token sweep_compensation = true
  crank_needs_token resolve_dispute = true
  crank_needs_token _ = false

  abbrev needs_token : TxIntent → Bool
  needs_token (claim_shares i) = true
  needs_token (claim_rewards i) = true
  needs_token (wrap i) = true
  needs_token (unwrap i) = true
  needs_token (raise_dispute i) = true
  needs_token (crank i) = crank_needs_token i.crank
  needs_token _ = false

  unfoldable pub add_token : TxIntent → ResolvedRefs → ResolvedRefs
  add_token i r =
      if needs_token i
      then record r { token_type = token_type_of_accumulator r.accumulator_id }
      else r

  unfoldable pub add_owned : TxIntent → Text → Option Text → ResolvedRefs → ResolvedRefs
  add_owned (contribute i) sender asset r = record r {
    usdc_coin_id = first_coin sender config.usdc_type;
  }
  add_owned (refund i) sender asset r = record r {
    receipt_id = find_owned sender receipt_type asset;
  }
  add_owned (claim_shares i) sender asset r = record r {
    receipt_id = find_owned sender receipt_type asset;
  }
  add_owned (claim_rewards i) sender asset r = record r {
    share_id = find_owned sender share_type asset;
  }
  add_owned (wrap i) sender asset r = record r { share_id = find_owned sender share_type asset }
  add_owned (split i) sender asset r = record r { share_id = find_owned sender share_type asset }
  add_owned (unwrap i) sender asset r = record r {
    coin_t_id = first_coin sender (r.token_type otherwise []);
  }
  add_owned (raise_dispute i) sender asset r = record r {
    usdc_coin_id = first_coin sender config.usdc_type;
  }
  add_owned (crank i) sender asset r = r

  unfoldable pub resolve_live_refs : TxIntent → Text → ResolvedRefs
  unfolding subject add_asset add_token add_owned
  resolve_live_refs i sender =
      let (r, asset) = subject i in add_owned i sender asset (add_token i (add_asset asset r))
