-- ===== src/Tx/Intents/Keys.antt =====
-- What the keys of the optimistic store tell apart: the verb and the object that it acts on.
use gally.Prelude.{
  ◌++◌, ◌≡◌, refl, ap, ◌↔◌, ◌∙◌, sym, Option, some, Text, text, starts_with, drop, if◌then◌else◌,
}
use gally.Tx.Intents.{
  CrankKind, resolve_dispute, flag_default, abort_failed_raise, sweep_rollover, sweep_compensation,
  crank_name, TxIntent, contribute, claim_shares, refund, claim_rewards, split, wrap, unwrap,
  raise_dispute, crank, optimistic_key,
}

-- What an intent does, without the object, the amount and the display fields.
pub data Action : Type 0 where
  buy deeds sell yield split_deed to_coin to_deed challenge : Action
  keeper : CrankKind → Action

abbrev pub action_of : TxIntent → Action
action_of (contribute i) = buy
action_of (claim_shares i) = deeds
action_of (refund i) = sell
action_of (claim_rewards i) = yield
action_of (split i) = split_deed
action_of (wrap i) = to_coin
action_of (unwrap i) = to_deed
action_of (raise_dispute i) = challenge
action_of (crank i) = keeper i.crank

-- The object: an asset, a validator pool, or what a crank runs on.
abbrev pub subject_of : TxIntent → Text
subject_of (contribute i) = i.asset_id
subject_of (claim_shares i) = i.asset_id
subject_of (refund i) = i.asset_id
subject_of (claim_rewards i) = i.asset_id
subject_of (split i) = i.asset_id
subject_of (wrap i) = i.asset_id
subject_of (unwrap i) = i.asset_id
subject_of (raise_dispute i) = i.pool_id
subject_of (crank i) = i.target_id

decode_crank : Text → Option (Action × Text)
decode_crank s =
    if starts_with s (text "resolve_dispute:")
    then some (keeper resolve_dispute, drop 16 s)
    else if starts_with s (text "flag_default:")
    then some (keeper flag_default, drop 13 s)
    else if starts_with s (text "abort_failed_raise:")
    then some (keeper abort_failed_raise, drop 19 s)
    else if starts_with s (text "sweep_rollover:")
    then some (keeper sweep_rollover, drop 15 s)
    else some (keeper sweep_compensation, drop 19 s)

-- The key read back.
decode : Text → Option (Action × Text)
unfolding decode_crank
decode s =
    if starts_with s (text "contribute:")
    then some (buy, drop 11 s)
    else if starts_with s (text "claim:")
    then some (yield, drop 6 s)
    else if starts_with s (text "claim_shares:")
    then some (deeds, drop 13 s)
    else if starts_with s (text "refund:")
    then some (sell, drop 7 s)
    else if starts_with s (text "wrap:")
    then some (to_coin, drop 5 s)
    else if starts_with s (text "unwrap:")
    then some (to_deed, drop 7 s)
    else if starts_with s (text "split:")
    then some (split_deed, drop 6 s)
    else if starts_with s (text "dispute:")
    then some (challenge, drop 8 s)
    else decode_crank (drop 6 s)

decode_crank_lem :
    (k : CrankKind) (t : Text) → decode_crank (crank_name k ++ text ":" ++ t) ≡ some (keeper k, t)
unfolding decode_crank
decode_crank_lem resolve_dispute t = refl
decode_crank_lem flag_default t = refl
decode_crank_lem abort_failed_raise t = refl
decode_crank_lem sweep_rollover t = refl
decode_crank_lem sweep_compensation t = refl

decode-optimistic_key :
    (i : TxIntent) → decode (optimistic_key i) ≡ some (action_of i, subject_of i)
unfolding decode optimistic_key
decode-optimistic_key (crank i) = decode_crank_lem i.crank i.target_id
decode-optimistic_key (contribute i) = refl
decode-optimistic_key _ = refl

-- The key written from the action and the object alone.
encode : Action × Text → Text
encode (buy, t) = text "contribute:" ++ t
encode (deeds, t) = text "claim_shares:" ++ t
encode (sell, t) = text "refund:" ++ t
encode (yield, t) = text "claim:" ++ t
encode (split_deed, t) = text "split:" ++ t
encode (to_coin, t) = text "wrap:" ++ t
encode (to_deed, t) = text "unwrap:" ++ t
encode (challenge, t) = text "dispute:" ++ t
encode (keeper k, t) = text "crank:" ++ crank_name k ++ text ":" ++ t

encode-action : (i : TxIntent) → optimistic_key i ≡ encode (action_of i, subject_of i)
unfolding encode optimistic_key
encode-action (crank i) = refl
encode-action _ = refl

some_eq : {a b : Action × Text} → some a ≡ some b → a ≡ b
some_eq h = cc

-- Two intents have one key exactly when they do the same thing (the same crank, for cranks) to the
-- same object: the asset, the validator pool of a dispute, or the target of a crank.
pub optimistic_key_iff :
    (i j : TxIntent)
    → (optimistic_key i ≡ optimistic_key j)
      ↔ (◌≡◌ {A = Action × Text} (action_of i, subject_of i) (action_of j, subject_of j))
optimistic_key_iff i j = (
  λ e. some_eq (sym (decode-optimistic_key i) ∙ ap decode e ∙ decode-optimistic_key j),
  λ e. encode-action i ∙ ap encode e ∙ sym (encode-action j),
)
