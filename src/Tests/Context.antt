-- ===== src/Tests/Context.antt =====
-- A wallet read for concrete intents.
use gally.Prelude.{refl, true, none, some, [], ◌∷◌, text}
use gally.Tx.Context.{
  OwnedObject, Reader, TxConfig, resolve_live_refs, find_in, find_owned, subject, add_owned,
  add_token, add_asset,
}
use gally.Tx.Context.Owned.{IsOwned, owned_type, resolve_live_refs-IsOwned}
use gally.Tests.Data.{claim}

abbrev other_deed : OwnedObject
other_deed = record {
  object_id = some (text "0x50");
  is_move_object = true;
  asset_id = some (text "0xa0");
}

abbrev own_deed : OwnedObject
own_deed = record {
  object_id = some (text "0x51");
  is_move_object = true;
  asset_id = some (text "0xa1");
}

abbrev pub reader : Reader
reader = record {
  get_asset = λ id. none;
  get_dispute = λ id. none;
  owned_objects = λ owner type. some (other_deed ∷ own_deed ∷ []);
  coins = λ owner type. none;
  object_type = λ id. none;
}

abbrev pub settings : TxConfig
settings = record {
  package_id = text "0x9";
  config_id = text "0xcf";
  usdc_type = text "0x2::usdc::USDC";
}

resolve_live_refs-IsOwned_example :
    IsOwned reader settings
      (text "0x5e")
      (owned_type reader settings claim)
      (text "0xa1")
      (text "0x51")
unfolding resolve_live_refs find_in find_owned subject add_owned add_token add_asset
resolve_live_refs-IsOwned_example =
    resolve_live_refs-IsOwned reader settings claim (text "0x5e") b'0' (text "xa1") (text "0x51")
      refl refl
