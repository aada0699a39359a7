-- ===== src/Tx/Transaction.antt =====
-- `hexBytes` and `planToTransaction` of frontend-explorer/lib/tx/ptb.ts. The transaction that the
-- SDK builds is the list of the calls that the code makes on it.
pub mod Hex
pub mod Order
pub mod Scope
use gally.Prelude.{
  ℕ, suc, ◌+◌, ◌-◌, ◌*◌, ◌/◌, ◌%◌, Bool, true, false, Option, none, some, List, [], ◌∷◌, ◌++◌, map,
  ◌&&◌, ◌||◌, Text, text, trim_start, length, starts_with, drop, ltb, leb, ◌==◌, if◌then◌else◌,
  option_bind, option_map,
}
use gally.Prelude.Int.{ℤ, pos, sub_ℕ}
use gally.Tx.Plan.{
  BuildCtx, PlanArg, shared, owned, clock, pure_u64, pure_bytes, coin, result, CoinType, usdc,
  token, Encoding, utf8, hex, MoveCallPlan, TxPlan, Built, built, build_error, need, ◌>>=◌,
}

abbrev hex_value : ℕ → Option ℕ
hex_value c =
    if leb b'0' c && leb c b'9'
    then some (c - b'0')
    else if leb b'a' c && leb c b'f'
    then some (c - 87)
    else if leb b'A' c && leb c b'F'
    then some (c - 55)
    else none

-- The digits up to the first that is none; `none` where there is none.
abbrev digits_from : ℕ → Text → ℕ
digits_from n [] = n
digits_from n (c ∷ s) = elim (hex_value c) [ none ↦ n | some d ↦ digits_from (16 * n + d) s ]

abbrev leading_digits : Text → Option ℕ
leading_digits [] = none
leading_digits (c ∷ s) = option_map (λ d. digits_from d s) (hex_value c)

abbrev drop_0x : Text → Text
drop_0x s = if starts_with s (text "0x") || starts_with s (text "0X") then drop 2 s else s

abbrev parse_signed : Text → Option ℤ
parse_signed [] = none
parse_signed (c ∷ s) =
    if c == b'-'
    then option_map (λ n. sub_ℕ 0 n) (leading_digits (drop_0x s))
    else if c == b'+'
    then option_map pos (leading_digits (drop_0x s))
    else option_map pos (leading_digits (drop_0x (c ∷ s)))

-- `parseInt(s, 16)`, where `none` is NaN
unfoldable pub parse_int16 : Text → Option ℤ
parse_int16 s = parse_signed (trim_start s)

-- the loop over pairs of digits, of a text of even length
pairs : Text → List (Option ℤ)
unfolding parse_int16
pairs (a ∷ b ∷ s) = parse_int16 (a ∷ b ∷ []) ∷ pairs s
pairs (a ∷ []) = parse_int16 (a ∷ []) ∷ []
pairs [] = []

abbrev without_0x : Text → Text
without_0x s = if starts_with s (text "0x") then drop 2 s else s

abbrev padded : Text → Text
padded h = if length h % 2 == 0 then h else text "0" ++ h

unfoldable pub hex_bytes : Text → List (Option ℤ)
unfolding pairs
hex_bytes s = pairs (padded (without_0x s))

-- `TextEncoder.encode`: UTF-8 of UTF-16 code units, a lone surrogate as U+FFFD
abbrev is_high : ℕ → Bool
is_high c = leb 0xd800 c && leb c 0xdbff

abbrev is_low : ℕ → Bool
is_low c = leb 0xdc00 c && leb c 0xdfff

abbrev encode_unit : ℕ → List ℕ
encode_unit c =
    if ltb c 0x80
    then c ∷ []
    else if ltb c 0x800
    then (0xc0 + c / 64) ∷ (0x80 + c % 64) ∷ []
    else if is_high c || is_low c
    then 0xef ∷ 0xbf ∷ 0xbd ∷ []
    else (0xe0 + c / 4096) ∷ (0x80 + c / 64 % 64) ∷ (0x80 + c % 64) ∷ []

abbrev encode_pair : ℕ → ℕ → List ℕ
encode_pair h l =
    let p = 0x10000 + (h - 0xd800) * 1024 + (l - 0xdc00) in
    (0xf0 + p / 262144) ∷ (0x80 + p / 4096 % 64) ∷ (0x80 + p / 64 % 64) ∷ (0x80 + p % 64) ∷ []

unfoldable pub encode_utf8 : Text → List ℕ
encode_utf8 [] = []
encode_utf8 (c ∷ []) = encode_unit c
encode_utf8 (c ∷ d ∷ s) =
    let paired = encode_pair c d ++ encode_utf8 s in
    let single = encode_unit c ++ encode_utf8 (d ∷ s) in
    if is_high c && is_low d then paired else single

-- What the code hands to the SDK as an argument. `split_coin n` is the coin of the n-th split and
-- `call_result n` that of the n-th call; `undefined` is a read past the end of `results`.
pub data TxArg : Type 0 where
  object : Text → TxArg
  clock_object : TxArg
  u64 : ℤ → TxArg
  bytes : List (Option ℤ) → TxArg
  split_coin call_result : ℕ → TxArg
  undefined : TxArg

pub data Command : Type 0 where
  split_coins : Text → ℤ → Command
  move_call : Text → List Text → List TxArg → Command
  transfer_objects : TxArg → Text → Command

-- The commands so far, and how many of them are splits and calls.
pub record Builder : Type 0 where
  pub commands : List Command
  pub splits : ℕ
  pub results : ℕ

abbrev empty_builder : Builder
empty_builder = record { commands = []; splits = 0; results = 0 }

-- `results[results.length - 1]`
abbrev last_result : Builder → TxArg
last_result b = if b.results == 0 then undefined else call_result (b.results - 1)

module _ (ctx : BuildCtx) where
  abbrev coin_source : CoinType → Option Text
  coin_source usdc = option_bind ctx.owned (λ o. o.usdc_coin_id)
  coin_source token = option_bind ctx.owned (λ o. o.coin_t_id)

  abbrev coin_name : CoinType → Text
  coin_name usdc = text "USDC coin id"
  coin_name token = text "T coin id"

  unfoldable pub resolve_arg : PlanArg → Builder → Built (TxArg × Builder)
  resolve_arg (shared id m) b = built (object id, b)
  resolve_arg (owned id) b = built (object id, b)
  resolve_arg clock b = built (clock_object, b)
  resolve_arg (pure_u64 n) b = built (u64 n, b)
  resolve_arg (pure_bytes s hex) b = built (bytes (hex_bytes s), b)
  resolve_arg (pure_bytes s utf8) b = built (bytes (map (λ n. some (pos n)) (encode_utf8 s)), b)
  resolve_arg (coin t n) b = do
    source ← need (coin_source t) (coin_name t)
    built (
      split_coin b.splits,
      record b { commands = b.commands ++ split_coins source n ∷ []; splits = suc b.splits },
    )
  resolve_arg (result n) b = built ((if ltb n b.results then call_result n else undefined), b)

  unfoldable pub resolve_args : List PlanArg → Builder → Built (List TxArg × Builder)
  unfolding resolve_arg
  resolve_args [] b = built ([], b)
  resolve_args (a ∷ rest) b = do
    first ← resolve_arg a b
    others ← resolve_args rest first.1
    built (first.0 ∷ others.0, others.1)

  unfoldable pub add_calls : List MoveCallPlan → Builder → Built Builder
  unfolding resolve_args
  add_calls [] b = built b
  add_calls (c ∷ rest) b = do
    done ← resolve_args c.args b
    let after = done.1
    add_calls rest (record after {
      commands = after.commands ++ move_call c.target c.type_arguments done.0 ∷ [];
      results = suc after.results;
    })

  unfoldable pub plan_to_transaction : TxPlan → Built (List Command)
  unfolding add_calls
  plan_to_transaction p = do
    b ← add_calls p.calls empty_builder
    built (
        if p.transfer_last
        then b.commands ++ transfer_objects (last_result b) ctx.sender ∷ []
        else b.commands)
