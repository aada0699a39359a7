-- ===== src/Tx/Transaction/Order.antt =====
-- Commands that use what earlier commands give, and builders that keep count of them.
use gally.Prelude.{ℕ, suc, ◌+◌, ◌≤◌, ◌<◌, ◌≡◌, List, [], ◌∷◌, ◌++◌, arith, All}
use gally.Tx.Transaction.{
  TxArg, object, clock_object, u64, bytes, split_coin, call_result, undefined, Command, split_coins,
  move_call, transfer_objects, Builder,
}

-- After `s` splits and `r` calls the argument is there.
abbrev pub IsThere : ℕ → ℕ → TxArg → Type 0
IsThere s r (split_coin n) = n < s
IsThere s r (call_result n) = n < r
IsThere s r undefined = ⊥
IsThere s r _ = Unit

-- Each command uses coins and results of commands before it only.
abbrev pub IsOrdered : ℕ → ℕ → List Command → Type 0
IsOrdered s r [] = Unit
IsOrdered s r (split_coins id n ∷ cs) = IsOrdered (suc s) r cs
IsOrdered s r (move_call t ts as' ∷ cs) = All (IsThere s r) as' × IsOrdered s (suc r) cs
IsOrdered s r (transfer_objects a to ∷ cs) = IsThere s r a × IsOrdered s r cs

abbrev pub splits_in : List Command → ℕ
splits_in [] = 0
splits_in (split_coins id n ∷ cs) = suc (splits_in cs)
splits_in (move_call t ts as' ∷ cs) = splits_in cs
splits_in (transfer_objects a to ∷ cs) = splits_in cs

abbrev pub calls_in : List Command → ℕ
calls_in [] = 0
calls_in (split_coins id n ∷ cs) = calls_in cs
calls_in (move_call t ts as' ∷ cs) = suc (calls_in cs)
calls_in (transfer_objects a to ∷ cs) = calls_in cs

pub IsOrdered-append :
    (s r : ℕ) (cs ds : List Command)
    → IsOrdered s r cs
    → IsOrdered (s + splits_in cs) (r + calls_in cs) ds
    → IsOrdered s r (cs ++ ds)
IsOrdered-append s r [] ds h k =
    let e : s + 0 ≡ s = omega arith in let f : r + 0 ≡ r = omega arith in rw (e, f) at k
IsOrdered-append s r (split_coins id n ∷ cs) ds h k =
    IsOrdered-append (suc s) r cs ds h
      (let e : s + suc (splits_in cs) ≡ suc s + splits_in cs = omega arith in rw e at k)
IsOrdered-append s r (move_call t ts as' ∷ cs) ds h k = (
  h.0,
  IsOrdered-append s (suc r) cs ds h.1
      (let e : r + suc (calls_in cs) ≡ suc r + calls_in cs = omega arith in rw e at k),
)
IsOrdered-append s r (transfer_objects a to ∷ cs) ds h k = (h.0, IsOrdered-append s r cs ds h.1 k)

pub splits_in-append : (cs ds : List Command) → splits_in (cs ++ ds) ≡ splits_in cs + splits_in ds
splits_in-append [] ds = omega arith
splits_in-append (split_coins id n ∷ cs) ds = omega (arith, splits_in-append cs ds)
splits_in-append (move_call t ts as' ∷ cs) ds = splits_in-append cs ds
splits_in-append (transfer_objects a to ∷ cs) ds = splits_in-append cs ds

pub calls_in-append : (cs ds : List Command) → calls_in (cs ++ ds) ≡ calls_in cs + calls_in ds
calls_in-append [] ds = omega arith
calls_in-append (split_coins id n ∷ cs) ds = calls_in-append cs ds
calls_in-append (move_call t ts as' ∷ cs) ds = omega (arith, calls_in-append cs ds)
calls_in-append (transfer_objects a to ∷ cs) ds = calls_in-append cs ds

-- The builder counts its commands, and they are in order.
pub record IsSound (b : Builder) : Type 0 where
  pub splits : b.splits ≡ splits_in b.commands
  pub results : b.results ≡ calls_in b.commands
  pub ordered : IsOrdered 0 0 b.commands

-- One more command that is in order.
pub IsSound-add :
    (b : Builder) (c : Command) (s r : ℕ)
    → IsSound b
    → IsOrdered b.splits b.results (c ∷ [])
    → s ≡ b.splits + splits_in (c ∷ [])
    → r ≡ b.results + calls_in (c ∷ [])
    → IsSound (record { commands = b.commands ++ c ∷ []; splits = s; results = r })
IsSound-add b c s r h k e f = record {
  splits = omega (arith, splits_in-append b.commands (c ∷ []), h.splits);
  results = omega (arith, calls_in-append b.commands (c ∷ []), h.results);
  ordered = IsOrdered-append 0 0 b.commands (c ∷ []) h.ordered (
      let p : 0 + splits_in b.commands ≡ b.splits = omega (arith, h.splits) in
      let q : 0 + calls_in b.commands ≡ b.results = omega (arith, h.results) in rw (p, q) k);
}

-- Arguments stay there while the builder grows.
pub IsThere-mono : (s s' r : ℕ) (a : TxArg) → s ≤ s' → IsThere s r a → IsThere s' r a
IsThere-mono s s' r (split_coin n) le h = omega arith
IsThere-mono s s' r (call_result n) le h = h
IsThere-mono s s' r undefined le h = h
IsThere-mono s s' r (object id) le h = tt
IsThere-mono s s' r clock_object le h = tt
IsThere-mono s s' r (u64 n) le h = tt
IsThere-mono s s' r (bytes bs) le h = tt
