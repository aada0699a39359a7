-- ===== src/Store/Optimistic.antt =====
-- frontend-explorer/lib/tx/optimistic.ts: the keys of the actions that were submitted. They are read
-- from localStorage each time.
use gally.Prelude.{
  ◌≡◌, refl, inl, inr, Bool, true, false, ◌||◌, ◌&&◌, List, [], ◌∷◌, ◌++◌, ap, sym, ◌∙◌, All, Text,
  includes, if◌then◌else◌, Bool-cases,
}
use gally.Tx.Intents.{TxIntent, optimistic_key}
use gally.Store.Local.{
  Storage, absent, read_list, write_list, IsOpen, read-write, add, set_of, add_all,
  includes-add_all, includes-set_of,
}

unfoldable pub read_applied : Storage Text → List Text
read_applied s = set_of (read_list s)

-- The loop over the keys: the set, and whether it has changed.
abbrev mark_loop : List Text → List Text → Bool → List Text × Bool
mark_loop [] s changed = (s, changed)
mark_loop (k ∷ ks) s changed = mark_loop ks (add k s) (if includes s k then changed else true)

-- The new storage, and whether subscribers are told.
unfoldable pub mark_applied : List Text → Storage Text → Storage Text × Bool
mark_applied keys s =
    let (set, changed) = mark_loop keys (read_applied s) false in
    if changed then write_list set s else (s, false)

unfoldable pub apply_optimistic : TxIntent → Storage Text → Storage Text × Bool
unfolding mark_applied
apply_optimistic intent = mark_applied (optimistic_key intent ∷ [])

-- `localStorage.removeItem`, which a full storage allows
unfoldable pub reset_optimistic : Storage Text → Storage Text × Bool
reset_optimistic s = if s.on_server then (s, false) else (record s { cell = absent }, true)

-- `isApplied` of the hook, once hydrated
unfoldable pub is_applied : Bool → Storage Text → Text → Bool
unfolding read_applied
is_applied hydrated s key = hydrated && includes (read_applied s) key

mark_loop-set : (ks s : List Text) (b : Bool) → (mark_loop ks s b).0 ≡ add_all ks s
mark_loop-set [] s b = refl
mark_loop-set (k ∷ ks) s b = mark_loop-set ks (add k s) (if includes s k then b else true)

-- A loop that has changed something says so to its end.
mark_loop-changed : (ks s : List Text) → (mark_loop ks s true).1 ≡ true
mark_loop-changed [] s = refl
mark_loop-changed (k ∷ ks) s = elim (Bool-cases (includes s k)) [
  | inl e ↦ rw (e, mark_loop) (mark_loop-changed ks s)
  | inr e ↦ rw (e, mark_loop) (mark_loop-changed ks (s ++ k ∷ []))
]

-- The loop says that nothing has changed exactly when every key was there.
mark_loop-unchanged :
    (ks s : List Text) → (mark_loop ks s false).1 ≡ false → (mark_loop ks s false).0 ≡ s
mark_loop-unchanged [] s h = refl
mark_loop-unchanged (k ∷ ks) s h = elim (Bool-cases (includes s k)) [
  | inl e ↦ rw (e, mark_loop) (mark_loop-unchanged ks s (rw (e, mark_loop) at h))
  | inr e ↦
      let changed : (mark_loop ks (s ++ k ∷ []) true).1 ≡ false = rw (e, mark_loop) at h in
      absurd (cc (mark_loop-changed ks (s ++ k ∷ [])))
]

applied-write :
    (l : List Text) (s : Storage Text) (j : Text)
    → IsOpen s
    → includes (read_applied (write_list l s).0) j ≡ includes l j
unfolding read_applied
applied-write l s j h = rw (read-write l s h) (includes-set_of l j)

-- In a storage that can be written the keys are applied afterwards, and so are those from before;
-- no other key is.
pub includes-mark_applied :
    (keys : List Text) (s : Storage Text) (j : Text)
    → IsOpen s
    → includes (read_applied (mark_applied keys s).0) j
      ≡ (includes (read_applied s) j || includes keys j)
unfolding mark_applied
includes-mark_applied keys s j h =
    let before = read_applied s in
    let all = includes-add_all keys before j in
    elim (Bool-cases (mark_loop keys before false).1) [
      | inl e ↦
          rw (e, mark_applied)
            (applied-write (mark_loop keys before false).0 s j h
              ∙ ap (λ l. includes l j) (mark_loop-set keys before false)
              ∙ all)
      | inr e ↦
          rw (e, mark_applied)
            (ap (λ l. includes l j)
                (sym (mark_loop-unchanged keys before e) ∙ mark_loop-set keys before false)
              ∙ all)
    ]

known-unchanged :
    (ks s : List Text) → All (λ k. includes s k ≡ true) ks → mark_loop ks s false ≡ (s, false)
known-unchanged [] s h = refl
known-unchanged (k ∷ ks) s h = rw (h.0, mark_loop) (known-unchanged ks s h.1)

-- Keys that are all applied already change nothing, and no subscriber is told.
mark_applied_known :
    (keys : List Text) (s : Storage Text)
    → All (λ k. includes (read_applied s) k ≡ true) keys
    → mark_applied keys s ≡ (s, false)
unfolding mark_applied
mark_applied_known keys s h = rw (known-unchanged keys (read_applied s) h)

write_list-IsOpen : (l : List Text) (s : Storage Text) → IsOpen s → IsOpen (write_list l s).0
write_list-IsOpen l s h = simp (h.0, h.1) (refl, refl)

-- A storage that can be written can be written afterwards.
pub mark_applied-IsOpen :
    (keys : List Text) (s : Storage Text) → IsOpen s → IsOpen (mark_applied keys s).0
unfolding mark_applied
mark_applied-IsOpen keys s h =
    let (set, changed) = mark_loop keys (read_applied s) false in
    elim (Bool-cases changed) [
      | inl e ↦ rw (e, mark_applied) (write_list-IsOpen set s h)
      | inr e ↦ rw (e, mark_applied) h
    ]
