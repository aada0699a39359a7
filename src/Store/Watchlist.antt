-- ===== src/Store/Watchlist.antt =====
-- frontend-explorer/lib/watchlist.ts: the assets that a user watches.
use gally.Prelude.{
  ◌≡◌, refl, ap, ◌∙◌, inl, inr, Bool, not, ◌&&◌, List, [], ◌∷◌, ◌++◌, keep, arith, Text, text_eq,
  text_eq_iff, includes, if◌then◌else◌, Bool-cases,
}
use gally.Store.Local.{Storage, read_list, write_list, IsOpen, read-write, includes-append}

abbrev toggled : Text → List Text → List Text
toggled id cur = if includes cur id then keep (λ x. not (text_eq x id)) cur else cur ++ id ∷ []

-- The new storage, and whether subscribers are told.
unfoldable pub toggle : Text → Storage Text → Storage Text × Bool
toggle id s = write_list (toggled id (read_list s)) s

-- `has` of the hook, once hydrated
unfoldable pub has : Storage Text → Text → Bool
has s id = includes (read_list s) id

includes-keep :
    (id : Text) (l : List Text) (j : Text)
    → includes (keep (λ x. not (text_eq x id)) l) j ≡ (includes l j && not (text_eq id j))
includes-keep id [] j = refl
includes-keep id (x ∷ l) j = elim (Bool-cases (text_eq x id)) [
  | inl e ↦
      ground (arith, includes-keep id l j, text_eq_iff x id, text_eq_iff x j, text_eq_iff id j)
  | inr e ↦
      ground (arith, includes-keep id l j, text_eq_iff x id, text_eq_iff x j, text_eq_iff id j)
]

-- In a storage that can be written a toggle changes whether that asset is watched, and no other.
has-toggle :
    (id : Text) (s : Storage Text) (j : Text)
    → IsOpen s
    → has (toggle id s).0 j ≡ (if text_eq id j then not (has s j) else has s j)
unfolding has toggle
has-toggle id s j h =
    ap (λ l. includes l j) (read-write (toggled id (read_list s)) s h)
    ∙ elim (Bool-cases (includes (read_list s) id)) [
      | inl e ↦ ground (arith, includes-keep id (read_list s) j, text_eq_iff id j)
      | inr e ↦ ground (arith, includes-append (read_list s) (id ∷ []) j, text_eq_iff id j)
    ]
