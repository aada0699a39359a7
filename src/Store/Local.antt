-- ===== src/Store/Local.antt =====
-- One entry of localStorage that holds a JSON array, sets as lists in insertion order, and maps.
use gally.Prelude.{
  ◌≡◌, refl, inl, inr, Bool, true, false, ◌||◌, List, [], ◌∷◌, ◌++◌, arith, Text, text_eq,
  text_eq_iff, includes, if◌then◌else◌, Bool-cases,
}

-- Nothing stored, a text that JSON.parse refuses, or a parsed array.
pub data Cell {ℓ} (A : Type ℓ) : Type ℓ where
  absent broken : Cell A
  stored : List A → Cell A

-- On the server there is no window: nothing can be read, and a write throws and is caught. A full
-- storage refuses to be written, which is caught too.
pub record Storage {ℓ} (A : Type ℓ) : Type ℓ where
  pub on_server : Bool
  pub full : Bool
  pub cell : Cell A

module _ {ℓ} {A : Type ℓ} where
  abbrev parse_cell : Cell A → List A
  parse_cell absent = []
  parse_cell broken = []
  parse_cell (stored l) = l

  abbrev pub read_list : Storage A → List A
  read_list s = if s.on_server then [] else parse_cell s.cell

  -- `setItem` and the events behind it, in one `try`: true where subscribers are told
  abbrev pub write_list : List A → Storage A → Storage A × Bool
  write_list l s =
      if s.on_server || s.full then (s, false) else (record s { cell = stored l }, true)

  -- A storage that can be written.
  abbrev pub IsOpen : Storage A → Type 0
  IsOpen s = (s.on_server ≡ false) × (s.full ≡ false)

  pub read-write : (l : List A) (s : Storage A) → IsOpen s → read_list (write_list l s).0 ≡ l
  read-write l s h = simp (h.0, h.1)

-- `set.add(k)`
abbrev pub add : Text → List Text → List Text
add k s = if includes s k then s else s ++ k ∷ []

abbrev pub add_all : List Text → List Text → List Text
add_all [] s = s
add_all (k ∷ ks) s = add_all ks (add k s)

-- `new Set(l)`
abbrev pub set_of : List Text → List Text
set_of l = add_all l []

pub includes-append :
    (s t : List Text) (j : Text) → includes (s ++ t) j ≡ (includes s j || includes t j)
includes-append [] t j = refl
includes-append (x ∷ s) t j = ground (arith, includes-append s t j)

pub includes-add :
    (k : Text) (s : List Text) (j : Text) → includes (add k s) j ≡ (includes s j || text_eq k j)
includes-add k s j = elim (Bool-cases (includes s k)) [
  | inl e ↦ ground (arith, text_eq_iff k j)
  | inr e ↦ ground (arith, includes-append s (k ∷ []) j)
]

pub includes-add_all :
    (ks s : List Text) (j : Text) → includes (add_all ks s) j ≡ (includes s j || includes ks j)
includes-add_all [] s j = ground arith
includes-add_all (k ∷ ks) s j = ground (arith, includes-add_all ks (add k s) j, includes-add k s j)

pub includes-set_of : (l : List Text) (j : Text) → includes (set_of l) j ≡ includes l j
includes-set_of l j = includes-add_all l [] j
