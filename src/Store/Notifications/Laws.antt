-- ===== src/Store/Notifications/Laws.antt =====
-- What the bell shows, and what its mutations change.
use gally.Prelude.{
  zero, ◌≡◌, refl, sym, ap, ◌∙◌, inl, inr, true, false, not, ◌&&◌, ◌||◌, List, [], ◌∷◌, ◌++◌, keep,
  Text, text_eq, text_eq_iff, includes, arith, All, All-of, All-at, In, sort_by, sort_by-any, any,
  sort_by-All, sort_by-IsSorted, IsSorted, IsOrder, if◌then◌else◌, Bool-cases,
}
use gally.Store.Local.{read_list, IsOpen, read-write, set_of, includes-set_of}
use gally.Store.Notifications.{
  AppNotification, Account, Bell, put, collect, newer, sources, build, ids, push_notification,
  mark_all_read, clear_all, unread, seed,
}

newer-IsOrder : IsOrder newer
newer-IsOrder = record { total = λ a b h. ground arith; trans = λ a b c h k. ground arith }

includes-any :
    (ns : List AppNotification) (j : Text) → includes (ids ns) j ≡ any (λ n. text_eq n.id j) ns
includes-any [] j = refl
includes-any (n ∷ ns) j = ap (λ b. if text_eq n.id j then true else b) (includes-any ns j)

-- Sorting changes no id.
includes-sort :
    (ns : List AppNotification) (j : Text)
    → includes (ids (sort_by newer ns)) j ≡ includes (ids ns) j
includes-sort ns j =
    includes-any (sort_by newer ns) j
    ∙ sort_by-any newer (λ n. text_eq n.id j) ns
    ∙ sym (includes-any ns j)

includes-put :
    (n : AppNotification) (ms : List AppNotification) (j : Text)
    → includes (ids (put n ms)) j ≡ (includes (ids ms) j || text_eq n.id j)
includes-put n [] j = ground arith
includes-put n (m ∷ ms) j = elim (Bool-cases (text_eq m.id n.id)) [
  | inl e ↦ ground (arith, text_eq_iff m.id n.id, text_eq_iff m.id j, text_eq_iff n.id j)
  | inr e ↦ ground (arith, includes-put n ms j)
]

includes-collect :
    (cleared seen : List Text) (ns by_id : List AppNotification) (j : Text)
    → includes (ids (collect cleared seen ns by_id)) j
      ≡ (includes (ids by_id) j || (includes (ids ns) j && not (includes cleared j)))
includes-collect cleared seen [] by_id j = ground arith
includes-collect cleared seen (n ∷ ns) by_id j = elim (Bool-cases (includes cleared n.id)) [
  | inl e ↦
      rw (e, collect)
        (includes-collect cleared seen ns by_id j ∙ ground (arith, text_eq_iff n.id j))
  | inr e ↦
      let seen_n = record n { read = includes seen n.id } in
      rw (e, collect)
        (includes-collect cleared seen ns (put seen_n by_id) j
          ∙ ground (arith, includes-put seen_n by_id j, text_eq_iff n.id j))
]

-- The bell shows the ids of the alerts and outcomes, less the cleared ones.
includes-build :
    (a : Account) (b : Bell) (j : Text)
    → includes (ids (build a b)) j
      ≡ (includes (ids (sources a b)) j && not (includes (read_list b.cleared_ids) j))
unfolding build
includes-build a b j =
    includes-sort _ j
    ∙ includes-collect (set_of (read_list b.cleared_ids)) (set_of (read_list b.read_ids))
        (sources a b) [] j
    ∙ ap (λ c. includes (ids (sources a b)) j && not c)
        (includes-set_of (read_list b.cleared_ids) j)

-- The bell stands newest first, and shows an id exactly when an alert or an outcome has it and it
-- has not been cleared.
pub build-IsSorted :
    (a : Account) (b : Bell)
    → IsSorted newer (build a b)
      × ((j : Text)
          → includes (ids (build a b)) j
            ≡ (includes (ids (sources a b)) j && not (includes (read_list b.cleared_ids) j)))
build-IsSorted a b = (unfold build in sort_by-IsSorted newer newer-IsOrder _, includes-build a b)

-- The marks of what the bell shows.
abbrev Marked : List Text → AppNotification → Type 0
Marked seen n = n.read ≡ includes seen n.id

put-Marked :
    (seen : List Text) (n : AppNotification) (ms : List AppNotification)
    → Marked seen n
    → All (Marked seen) ms
    → All (Marked seen) (put n ms)
put-Marked seen n [] h k = (h, tt)
put-Marked seen n (m ∷ ms) h k = elim (Bool-cases (text_eq m.id n.id)) [
  | inl e ↦ rw (e, put) (h, k.1)
  | inr e ↦ rw (e, put) (k.0, put-Marked seen n ms h k.1)
]

collect-Marked :
    (cleared seen : List Text) (ns by_id : List AppNotification)
    → All (Marked seen) by_id
    → All (Marked seen) (collect cleared seen ns by_id)
collect-Marked cleared seen [] by_id h = h
collect-Marked cleared seen (n ∷ ns) by_id h = elim (Bool-cases (includes cleared n.id)) [
  | inl e ↦ rw (e, collect) (collect-Marked cleared seen ns by_id h)
  | inr e ↦
      rw (e, collect)
        (collect-Marked cleared seen ns _
          (put-Marked seen (record n { read = includes seen n.id }) by_id refl h))
]

build-Marked : (a : Account) (b : Bell) → All (Marked (set_of (read_list b.read_ids))) (build a b)
unfolding build
build-Marked a b = sort_by-All newer _ _ (collect-Marked _ _ (sources a b) [] tt)

-- In a storage that can be written, clearing shows again whatever was cleared before and is still an
-- alert or an outcome, and hides the rest: only where nothing had been cleared is the bell empty.
pub includes-clear_all :
    (a : Account) (b : Bell) (j : Text)
    → IsOpen b.cleared_ids
    → includes (ids (build a (clear_all a b))) j
      ≡ (includes (ids (sources a b)) j && includes (read_list b.cleared_ids) j)
unfolding clear_all
includes-clear_all a b j h =
    includes-build a (clear_all a b) j
    ∙ ap (λ l. includes (ids (sources a b)) j && not (includes l j))
        (read-write (ids (build a b)) b.cleared_ids h)
    ∙ ground (arith, includes-build a b j)

includes-member :
    (ns : List AppNotification) (n : AppNotification) → In n ns → includes (ids ns) n.id ≡ true
includes-member [] n h = absurd h
includes-member (m ∷ ns) n (inl e) =
    ground (arith, text_eq_iff m.id n.id, ap (λ (x : AppNotification). x.id) e)
includes-member (m ∷ ns) n (inr h) = ground (arith, includes-member ns n h)

none_unread : (ns : List AppNotification) → All (λ n. n.read ≡ true) ns → unread ns ≡ zero
unfolding unread
none_unread [] h = refl
none_unread (n ∷ ns) h = simp (h.0) (none_unread ns h.1)

-- In a storage that can be written nothing is unread once all is marked as read.
unread-mark_all_read :
    (a : Account) (b : Bell) → IsOpen b.read_ids → unread (build a (mark_all_read a b)) ≡ zero
unfolding mark_all_read
unread-mark_all_read a b h =
    let after = mark_all_read a b in
    let shown = ids (build a b) in
    let marked = build-Marked a after in
    none_unread (build a after) (
      All-of (λ n. n.read ≡ true) (build a after)
        λ n m.
          All-at (Marked (set_of (read_list after.read_ids))) n (build a after) marked m
          ∙ includes-set_of (read_list after.read_ids) n.id
          ∙ ap (λ l. includes l n.id) (read-write shown b.read_ids h)
          ∙ includes-build a b n.id
          ∙ sym (includes-build a after n.id)
          ∙ includes-member (build a after) n m)

ids-append :
    (xs ys : List AppNotification) (j : Text)
    → includes (ids (xs ++ ys)) j ≡ (includes (ids xs) j || includes (ids ys) j)
ids-append [] ys j = refl
ids-append (x ∷ xs) ys j = ground (arith, ids-append xs ys j)

ids-keep :
    (id : Text) (xs : List AppNotification) (j : Text)
    → includes (ids (keep (λ x. not (text_eq x.id id)) xs)) j
      ≡ (includes (ids xs) j && not (text_eq id j))
ids-keep id [] j = refl
ids-keep id (x ∷ xs) j = elim (Bool-cases (text_eq x.id id)) [
  | inl e ↦
      ground (arith, ids-keep id xs j, text_eq_iff x.id id, text_eq_iff x.id j, text_eq_iff id j)
  | inr e ↦
      ground (arith, ids-keep id xs j, text_eq_iff x.id id, text_eq_iff x.id j, text_eq_iff id j)
]

sources-push :
    (a : Account) (b : Bell) (n : AppNotification) (j : Text)
    → IsOpen b.outcomes
    → includes (ids (sources a (push_notification n b))) j
      ≡ (includes (ids (sources a b)) j || text_eq n.id j)
unfolding push_notification
sources-push a b n j h =
    let old = read_list b.outcomes in
    let kept = keep (λ x. not (text_eq x.id n.id)) old in
    let new = record n { read = false } ∷ kept in
    ap (λ l. includes (ids (seed a ++ l)) j) (read-write new b.outcomes h)
    ∙ ids-append (seed a) new j
    ∙ ground (arith, ids-keep n.id old j, ids-append (seed a) old j, text_eq_iff n.id j)

-- In a storage that can be written the bell shows an outcome once it is pushed, unless its id is
-- cleared, and every other id exactly as before.
pub includes-push_notification :
    (a : Account) (b : Bell) (n : AppNotification) (j : Text)
    → IsOpen b.outcomes
    → includes (ids (build a (push_notification n b))) j ≡ (
        if text_eq n.id j
        then not (includes (read_list b.cleared_ids) j)
        else includes (ids (build a b)) j)
includes-push_notification a b n j h =
    includes-build a (push_notification n b) j
    ∙ ap (λ s. s && not (includes (read_list (push_notification n b).cleared_ids) j))
        (sources-push a b n j h)
    ∙ unfold push_notification in ground (arith, includes-build a b j)
