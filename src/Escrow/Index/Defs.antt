-- ===== src/Escrow/Index/Defs.antt =====
-- `index_add`, `index_remove` and `list_pending` (src/lib.rs): a dense array of question ids with
-- its reverse map, kept by swap-remove. `none` is a trap.

use arbiter_contract.Base.{
  ℕ, zero, suc, ◌+◌, ◌-◌, Option, none, some, List, [], ◌∷◌, ◌==◌, min, ltb, if◌then◌else◌, nat_eq,
}
use arbiter_contract.Base.Table.{get, set, remove}
use arbiter_contract.Escrow.Types.{PendingIndex, u32_max, max_pending_page}
use arbiter_contract.Escrow.Call.{Call, ok, trap, saturating_add}

unfoldable pub push_id : ℕ → PendingIndex → PendingIndex
push_id id x = record { count = x.count + 1; at = set x.count id x.at; pos = set id x.count x.pos }

unfoldable pub add_id : ℕ → PendingIndex → Option PendingIndex
unfolding push_id
add_id id x = if ltb u32_max (x.count + 1) then none else some (push_id id x)

-- `last_id` moves into slot `p`.
unfoldable pub move_into : (p last_id : ℕ) → PendingIndex → PendingIndex
move_into p last_id x = record x { at = set p last_id x.at; pos = set last_id p x.pos }

-- `if pos != last`
unfoldable pub fill_slot : (p last : ℕ) → PendingIndex → Option PendingIndex
unfolding move_into
fill_slot p last x =
    if p == last
    then some x
    else elim (get last x.at) [ none ↦ none | some last_id ↦ some (move_into p last_id x) ]

unfoldable pub drop_last : (id last : ℕ) → PendingIndex → PendingIndex
drop_last id last x = record { count = last; at = remove last x.at; pos = remove id x.pos }

unfoldable pub swap_remove : (id p : ℕ) → PendingIndex → Option PendingIndex
unfolding fill_slot drop_last
swap_remove id p x =
    let last = x.count - 1 in
    if x.count == 0
    then none
    else elim (fill_slot p last x) [ none ↦ none | some y ↦ some (drop_last id last y) ]

unfoldable pub remove_id : ℕ → PendingIndex → Option PendingIndex
unfolding swap_remove
remove_id id x = elim (get id x.pos) [ none ↦ some x | some p ↦ swap_remove id p x ]

unfoldable pub index_add : ℕ → Call (Unit {0})
index_add id s = elim (add_id id s.index) [ none ↦ trap | some x ↦ ok (tt, record s { index = x }) ]

unfoldable pub index_remove : ℕ → Call (Unit {0})
index_remove id s = elim (remove_id id s.index) [
  | none ↦ trap
  | some x ↦ ok (tt, record s { index = x })
]

cons_some : Option ℕ → List ℕ → List ℕ
cons_some none ids = ids
cons_some (some id) ids = id ∷ ids

-- The `while` loop of `list_pending`, with `left` rounds to go from slot `i`.
unfoldable pub page_from : PendingIndex → (left i : ℕ) → List ℕ
unfolding cons_some
page_from x zero i = []
page_from x (suc left) i = cons_some (get i x.at) (page_from x left (i + 1))

unfoldable pub list_pending : PendingIndex → (start limit : ℕ) → List ℕ
unfolding page_from
list_pending x start limit =
    let end = min (saturating_add start (min limit max_pending_page)) x.count in
    page_from x (end - start) start
