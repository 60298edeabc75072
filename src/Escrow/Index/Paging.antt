-- ===== src/Escrow/Index/Paging.antt =====
-- The pages of `list_pending` over a dense index (src/lib.rs).
use arbiter_contract.Base.{
  ℕ, zero, suc, ◌+◌, ◌-◌, ◌≤◌, ◌<◌, ◌≡◌, refl, sym, min, some, List, ◌∷◌, arith, length, get_elem?,
  nat_eq,
}
use arbiter_contract.Base.Table.{get}
use arbiter_contract.Escrow.Types.{PendingIndex, u32_max, max_pending_page}
use arbiter_contract.Escrow.Call.{saturating_add}
use arbiter_contract.Escrow.Index.Defs.{page_from, list_pending}
use arbiter_contract.Escrow.Index.Dense.{IsDense}

page_from-cons :
    (x : PendingIndex) (left i id : ℕ)
    → get i x.at ≡ some id
    → page_from x (suc left) i ≡ id ∷ page_from x left (i + 1)
unfolding page_from
page_from-cons x left i id e = rw e

cons_slots :
    (x : PendingIndex) (i id left : ℕ) (ids : List ℕ)
    → get i x.at ≡ some id
    → ((k : ℕ) → k < left → get_elem? ids k ≡ get (i + 1 + k) x.at)
    → (k : ℕ) → k < suc left
    → get_elem? (id ∷ ids) k ≡ get (i + k) x.at
cons_slots x i id left ids at_i rest zero lt = let e : i + 0 ≡ i = omega arith in rw e (sym at_i)
cons_slots x i id left ids at_i rest (suc k) lt =
    let e : i + suc k ≡ i + 1 + k = omega arith in rw e (rest k (omega arith))

page_from_lem :
    (x : PendingIndex) (left i : ℕ)
    → IsDense x
    → i + left ≤ x.count
    → (length (page_from x left i) ≡ left)
      × ((k : ℕ) → k < left → get_elem? (page_from x left i) k ≡ get (i + k) x.at)
unfolding page_from
page_from_lem x zero i d le = (refl, λ k lt. absurd (omega arith))
page_from_lem x (suc left) i d le =
    let (id, at_i, _) = d.slot i (omega arith) in
    let (len, rest) = page_from_lem x left (i + 1) d (omega arith) in
    rw (page_from-cons x left i id at_i)
      (omega (arith, len), cons_slots x i id left (page_from x left (i + 1)) at_i rest)

listed_lem :
    (x : PendingIndex) (start limit : ℕ)
    → IsDense x
    → start ≤ x.count
    → x.count ≤ u32_max
    → let size = min (min limit max_pending_page) (x.count - start) in
      (length (list_pending x start limit) ≡ size)
      × ((k : ℕ) → k < size → get_elem? (list_pending x start limit) k ≡ get (start + k) x.at)
unfolding list_pending
listed_lem x start limit d within fits =
    let end = min (saturating_add start (min limit max_pending_page)) x.count in
    let same : end - start ≡ min (min limit max_pending_page) (x.count - start) = omega arith in
    rw (← same) (page_from_lem x (end - start) start d (omega arith))

-- Over a dense index, a page that starts within it holds all the slots from `start` up to the limit
-- (at most 100) or the end, whichever comes first.
pub length-list_pending :
    (x : PendingIndex) (start limit : ℕ)
    → IsDense x
    → start ≤ x.count
    → x.count ≤ u32_max
    → length (list_pending x start limit) ≡ min (min limit max_pending_page) (x.count - start)
length-list_pending x start limit d within fits = (listed_lem x start limit d within fits).0

-- Over a dense index, the k-th element of a page that starts within it is the id in slot
-- `start + k`, for every k below the limit (at most 100) that stays below the count.
pub get-list_pending :
    (x : PendingIndex) (start limit k : ℕ)
    → IsDense x
    → x.count ≤ u32_max
    → k < min limit max_pending_page
    → start + k < x.count
    → get_elem? (list_pending x start limit) k ≡ get (start + k) x.at
get-list_pending x start limit k d fits below in_range =
    (listed_lem x start limit d (omega arith) fits).1 k (omega arith)
