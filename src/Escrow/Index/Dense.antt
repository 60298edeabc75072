-- ===== src/Escrow/Index/Dense.antt =====
-- Dense pending indexes (src/lib.rs: index_add, index_remove): slots below the count hold ids, the
-- reverse map is their inverse, and nothing stands above.
use arbiter_contract.Base.{
  ℕ, ◌+◌, ◌-◌, ◌≤◌, ◌<◌, ◌≡◌, inl, inr, true, false, none, some, arith, ◌==◌, if◌then◌else◌,
  Bool-cases, nat_eq,
}
use arbiter_contract.Base.Table.{get, put, has, get-put}
use arbiter_contract.Escrow.Types.{PendingIndex, u32_max}
use arbiter_contract.Escrow.Index.Defs.{
  push_id, add_id, move_into, drop_last, swap_remove, remove_id,
}

pub record IsDense (x : PendingIndex) : Type 0 where
  pub slot : (i : ℕ) → i < x.count → (id : ℕ) × (get i x.at ≡ some id) × (get id x.pos ≡ some i)
  pub back : (id p : ℕ) → get id x.pos ≡ some p → (p < x.count) × (get p x.at ≡ some id)
  pub empty : (i : ℕ) → x.count ≤ i → get i x.at ≡ none

pub push_id-IsDense :
    (id : ℕ) (x : PendingIndex) → IsDense x → get id x.pos ≡ none → IsDense (push_id id x)
unfolding push_id
push_id-IsDense id x d new = record {
  slot = λ i lt. elim (Bool-cases (x.count == i)) [
    | inl top ↦ (
      id,
      ground (arith, get-put x.count i (some id) x.at),
      ground (arith, get-put id id (some x.count) x.pos),
    )
    | inr below ↦
        let (j, a, b) = d.slot i (ground arith) in
        (
          j,
          ground (arith, get-put x.count i (some id) x.at),
          ground (arith, get-put id j (some x.count) x.pos),
        )
  ];
  back = λ j p e.
      ground
        (arith, get-put id j (some x.count) x.pos, get-put x.count p (some id) x.at, d.back j p);
  empty = λ i le. ground (arith, get-put x.count i (some id) x.at, d.empty i);
}

-- What the removal of `id` gives: a dense index that holds the other ids and not that one.
pub record IsRemoved (id : ℕ) (x y : PendingIndex) : Type 0 where
  pub dense : IsDense y
  pub members : (j : ℕ) → has j y.pos ≡ (if id == j then false else has j x.pos)

drop_last-IsRemoved :
    (id last : ℕ) (x : PendingIndex)
    → IsDense x
    → x.count ≡ last + 1
    → get id x.pos ≡ some last
    → IsRemoved id x (drop_last id last x)
unfolding drop_last
drop_last-IsRemoved id last x d top here = record {
  dense = record {
    slot = λ i lt.
        let (j, a, b) = d.slot i (omega arith) in
        (j, ground (arith, get-put last i none x.at), ground (arith, get-put id j none x.pos));
    back = λ j q e.
        ground (
          arith,
          get-put id j none x.pos,
          get-put last q none x.at,
          d.back j q,
          d.back id last here,
        );
    empty = λ i le. ground (arith, get-put last i none x.at, d.empty i);
  };
  members = λ j. ground (arith, get-put id j none x.pos);
}

move_into-IsRemoved :
    (id p last l : ℕ) (x : PendingIndex)
    → IsDense x
    → x.count ≡ last + 1
    → get id x.pos ≡ some p
    → p < last
    → get last x.at ≡ some l
    → get l x.pos ≡ some last
    → IsRemoved id x (drop_last id last (move_into p l x))
unfolding drop_last move_into
move_into-IsRemoved id p last l x d top here below at_last pos_l =
    let at_ = λ (i : ℕ). get-put last i none (put p (some l) x.at) in
    let at' = λ (i : ℕ). get-put p i (some l) x.at in
    let pos_ = λ (j : ℕ). get-put id j none (put l (some p) x.pos) in
    let pos' = λ (j : ℕ). get-put l j (some p) x.pos in
    record {
      dense = record {
        slot = λ i lt. elim (Bool-cases (p == i)) [
          | inl hole ↦ (l, ground (arith, at_ i, at' i), ground (arith, pos_ l, pos' l))
          | inr other ↦
              let (j, a, b) = d.slot i (omega arith) in
              (j, ground (arith, at_ i, at' i), ground (arith, pos_ j, pos' j))
        ];
        back = λ j q e. ground (arith, pos_ j, pos' j, at_ q, at' q, d.back j q, d.back id p here);
        empty = λ i le. ground (arith, at_ i, at' i, d.empty i);
      };
      members = λ j. ground (arith, pos_ j, pos' j);
    }

swap_remove_lem :
    (id p : ℕ) (x : PendingIndex)
    → IsDense x
    → get id x.pos ≡ some p
    → (y : PendingIndex) × (swap_remove id p x ≡ some y) × IsRemoved id x y
unfolding swap_remove
swap_remove_lem id p x d here =
    let (below, at_p) = d.back id p here in
    let last = x.count - 1 in
    let (l, at_last, pos_l) = d.slot last (omega arith) in
    elim (Bool-cases (p == last)) [
      | inl top ↦ (
        drop_last id last x,
        ground arith,
        drop_last-IsRemoved id last x d (omega arith) (ground arith),
      )
      | inr inner ↦ (
        drop_last id last (move_into p l x),
        ground arith,
        move_into-IsRemoved id p last l x d (omega arith) here (ground arith) at_last pos_l,
      )
    ]

-- Removing an indexed id from a dense index goes through without a trap, leaves a dense index, and
-- takes out that id alone.
pub remove_id_lem :
    (id p : ℕ) (x : PendingIndex)
    → IsDense x
    → get id x.pos ≡ some p
    → (y : PendingIndex) × (remove_id id x ≡ some y) × IsRemoved id x y
unfolding remove_id
remove_id_lem id p x d here = rw (here, remove_id) (swap_remove_lem id p x d here)

-- Adding an id that is not indexed, below the limit of the counter, goes through, leaves a dense
-- index, and adds that id alone.
pub add_id_lem :
    (id : ℕ) (x : PendingIndex)
    → IsDense x
    → get id x.pos ≡ none
    → x.count < u32_max
    → (y : PendingIndex) × (add_id id x ≡ some y)
      × IsDense y
      × ((j : ℕ) → has j y.pos ≡ (if id == j then true else has j x.pos))
unfolding add_id push_id
add_id_lem id x d new room = (
  push_id id x,
  ground arith,
  push_id-IsDense id x d new,
  λ j. ground (arith, get-put id j (some x.count) x.pos),
)
