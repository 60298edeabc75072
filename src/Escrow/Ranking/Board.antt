-- ===== src/Escrow/Ranking/Board.antt =====
-- Leaderboards that are sorted, capped and without a worker twice, under update_leaderboard
-- (src/lib.rs).
use arbiter_contract.Base.{ℕ, ◌+◌, ◌-◌, ◌≤◌, ◌≡◌, refl, subst, ◌≢◌, [], ◌∷◌, length, arith}
use arbiter_contract.Escrow.Types.{leaderboard_cap}
use arbiter_contract.Escrow.Ranking.Defs.{
  Entries, erase_worker, insert_entry, drop_last, update_leaderboard,
}

-- Every count is at most `n`.
abbrev pub IsBelow : ℕ → Entries → Type 0
IsBelow n [] = Unit
IsBelow n ((w, c) ∷ es) = (c ≤ n) × IsBelow n es

abbrev pub IsSorted : Entries → Type 0
IsSorted [] = Unit
IsSorted ((w, c) ∷ es) = IsBelow c es × IsSorted es

abbrev pub IsAbsent : ℕ → Entries → Type 0
IsAbsent worker [] = Unit
IsAbsent worker ((w, c) ∷ es) = (w ≢ worker) × IsAbsent worker es

abbrev pub IsDistinct : Entries → Type 0
IsDistinct [] = Unit
IsDistinct ((w, c) ∷ es) = IsAbsent w es × IsDistinct es

IsBelow-mono : (m n : ℕ) (es : Entries) → m ≤ n → IsBelow m es → IsBelow n es
IsBelow-mono m n [] le h = tt
IsBelow-mono m n (e ∷ es) le h = (omega arith, IsBelow-mono m n es le h.1)

erase-IsBelow : (w n : ℕ) (es : Entries) → IsBelow n es → IsBelow n (erase_worker w es)
unfolding erase_worker
erase-IsBelow w n [] h = tt
erase-IsBelow w n (e ∷ es) h = ground (arith, erase-IsBelow w n es h.1)

erase-IsAbsent : (w n : ℕ) (es : Entries) → IsAbsent n es → IsAbsent n (erase_worker w es)
unfolding erase_worker
erase-IsAbsent w n [] h = tt
erase-IsAbsent w n (e ∷ es) h = ground (arith, erase-IsAbsent w n es h.1)

IsAbsent-subst : (v w : ℕ) (es : Entries) → v ≡ w → IsAbsent v es → IsAbsent w es
IsAbsent-subst v w es e h = subst (λ x. IsAbsent x es) e h

erase_worker_lem :
    (w : ℕ) (es : Entries)
    → IsSorted es
    → IsDistinct es
    → IsSorted (erase_worker w es)
      × IsDistinct (erase_worker w es)
      × IsAbsent w (erase_worker w es)
      × (length (erase_worker w es) ≤ length es)
unfolding erase_worker
erase_worker_lem w [] s d = (tt, tt, tt, omega arith)
erase_worker_lem w (e ∷ es) s d = ground (
  arith,
  erase_worker_lem w es s.1 d.1,
  erase-IsBelow w e.1 es s.0,
  erase-IsAbsent w e.0 es d.0,
  IsAbsent-subst e.0 w es,
)

insert-IsBelow : (w c n : ℕ) (es : Entries) → c ≤ n → IsBelow n es → IsBelow n (insert_entry w c es)
unfolding insert_entry
insert-IsBelow w c n [] le h = (le, tt)
insert-IsBelow w c n (e ∷ es) le h = ground (arith, insert-IsBelow w c n es le h.1)

insert-IsAbsent :
    (w c n : ℕ) (es : Entries) → w ≢ n → IsAbsent n es → IsAbsent n (insert_entry w c es)
unfolding insert_entry
insert-IsAbsent w c n [] ne h = (ne, tt)
insert-IsAbsent w c n (e ∷ es) ne h = ground (arith, insert-IsAbsent w c n es ne h.1)

insert_entry_lem :
    (w c : ℕ) (es : Entries)
    → IsSorted es
    → IsDistinct es
    → IsAbsent w es
    → IsSorted (insert_entry w c es)
      × IsDistinct (insert_entry w c es)
      × (length (insert_entry w c es) ≡ length es + 1)
unfolding insert_entry
insert_entry_lem w c [] s d a = (((tt), tt), (tt, tt), omega arith)
insert_entry_lem w c (e ∷ es) s d a = ground (
  arith,
  insert_entry_lem w c es s.1 d.1 a.1,
  insert-IsBelow w c e.1 es,
  insert-IsAbsent w c e.0 es,
  IsBelow-mono e.1 c es,
)

drop-IsBelow : (n : ℕ) (es : Entries) → IsBelow n es → IsBelow n (drop_last es)
unfolding drop_last
drop-IsBelow n [] h = tt
drop-IsBelow n (e ∷ []) h = tt
drop-IsBelow n (e ∷ f ∷ es) h = (h.0, drop-IsBelow n (f ∷ es) h.1)

drop-IsAbsent : (n : ℕ) (es : Entries) → IsAbsent n es → IsAbsent n (drop_last es)
unfolding drop_last
drop-IsAbsent n [] h = tt
drop-IsAbsent n (e ∷ []) h = tt
drop-IsAbsent n (e ∷ f ∷ es) h = (h.0, drop-IsAbsent n (f ∷ es) h.1)

drop_last_lem :
    (es : Entries)
    → IsSorted es
    → IsDistinct es
    → IsSorted (drop_last es) × IsDistinct (drop_last es) × (length (drop_last es) ≡ length es - 1)
unfolding drop_last
drop_last_lem [] s d = (tt, tt, refl)
drop_last_lem (e ∷ []) s d = (tt, tt, refl)
drop_last_lem (e ∷ f ∷ es) s d =
    let (sorted, distinct, len) = drop_last_lem (f ∷ es) s.1 d.1 in
    (
      (drop-IsBelow e.1 (f ∷ es) s.0, sorted),
      (drop-IsAbsent e.0 (f ∷ es) d.0, distinct),
      omega (arith, len),
    )

-- A board that is fit to be shown.
pub record IsBoard (es : Entries) : Type 0 where
  pub sorted : IsSorted es
  pub distinct : IsDistinct es
  pub capped : length es ≤ leaderboard_cap

-- Whatever worker and count are recorded, a sorted, duplicate-free board of at most 20 entries
-- stays one.
pub update_leaderboard-IsBoard :
    (worker count : ℕ) (es : Entries) → IsBoard es → IsBoard (update_leaderboard worker count es)
unfolding update_leaderboard
update_leaderboard-IsBoard worker count es board =
    let rest = erase_worker worker es in
    let (sorted, distinct, absent, shorter) =
      erase_worker_lem worker es board.sorted board.distinct in
    let (sorted', distinct', longer) = insert_entry_lem worker count rest sorted distinct absent in
    let (sorted_last, distinct_last, len) =
      drop_last_lem (insert_entry worker count rest) sorted' distinct' in
    ground (arith, board.capped)
