-- ===== src/Escrow/Ranking/Defs.antt =====
-- `record_resolved_credit` and `update_leaderboard` (src/lib.rs).
use arbiter_contract.Base.{ℕ, List, [], ◌∷◌, ltb, ◌==◌, if◌then◌else◌, length, nat_eq}
use arbiter_contract.Base.Table.{get, set, get_or}
use arbiter_contract.Escrow.Types.{leaderboard_cap}
use arbiter_contract.Escrow.Call.{Call, ◌>>=◌, gets, modify, increment}

abbrev pub Entries : Type 0
Entries = List (ℕ × ℕ)

-- The first entry of the worker goes.
unfoldable pub erase_worker : ℕ → Entries → Entries
erase_worker worker [] = []
erase_worker worker ((w, c) ∷ es) = if w == worker then es else (w, c) ∷ erase_worker worker es

-- Before the first entry with a strictly smaller count.
unfoldable pub insert_entry : (worker count : ℕ) → Entries → Entries
insert_entry worker count [] = (worker, count) ∷ []
insert_entry worker count ((w, c) ∷ es) =
    if ltb c count then (worker, count) ∷ (w, c) ∷ es else (w, c) ∷ insert_entry worker count es

unfoldable pub drop_last : Entries → Entries
drop_last [] = []
drop_last (e ∷ []) = []
drop_last (e ∷ f ∷ es) = e ∷ drop_last (f ∷ es)

unfoldable pub update_leaderboard : (worker count : ℕ) → Entries → Entries
unfolding erase_worker insert_entry drop_last
update_leaderboard worker count entries =
    let placed = insert_entry worker count (erase_worker worker entries) in
    if ltb leaderboard_cap (length placed) then drop_last placed else placed

unfoldable pub record_resolved_credit : ℕ → Call (Unit {0})
record_resolved_credit worker = do
  count ← increment (← gets (λ s. get_or 0 (get worker s.ranking.resolved_counts)))
  modify λ s. record s {
    ranking = record {
      resolved_counts = set worker count s.ranking.resolved_counts;
      leaderboard = update_leaderboard worker count s.ranking.leaderboard;
    };
  }
