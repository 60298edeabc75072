-- ===== src/Escrow/Consensus/Defs.antt =====
-- `unanimous_dissenter` and `resolve_by_consensus` (src/lib.rs). The event of a dissent is left out.
use arbiter_contract.Base.{
  [], nat_eq, none, ℕ, List, Option, Bool, false, leb, true, ◌∷◌, ◌+◌, ◌==◌, some, if◌then◌else◌,
  ◌&&◌, ◌||◌, length, none, ltb, is_empty, ◌-◌,
}
use arbiter_contract.Escrow.Types.{
  State, ConsensusAnswer, default_established_answer_count, no_unanimous_consensus,
  empty_answer_set, max_quorum_size, quorum_too_large, duplicate_answer_address,
}
use arbiter_contract.Escrow.Call.{Env, Call, trap, ok, err, gets, fail_if, ◌>>=◌, ◌>>◌}
use arbiter_contract.Base.Table.{get_or, get}
use arbiter_contract.Escrow.Access.{require_admin}
use arbiter_contract.Escrow.Settle.Defs.{settle_resolution}

-- The first loop of `unanimous_dissenter`, from the index `i` on: how many answers differ from the
-- first one, and the index of the last that does.
unfoldable pub scan : (first i : ℕ) → List ConsensusAnswer → (mismatches mismatch_idx : ℕ) → ℕ × ℕ
scan first i [] mismatches mismatch_idx = (mismatches, mismatch_idx)
scan first i (entry ∷ rest) mismatches mismatch_idx =
    scan first (i + 1) rest (if entry.answer == first then mismatches else mismatches + 1)
      (if entry.answer == first then mismatch_idx else i)

-- The loop over the answers from the third on, against the second one.
unfoldable pub all_answer : (second : ℕ) → List ConsensusAnswer → Bool
all_answer second [] = true
all_answer second (entry ∷ rest) = entry.answer == second && all_answer second rest

-- `answers.get(1).unwrap()`, and the first answer as the odd one out if the others agree.
unfoldable pub first_dissents : (others : List ConsensusAnswer) → Call (Option ℕ)
first_dissents [] s = trap
first_dissents (second ∷ rest) s =
    if all_answer second.answer rest then ok (some 0, s) else err no_unanimous_consensus

-- The branches after the scan of `n` answers, of which `others` follow the first.
unfoldable pub judge :
    (n mismatches mismatch_idx : ℕ) → (others : List ConsensusAnswer) → Call (Option ℕ)
judge n mismatches mismatch_idx others s =
    if mismatches == 0
    then ok (none, s)
    else if ltb n 3
    then err no_unanimous_consensus
    else if mismatches == 1
    then ok (some mismatch_idx, s)
    else if mismatches == n - 1
    then first_dissents others s
    else err no_unanimous_consensus

unfoldable pub unanimous_dissenter : List ConsensusAnswer → Call (Option ℕ)
unanimous_dissenter [] s = trap
unanimous_dissenter (first ∷ others) s =
    let (mismatches, mismatch_idx) = scan first.answer 1 others 0 0 in
    judge (length (first ∷ others)) mismatches mismatch_idx others s

-- The nested loops of `resolve_by_consensus`: a worker again later in the answers.
unfoldable pub answers_clash : List ConsensusAnswer → Bool
answers_clash [] = false
answers_clash (entry ∷ rest) = names entry.worker rest || answers_clash rest
  where
    names : ℕ → List ConsensusAnswer → Bool
    names worker [] = false
    names worker (entry ∷ rest) = entry.worker == worker || names worker rest

-- `get_resolved_count(worker) >= get_established_answer_count()`
unfoldable pub established : State → (worker : ℕ) → Bool
established s worker =
    leb (get_or default_established_answer_count s.config.established_answer_count)
      (get_or 0 (get worker s.ranking.resolved_counts))

-- The loop that sorts the answers from the index `i` on into workers and losing workers. A dissenter
-- who is not established goes to neither list.
unfoldable pub sort_answers :
    State → (dissenter_idx : Option ℕ) → (i : ℕ) → List ConsensusAnswer → List ℕ × List ℕ
sort_answers s dissenter_idx i [] = ([], [])
sort_answers s dissenter_idx i (entry ∷ rest) =
    let (workers, losing_workers) = sort_answers s dissenter_idx (i + 1) rest in
    if is_at i dissenter_idx
    then (
      workers,
      if established s entry.worker then entry.worker ∷ losing_workers else losing_workers,
    )
    else (entry.worker ∷ workers, losing_workers)
  where
    is_at : ℕ → Option ℕ → Bool
    is_at i none = false
    is_at i (some j) = i == j

unfoldable pub resolve_by_consensus :
    Env → (question_id : ℕ) → List ConsensusAnswer → Call (Unit {0})
resolve_by_consensus env question_id answers = do
  require_admin env
  fail_if (is_empty answers) empty_answer_set
  fail_if (ltb max_quorum_size (length answers)) quorum_too_large
  fail_if (answers_clash answers) duplicate_answer_address
  dissenter_idx ← unanimous_dissenter answers
  (workers, losing_workers) ← gets (λ s. sort_answers s dissenter_idx 0 answers)
  settle_resolution env question_id workers losing_workers
