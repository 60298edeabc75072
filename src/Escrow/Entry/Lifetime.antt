-- ===== src/Escrow/Entry/Lifetime.antt =====
-- The lifetime that extend_question_ttl asks for (src/lib.rs).
use arbiter_contract.Base.{◌+◌, ◌≤◌, arith}
use arbiter_contract.Escrow.Types.{Question, refund_grace_ledgers, u32_max}
use arbiter_contract.Escrow.Call.{Env}
use arbiter_contract.Escrow.Entry.Refund.{deadline, question_extend_to}

-- If the host's highest lifetime allows for the time left to the deadline with the grace period, and
-- that fits the ledger numbers, then the extended entry outlives the deadline by the grace period.
pub question_extend_to-covers :
    (env : Env) (q : Question)
    → deadline q + refund_grace_ledgers ≤ env.sequence + env.max_ttl
    → deadline q + refund_grace_ledgers ≤ env.sequence + u32_max
    → deadline q + refund_grace_ledgers ≤ env.sequence + question_extend_to env q
unfolding question_extend_to
question_extend_to-covers env q fits range = omega arith
