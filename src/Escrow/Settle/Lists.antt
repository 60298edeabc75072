-- ===== src/Escrow/Settle/Lists.antt =====
-- `validate_worker_lists` (src/lib.rs): no address twice in a list, and none in both.
use arbiter_contract.Base.{ℕ, Bool, false, List, [], ◌∷◌, ◌==◌, ◌||◌, not}

unfoldable pub contains : ℕ → List ℕ → Bool
contains a [] = false
contains a (x ∷ xs) = x == a || contains a xs

-- The nested loops over one list: an address again later in it, or in `others`.
unfoldable pub has_clash : (others xs : List ℕ) → Bool
unfolding contains
has_clash others [] = false
has_clash others (a ∷ xs) = contains a xs || contains a others || has_clash others xs

unfoldable pub valid_worker_lists : (workers losing_workers : List ℕ) → Bool
unfolding has_clash
valid_worker_lists workers losing_workers =
    not (has_clash losing_workers workers || has_clash [] losing_workers)
