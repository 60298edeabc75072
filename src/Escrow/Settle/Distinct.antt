-- ===== src/Escrow/Settle/Distinct.antt =====
-- The decision of validate_worker_lists (src/lib.rs).
use arbiter_contract.Base.{ℕ, ◌≡◌, ◌≢◌, ◌↔◌, refl, true, false, List, [], ◌∷◌, arith, All}
use arbiter_contract.Escrow.Settle.Lists.{contains, has_clash, valid_worker_lists}

-- No element of the list is `a`.
abbrev pub IsFree : ℕ → List ℕ → Type 0
IsFree a xs = All (λ x. x ≢ a) xs

-- No element stands twice in `xs`, or in `xs` and in `others`.
abbrev pub IsApart : (others xs : List ℕ) → Type 0
IsApart others [] = Unit {0}
IsApart others (a ∷ xs) = IsFree a xs × IsFree a others × IsApart others xs

contains_iff : (a : ℕ) (xs : List ℕ) → (contains a xs ≡ false) ↔ IsFree a xs
unfolding contains
contains_iff a [] = (λ _. tt, λ _. refl)
contains_iff a (x ∷ xs) = ground (arith, contains_iff a xs)

has_clash_iff : (others xs : List ℕ) → (has_clash others xs ≡ false) ↔ IsApart others xs
unfolding has_clash
has_clash_iff others [] = (λ _. tt, λ _. refl)
has_clash_iff others (a ∷ xs) =
    ground (arith, contains_iff a xs, contains_iff a others, has_clash_iff others xs)

-- The validation accepts two lists exactly if no address stands twice in one of them or in both.
pub valid_worker_lists_iff :
    (workers losers : List ℕ)
    → (valid_worker_lists workers losers ≡ true) ↔ (IsApart losers workers × IsApart [] losers)
unfolding valid_worker_lists
valid_worker_lists_iff workers losers =
    ground (arith, has_clash_iff losers workers, has_clash_iff [] losers)
