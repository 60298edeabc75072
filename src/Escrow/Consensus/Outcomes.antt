-- ===== src/Escrow/Consensus/Outcomes.antt =====
-- What `unanimous_dissenter` returns for each verdict (src/lib.rs).
use arbiter_contract.Base.{
  nat_eq, none, ℕ, suc, ◌≤◌, ◌≡◌, ◌≢◌, ◌↔◌, refl, sym, ◌∙◌, subst, arith, List, ◌∷◌, length, some,
  Option,
}
use arbiter_contract.Escrow.Types.{State, ConsensusAnswer}
use arbiter_contract.Escrow.Call.{ok}
use arbiter_contract.Escrow.Ensures.{ensured}
use arbiter_contract.Escrow.Consensus.Defs.{scan, first_dissents, judge, unanimous_dissenter}
use arbiter_contract.Escrow.Consensus.Verdict.{
  Agree, no_answers, agrees, Dissents, here, there, Verdict, unanimous, dissent, mismatches,
  scan-mismatches, Agree-mismatches, Dissents-mismatches, Dissents-scan, Agree-all_answer,
  unanimous_dissenter-Verdict,
}

-- None of the answers is `c`, where all are `d`.
Agree-none :
    (c d : ℕ) (xs : List ConsensusAnswer) → c ≢ d → Agree d xs → mismatches c xs ≡ length xs
unfolding mismatches
Agree-none c d _ ne no_answers = refl
Agree-none c d _ ne (agrees a xs e h) = ground (arith, ne, e, Agree-none c d xs ne h)

module _ (a : ConsensusAnswer) (xs : List ConsensusAnswer) (s : State) where
  judged :
      (m i : ℕ)
      → (scan a.answer 1 xs 0 0).0 ≡ m
      → (scan a.answer 1 xs 0 0).1 ≡ i
      → unanimous_dissenter (a ∷ xs) s ≡ judge (length (a ∷ xs)) m i xs s
  unfolding unanimous_dissenter
  judged m i e f = rw (e, f) refl

  count : (m : ℕ) → mismatches a.answer xs ≡ m → (scan a.answer 1 xs 0 0).0 ≡ m
  count m e = scan-mismatches a.answer 1 xs 0 0 ∙ omega (arith, e)

  unanimous_lem : mismatches a.answer xs ≡ 0 → unanimous_dissenter (a ∷ xs) s ≡ ok (none, s)
  unfolding judge
  unanimous_lem e = judged 0 _ (count 0 e) refl ∙ refl

  later_lem :
      (k : ℕ)
      → 3 ≤ length (a ∷ xs)
      → Dissents a.answer k xs
      → unanimous_dissenter (a ∷ xs) s ≡ ok (some (suc k), s)
  unfolding judge
  later_lem k big h =
      judged 1 (suc k) (count 1 (Dissents-mismatches a.answer k xs h))
        (Dissents-scan a.answer k 1 xs 0 0 h ∙ omega arith)
      ∙ ground (arith, big)

first_lem :
    (a b : ConsensusAnswer) (xs : List ConsensusAnswer) (c : ℕ) (s : State)
    → 3 ≤ length (a ∷ b ∷ xs)
    → a.answer ≢ c
    → b.answer ≡ c
    → Agree c xs
    → unanimous_dissenter (a ∷ b ∷ xs) s ≡ ok (some 0, s)
unfolding judge first_dissents
first_lem a b xs c s big ne e h =
    judged a (b ∷ xs) s (length (b ∷ xs)) _
      (count a (b ∷ xs) s _ (Agree-none a.answer c (b ∷ xs) ne (agrees b xs e h))) refl
    ∙ ground (arith, big, Agree-all_answer b.answer xs (subst (λ d. Agree d xs) (sym e) h))

Verdict-unanimous_dissenter :
    (xs : List ConsensusAnswer) (v : Option ℕ) (s : State)
    → Verdict xs v
    → unanimous_dissenter xs s ≡ ok (v, s)
Verdict-unanimous_dissenter _ _ s (unanimous c _ _ (agrees a xs e h)) =
    unanimous_lem a xs s (Agree-mismatches a.answer xs (subst (λ d. Agree d xs) (sym e) h))
Verdict-unanimous_dissenter _ _ s (dissent c _ _ big (there i a xs e h)) =
    later_lem a xs s i big (subst (λ d. Dissents d i xs) (sym e) h)
Verdict-unanimous_dissenter _ _ s (dissent c _ _ big (here a _ ne (agrees b xs e h))) =
    first_lem a b xs c s big ne e h
Verdict-unanimous_dissenter _ _ s (dissent c _ _ big (here a _ ne no_answers)) =
    absurd (omega arith)

-- The code returns a verdict exactly when the answers bear it out: that all agree, or that the one at
-- an index alone differs from all of at least two others.
pub unanimous_dissenter_iff :
    (xs : List ConsensusAnswer) (v : Option ℕ) (s : State)
    → (unanimous_dissenter xs s ≡ ok (v, s)) ↔ Verdict xs v
unanimous_dissenter_iff xs v s =
    (λ e. (ensured _ (unanimous_dissenter-Verdict xs s) e).1, Verdict-unanimous_dissenter xs v s)
