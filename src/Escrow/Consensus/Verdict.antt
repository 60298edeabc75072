-- ===== src/Escrow/Consensus/Verdict.antt =====
-- Who dissents: `unanimous_dissenter` (src/lib.rs) against a description of the answers.
use arbiter_contract.Base.{
  [], nat_eq, none, ℕ, suc, ◌+◌, ◌-◌, ◌≤◌, ◌≡◌, ◌≢◌, inl, inr, refl, ◌∙◌, subst, true, arith, List,
  ◌∷◌, length, some, Option, if◌then◌else◌, ◌==◌, ltb, Bool-cases,
}
use arbiter_contract.Escrow.Types.{State, ConsensusAnswer}
use arbiter_contract.Escrow.Ensures.{Ensures, Ensures-if, returned, failed, trapped}
use arbiter_contract.Escrow.Call.{ok}
use arbiter_contract.Escrow.Consensus.Defs.{
  scan, all_answer, first_dissents, judge, unanimous_dissenter,
}

-- Every answer is `c`.
pub data Agree (c : ℕ) : List ConsensusAnswer → Type 0 where
  no_answers : Agree c []
  agrees :
      (entry : ConsensusAnswer) (rest : List ConsensusAnswer)
      → entry.answer ≡ c
      → Agree c rest
      → Agree c (entry ∷ rest)

-- The answer at the index is not `c`, and every other one is.
pub data Dissents (c : ℕ) : ℕ → List ConsensusAnswer → Type 0 where
  here :
      (entry : ConsensusAnswer) (rest : List ConsensusAnswer)
      → entry.answer ≢ c
      → Agree c rest
      → Dissents c 0 (entry ∷ rest)
  there :
      (i : ℕ) (entry : ConsensusAnswer) (rest : List ConsensusAnswer)
      → entry.answer ≡ c
      → Dissents c i rest
      → Dissents c (suc i) (entry ∷ rest)

-- How many answers are not `c`.
unfoldable pub mismatches : ℕ → List ConsensusAnswer → ℕ
mismatches c [] = 0
mismatches c (entry ∷ rest) =
    let others = mismatches c rest in if entry.answer == c then others else suc others

pub scan-mismatches :
    (c i : ℕ) (xs : List ConsensusAnswer) (m d : ℕ) → (scan c i xs m d).0 ≡ m + mismatches c xs
unfolding scan mismatches
scan-mismatches c i [] m d = omega arith
scan-mismatches c i (a ∷ xs) m d =
    let rest =
      scan-mismatches c (i + 1) xs (if a.answer == c then m else m + 1)
        (if a.answer == c then d else i) in
    rest ∙ ground arith

pub Agree-mismatches : (c : ℕ) (xs : List ConsensusAnswer) → Agree c xs → mismatches c xs ≡ 0
unfolding mismatches
Agree-mismatches c _ no_answers = refl
Agree-mismatches c _ (agrees a xs e h) = ground (arith, e, Agree-mismatches c xs h)

mismatches-Agree : (c : ℕ) (xs : List ConsensusAnswer) → mismatches c xs ≡ 0 → Agree c xs
unfolding mismatches
mismatches-Agree c [] e = no_answers
mismatches-Agree c (a ∷ xs) e = agrees a xs (ground arith) (mismatches-Agree c xs (ground arith))

mismatches-le : (c : ℕ) (xs : List ConsensusAnswer) → mismatches c xs ≤ length xs
unfolding mismatches
mismatches-le c [] = omega arith
mismatches-le c (a ∷ xs) = ground (arith, mismatches-le c xs)

scan_none :
    (c i : ℕ) (xs : List ConsensusAnswer) (m d : ℕ) → mismatches c xs ≡ 0 → (scan c i xs m d).1 ≡ d
unfolding scan mismatches
scan_none c i [] m d e = refl
scan_none c i (a ∷ xs) m d e =
    scan_none c (i + 1) xs (if a.answer == c then m else m + 1) (if a.answer == c then d else i)
      (ground arith)
    ∙ ground arith

-- One mismatch is at the index that the scan ends with.
scan_one :
    (c i : ℕ) (xs : List ConsensusAnswer) (m d : ℕ)
    → mismatches c xs ≡ 1
    → (k : ℕ) × Dissents c k xs × ((scan c i xs m d).1 ≡ i + k)
unfolding scan mismatches
scan_one c i [] m d e = absurd (omega arith)
scan_one c i (a ∷ xs) m d e = elim (Bool-cases (a.answer == c)) [
  | inl same ↦
      let (k, lone, at) =
        scan_one c (i + 1) xs (if a.answer == c then m else m + 1) (if a.answer == c then d else i)
          (ground (arith, same)) in
      (suc k, there k a xs (ground (arith, same)) lone, omega arith)
  | inr other ↦
      let none_ : mismatches c xs ≡ 0 = ground (arith, other) in
      (
        0,
        here a xs (ground (arith, other)) (mismatches-Agree c xs none_),
        scan_none c (i + 1) xs (if a.answer == c then m else m + 1) (if a.answer == c then d else i)
              none_
            ∙ ground (arith, other),
      )
]

pub Dissents-mismatches :
    (c k : ℕ) (xs : List ConsensusAnswer) → Dissents c k xs → mismatches c xs ≡ 1
unfolding mismatches
Dissents-mismatches c _ _ (here a xs e h) = ground (arith, e, Agree-mismatches c xs h)
Dissents-mismatches c _ _ (there i a xs e h) = ground (arith, e, Dissents-mismatches c i xs h)

pub Dissents-scan :
    (c k i : ℕ) (xs : List ConsensusAnswer) (m d : ℕ)
    → Dissents c k xs
    → (scan c i xs m d).1 ≡ i + k
unfolding scan mismatches
Dissents-scan c _ i _ m d (here a xs e h) =
    scan_none c (i + 1) xs (if a.answer == c then m else m + 1) (if a.answer == c then d else i)
      (Agree-mismatches c xs h)
    ∙ ground (arith, e)
Dissents-scan c _ i _ m d (there k a xs e h) =
    Dissents-scan c k (i + 1) xs (if a.answer == c then m else m + 1)
      (if a.answer == c then d else i) h
    ∙ omega arith

pub Agree-all_answer : (c : ℕ) (xs : List ConsensusAnswer) → Agree c xs → all_answer c xs ≡ true
unfolding all_answer
Agree-all_answer c _ no_answers = refl
Agree-all_answer c _ (agrees a xs e h) = ground (arith, e, Agree-all_answer c xs h)

all_answer-Agree : (c : ℕ) (xs : List ConsensusAnswer) → all_answer c xs ≡ true → Agree c xs
unfolding all_answer
all_answer-Agree c [] e = no_answers
all_answer-Agree c (a ∷ xs) e = agrees a xs (ground arith) (all_answer-Agree c xs (ground arith))

-- What the answers say: they all agree, or the one at an index differs from all of at least two others,
-- which agree.
pub data Verdict : List ConsensusAnswer → Option ℕ → Type 0 where
  unanimous :
      (c : ℕ) (a : ConsensusAnswer) (xs : List ConsensusAnswer)
      → Agree c (a ∷ xs)
      → Verdict (a ∷ xs) none
  dissent :
      (c i : ℕ) (xs : List ConsensusAnswer) → 3 ≤ length xs → Dissents c i xs → Verdict xs (some i)

later_Verdict :
    (a : ConsensusAnswer) (xs : List ConsensusAnswer) (s : State) (j : ℕ)
    → (k : ℕ) × Dissents a.answer k xs × (j ≡ 1 + k)
    → 2 ≤ length xs
    → Ensures (λ v t. (t ≡ s) × Verdict (a ∷ xs) v) (ok (some j, s))
later_Verdict a xs s j (k, lone, at) big =
    let at' : suc k ≡ j = omega (arith, at) in
    returned (
      refl,
      subst (λ i. Verdict (a ∷ xs) (some i)) at'
          (dissent a.answer (suc k) (a ∷ xs) (omega (arith, big)) (there k a xs refl lone)),
    )

first_dissents-Verdict :
    (a : ConsensusAnswer) (xs : List ConsensusAnswer) (s : State)
    → mismatches a.answer xs ≡ length xs
    → 2 ≤ length xs
    → Ensures (λ v t. (t ≡ s) × Verdict (a ∷ xs) v) (first_dissents xs s)
unfolding first_dissents mismatches
first_dissents-Verdict a [] s e le = trapped
first_dissents-Verdict a (b ∷ xs) s e le =
    let differ : a.answer ≢ b.answer = λ same. ground (arith, same, mismatches-le a.answer xs) in
    Ensures-if (all_answer b.answer xs) _ _
      (λ h. returned (
        refl,
        dissent b.answer 0 (a ∷ b ∷ xs) (omega arith)
            (here a (b ∷ xs) differ (agrees b xs refl (all_answer-Agree b.answer xs h))),
      ))
      (λ _. failed)

pub unanimous_dissenter-Verdict :
    (xs : List ConsensusAnswer) (s : State)
    → Ensures (λ v t. (t ≡ s) × Verdict xs v) (unanimous_dissenter xs s)
unfolding unanimous_dissenter judge
unanimous_dissenter-Verdict [] s = trapped
unanimous_dissenter-Verdict (a ∷ xs) s =
    let found = scan a.answer 1 xs 0 0 in
    let count : found.0 ≡ mismatches a.answer xs =
      scan-mismatches a.answer 1 xs 0 0 ∙ omega arith in
    Ensures-if (found.0 == 0) _ _
      (λ z. returned (
        refl,
        unanimous a.answer a xs
            (agrees a xs refl (mismatches-Agree a.answer xs (ground (arith, z, count)))),
      ))
      λ z.
        Ensures-if (ltb (length (a ∷ xs)) 3) _ _ (λ _. failed)
          λ big.
            Ensures-if (found.0 == 1) _ _
              (λ one.
                later_Verdict a xs s found.1
                  (scan_one a.answer 1 xs 0 0 (ground (arith, one, count))) (ground (arith, big)))
              λ many.
                Ensures-if (found.0 == length (a ∷ xs) - 1) _ _
                  (λ all.
                    first_dissents-Verdict a xs s (ground (arith, all, count))
                      (ground (arith, big)))
                  (λ _. failed)
