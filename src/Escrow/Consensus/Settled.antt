-- ===== src/Escrow/Consensus/Settled.antt =====
-- What `resolve_by_consensus` settles, and when it refuses (src/lib.rs).
use arbiter_contract.Base.{
  [], nat_eq, none, ℕ, suc, ◌+◌, ◌-◌, ◌≤◌, ◌<◌, ◌≡◌, refl, ◌∙◌, subst, true, false, arith, List,
  ◌∷◌, length, some, Option, if◌then◌else◌, ◌==◌, ltb, Bool, is_empty,
}
use arbiter_contract.Escrow.Types.{
  State, ConsensusAnswer, no_unanimous_consensus, empty_answer_set, max_quorum_size,
  quorum_too_large, duplicate_answer_address,
}
use arbiter_contract.Escrow.Call.{Outcome, ok, err, trap, Env}
use arbiter_contract.Escrow.Ensures.{
  ensured, Ensures, Ensures-read, Ensures-fail_if, require_admin-Reads, returned, failed,
  Ensures-mono, trapped,
}
use arbiter_contract.Escrow.Consensus.Verdict.{
  Agree, no_answers, agrees, Dissents, here, there, Verdict, unanimous, dissent,
  unanimous_dissenter-Verdict,
}
use arbiter_contract.Escrow.Consensus.Defs.{
  established, sort_answers, resolve_by_consensus, unanimous_dissenter, judge, first_dissents,
  answers_clash, all_answer,
}
use arbiter_contract.Escrow.Settle.Defs.{settle_resolution}
use arbiter_contract.Escrow.Access.{require_admin}
use arbiter_contract.Escrow.Binds.{bind_ok, passes, bind_err}

-- The workers that answered `c`, and the established ones that did not.
unfoldable pub agreeing : ℕ → List ConsensusAnswer → List ℕ
agreeing c [] = []
agreeing c (a ∷ xs) = let rest = agreeing c xs in if a.answer == c then a.worker ∷ rest else rest

unfoldable pub opposing : State → ℕ → List ConsensusAnswer → List ℕ
opposing s c [] = []
opposing s c (a ∷ xs) =
    let rest = opposing s c xs in
    if a.answer == c then rest else if established s a.worker then a.worker ∷ rest else rest

-- All answers are `c`, or all but one of at least three.
pub data IsConsensus (c : ℕ) (xs : List ConsensusAnswer) : Type 0 where
  undisputed : Agree c xs → IsConsensus c xs
  opposed : (i : ℕ) → 3 ≤ length xs → Dissents c i xs → IsConsensus c xs

module _ (s : State) (c : ℕ) where
  Agree-sort :
      (i : ℕ) (xs : List ConsensusAnswer)
      → Agree c xs
      → sort_answers s none i xs ≡ (agreeing c xs, opposing s c xs)
  unfolding sort_answers agreeing opposing
  Agree-sort i _ no_answers = refl
  Agree-sort i _ (agrees a xs e h) = rw (Agree-sort (i + 1) xs h, e) (ground arith)

  -- Past the dissenter's index.
  Agree-sort_past :
      (j i : ℕ) (xs : List ConsensusAnswer)
      → j < i
      → Agree c xs
      → sort_answers s (some j) i xs ≡ (agreeing c xs, opposing s c xs)
  unfolding sort_answers agreeing opposing
  Agree-sort_past j i _ lt no_answers = refl
  Agree-sort_past j i _ lt (agrees a xs e h) =
      rw (Agree-sort_past j (i + 1) xs (omega arith) h, e) (ground arith)

  Dissents-sort :
      (k i : ℕ) (xs : List ConsensusAnswer)
      → Dissents c k xs
      → sort_answers s (some (i + k)) i xs ≡ (agreeing c xs, opposing s c xs)
  unfolding sort_answers agreeing opposing
  Dissents-sort _ i _ (here a xs ne h) =
      rw (Agree-sort_past (i + 0) (i + 1) xs (omega arith) h) (ground (arith, ne))
  Dissents-sort _ i _ (there k a xs e h) =
      let at : i + 1 + k ≡ i + suc k = omega arith in
      let rest : sort_answers s (some (i + suc k)) (i + 1) xs ≡ (agreeing c xs, opposing s c xs) =
        subst (λ j. sort_answers s (some j) (i + 1) xs ≡ (agreeing c xs, opposing s c xs)) at
          (Dissents-sort k (i + 1) xs h) in
      rw (rest, e) (ground arith)

Verdict-sort :
    (s : State) (xs : List ConsensusAnswer) (v : Option ℕ)
    → Verdict xs v
    → (c : ℕ) × IsConsensus c xs × (sort_answers s v 0 xs ≡ (agreeing c xs, opposing s c xs))
Verdict-sort s _ _ (unanimous c a xs h) = (c, undisputed h, Agree-sort s c 0 (a ∷ xs) h)
Verdict-sort s _ _ (dissent c i xs big h) = (
  c,
  opposed i big h,
  subst (λ j. sort_answers s (some j) 0 xs ≡ (agreeing c xs, opposing s c xs)) (omega arith)
      (Dissents-sort s c i 0 xs h),
)

-- What a resolution by consensus comes down to.
abbrev IsResolved : Env → ℕ → List ConsensusAnswer → State → State → Type 0
IsResolved env id xs s t =
    (c : ℕ) × IsConsensus c xs
    × (settle_resolution env id (agreeing c xs) (opposing s c xs) s ≡ ok (tt, t))

Ensures-self : (o : Outcome (Unit {0} × State)) → Ensures (λ _ t. o ≡ ok (tt, t)) o
Ensures-self (ok (a, t)) = returned refl
Ensures-self (err e) = failed
Ensures-self trap = trapped

settled_by :
    (env : Env) (id : ℕ) (xs : List ConsensusAnswer) (v : Option ℕ) (s : State)
    → Verdict xs v
    → Ensures
        (λ _ t. IsResolved env id xs s t)
        (settle_resolution env id (sort_answers s v 0 xs).0 (sort_answers s v 0 xs).1 s)
settled_by env id xs v s verdict =
    let (c, is_, sorted) = Verdict-sort s xs v verdict in
    rw sorted (
      Ensures-mono (λ _ t e. (c, is_, e))
        (Ensures-self (settle_resolution env id (agreeing c xs) (opposing s c xs) s)))

resolve_by_consensus-Ensures :
    (env : Env) (id : ℕ) (xs : List ConsensusAnswer) (s : State)
    → Ensures (λ _ t. IsResolved env id xs s t) (resolve_by_consensus env id xs s)
unfolding resolve_by_consensus
resolve_by_consensus-Ensures env id xs s =
    Ensures-read (require_admin env) _ s (require_admin-Reads env s) λ _ _.
      Ensures-fail_if _ (is_empty xs) empty_answer_set _ s λ _.
        Ensures-fail_if _ (ltb max_quorum_size (length xs)) quorum_too_large _ s λ _.
          Ensures-fail_if _ (answers_clash xs) duplicate_answer_address _ s λ _.
            Ensures-read (unanimous_dissenter xs) _ s (unanimous_dissenter-Verdict xs s)
              λ v verdict. settled_by env id xs v s verdict

-- A resolution by consensus that returns has an answer that all gave, or all but one of at least three
-- workers. It settles the question with the workers that gave it as winners and, as the only loser,
-- the one that did not if established; otherwise nobody loses.
pub resolve_by_consensus_lem :
    (env : Env) (id : ℕ) (xs : List ConsensusAnswer) (s t : State)
    → resolve_by_consensus env id xs s ≡ ok (tt, t)
    → (c : ℕ) × IsConsensus c xs
      × (settle_resolution env id (agreeing c xs) (opposing s c xs) s ≡ ok (tt, t))
resolve_by_consensus_lem env id xs s t e = ensured _ (resolve_by_consensus-Ensures env id xs s) e

-- A verdict, or the error of a split quorum.
data Decides (s : State) : Outcome (Option ℕ × State) → Type 0 where
  decided : (v : Option ℕ) → Decides s (ok (v, s))
  split : Decides s (err no_unanimous_consensus)

module _ (s : State) where
  Decides-if :
      (b : Bool) (o o' : Outcome (Option ℕ × State))
      → Decides s o
      → Decides s o'
      → Decides s (if b then o else o')
  Decides-if true o o' h k = h
  Decides-if false o o' h k = k

  judge-Decides :
      (n m i : ℕ) (b : ConsensusAnswer) (xs : List ConsensusAnswer)
      → Decides s (judge n m i (b ∷ xs) s)
  unfolding judge first_dissents
  judge-Decides n m i b xs = Decides-if (m == 0) _ _ (decided none) (
      Decides-if (ltb n 3) _ _ split (
        Decides-if (m == 1) _ _ (decided (some i)) (
          Decides-if (m == n - 1) _ _
            (Decides-if (all_answer b.answer xs) _ _ (decided (some 0)) split) split)))

  single-Decides : (m i : ℕ) → Decides s (judge 1 m i [] s)
  unfolding judge
  single-Decides m i = Decides-if (m == 0) _ _ (decided none) split

  unanimous_dissenter-Decides :
      (xs : List ConsensusAnswer) → is_empty xs ≡ false → Decides s (unanimous_dissenter xs s)
  unfolding unanimous_dissenter
  unanimous_dissenter-Decides [] some_ = absurd (cc some_)
  unanimous_dissenter-Decides (a ∷ []) some_ = single-Decides _ _
  unanimous_dissenter-Decides (a ∷ b ∷ xs) some_ = judge-Decides _ _ _ b xs

  split_lem :
      (xs : List ConsensusAnswer) (o : Outcome (Option ℕ × State))
      → unanimous_dissenter xs s ≡ o
      → ((c : ℕ) → IsConsensus c xs → ⊥)
      → Decides s o
      → o ≡ err no_unanimous_consensus
  split_lem xs _ e none_ (decided v) =
      let (c, is_, _) = Verdict-sort s xs v (ensured _ (unanimous_dissenter-Verdict xs s) e).1 in
      absurd (none_ c is_)
  split_lem xs _ e none_ split = refl

-- Where no answer is given by all, or by all but one of at least three, the admin's resolution by
-- consensus of answers from different workers, within the size limit, returns the error of a split
-- quorum.
pub resolve_by_consensus-splits :
    (env : Env) (id : ℕ) (xs : List ConsensusAnswer) (s : State)
    → require_admin env s ≡ ok (tt, s)
    → is_empty xs ≡ false
    → length xs ≤ max_quorum_size
    → answers_clash xs ≡ false
    → ((c : ℕ) → IsConsensus c xs → ⊥)
    → resolve_by_consensus env id xs s ≡ err no_unanimous_consensus
unfolding resolve_by_consensus
resolve_by_consensus-splits env id xs s admin some_ small apart none_ =
    let verdict : unanimous_dissenter xs s ≡ err no_unanimous_consensus =
      split_lem s xs _ refl none_ (unanimous_dissenter-Decides s xs some_) in
    let fits : ltb max_quorum_size (length xs) ≡ false = ground arith in
    bind_ok (require_admin env) _ s admin
    ∙ passes (is_empty xs) empty_answer_set _ s some_
    ∙ passes (ltb max_quorum_size (length xs)) quorum_too_large _ s fits
    ∙ passes (answers_clash xs) duplicate_answer_address _ s apart
    ∙ bind_err (unanimous_dissenter xs) _ s verdict
