-- ===== src/Escrow/Registry/Reputation.antt =====
-- Reputation counters (src/lib.rs: record_reputation).
use arbiter_contract.Base.{
  [], ℕ, suc, ◌+◌, ◌≡◌, ◌≢◌, ◌∙◌, refl, ap, some, List, ◌∷◌, arith, nat_eq, true, ◌==◌, ltb,
  if◌then◌else◌, Bool,
}
use arbiter_contract.Base.Table.{Table, get, has, set, get-put, get_or}
use arbiter_contract.Escrow.Types.{State, ReputationInfo, u32_max, reputation_already_recorded}
use arbiter_contract.Escrow.Call.{Env, ok, increment}
use arbiter_contract.Escrow.Ensures.{
  Ensures, Reads, Ensures-if, Ensures-read, Ensures-bind, Ensures-mono, Ensures-fail_if, returned,
  trapped, ensured, require_admin-Reads,
}
use arbiter_contract.Escrow.Registry.Defs.{
  no_reputation, write_registry, count_matched, read_reputation, write_reputation,
  record_reputation, count_lost,
}
use arbiter_contract.Escrow.Access.{require_admin}

increment-Is : (n : ℕ) (s : State) → Reads (λ m. m ≡ n + 1) s (increment n s)
unfolding increment
increment-Is n s = Ensures-if (ltb u32_max (n + 1)) _ _ (λ _. trapped) (λ _. returned (refl, refl))

-- How often an address stands in a list.
unfoldable pub occurrences : ℕ → List ℕ → ℕ
occurrences a [] = 0
occurrences a (x ∷ xs) = let rest = occurrences a xs in if x == a then suc rest else rest

abbrev pub reputation_of : ℕ → State → ReputationInfo
reputation_of a s = get_or no_reputation (get a s.registry.reputations)

abbrev IsCounted : (matched lost : List ℕ) → State → State → Type 0
IsCounted matched lost s t =
    ((a : ℕ)
      → ((reputation_of a t).matched ≡ (reputation_of a s).matched + occurrences a matched)
        × ((reputation_of a t).lost ≡ (reputation_of a s).lost + occurrences a lost))
    × (t.registry.reputation_recorded ≡ s.registry.reputation_recorded)

matched_lem :
    (a w n : ℕ) (ws : List ℕ) (m : Table ℕ ReputationInfo)
    → n ≡ (get_or no_reputation (get w m)).matched + 1
    → let m' = set w (record (get_or no_reputation (get w m)) { matched = n }) m in
      ((get_or no_reputation (get a m')).matched + occurrences a ws
        ≡ (get_or no_reputation (get a m)).matched + occurrences a (w ∷ ws))
      × ((get_or no_reputation (get a m')).lost ≡ (get_or no_reputation (get a m)).lost)
unfolding occurrences
matched_lem a w n ws m e =
    let own = record (get_or no_reputation (get w m)) { matched = n } in
    (ground (arith, e, get-put w a (some own) m), ground (arith, get-put w a (some own) m))

count_matched-IsCounted :
    (ws : List ℕ) (s : State) → Ensures (λ _ t. IsCounted ws [] s t) (count_matched ws s)
unfolding count_matched read_reputation write_reputation write_registry occurrences
count_matched-IsCounted [] s = returned (λ a. (omega arith, omega arith), refl)
count_matched-IsCounted (w ∷ ws) s =
    Ensures-read (increment (reputation_of w s).matched) _ s (increment-Is _ s) λ n e.
      Ensures-mono
        (λ _ t (counts, same). (
          λ a.
              let (one, kept) = matched_lem a w n ws s.registry.reputations e in
              (omega (arith, one, (counts a).0), omega (arith, kept, (counts a).1)),
          same,
        ))
        (count_matched-IsCounted ws _)

lost_lem :
    (a w n : ℕ) (ws : List ℕ) (m : Table ℕ ReputationInfo)
    → n ≡ (get_or no_reputation (get w m)).lost + 1
    → let m' = set w (record (get_or no_reputation (get w m)) { lost = n }) m in
      ((get_or no_reputation (get a m')).lost + occurrences a ws
        ≡ (get_or no_reputation (get a m)).lost + occurrences a (w ∷ ws))
      × ((get_or no_reputation (get a m')).matched ≡ (get_or no_reputation (get a m)).matched)
unfolding occurrences
lost_lem a w n ws m e =
    let own = record (get_or no_reputation (get w m)) { lost = n } in
    (ground (arith, e, get-put w a (some own) m), ground (arith, get-put w a (some own) m))

count_lost-IsCounted :
    (ws : List ℕ) (s : State) → Ensures (λ _ t. IsCounted [] ws s t) (count_lost ws s)
unfolding count_lost read_reputation write_reputation write_registry occurrences
count_lost-IsCounted [] s = returned (λ a. (omega arith, omega arith), refl)
count_lost-IsCounted (w ∷ ws) s =
    Ensures-read (increment (reputation_of w s).lost) _ s (increment-Is _ s) λ n e.
      Ensures-mono
        (λ _ t (counts, same). (
          λ a.
              let (one, kept) = lost_lem a w n ws s.registry.reputations e in
              (omega (arith, kept, (counts a).0), omega (arith, one, (counts a).1)),
          same,
        ))
        (count_lost-IsCounted ws _)

recorded_lem : (id : ℕ) (m : Table ℕ Bool) → has id (set id true m) ≡ true
recorded_lem id m = ground (arith, get-put id id (some true) m)

-- What one recording leaves: every address has as many more matches and losses as it stands in the
-- two lists, and the question counts as recorded.
abbrev IsRecorded : ℕ → (workers losers : List ℕ) → State → State → Type 0
IsRecorded id workers losers s t =
    ((a : ℕ)
      → ((reputation_of a t).matched ≡ (reputation_of a s).matched + occurrences a workers)
        × ((reputation_of a t).lost ≡ (reputation_of a s).lost + occurrences a losers))
    × (has id t.registry.reputation_recorded ≡ true)

record_reputation-IsRecorded :
    (env : Env) (id : ℕ) (workers losers : List ℕ) (s : State)
    → Ensures (λ _ t. IsRecorded id workers losers s t) (record_reputation env id workers losers s)
unfolding record_reputation write_registry occurrences
record_reputation-IsRecorded env id workers losers s =
    Ensures-read (require_admin env) _ s (require_admin-Reads env s) λ _ _.
      Ensures-fail_if _ (has id s.registry.reputation_recorded) reputation_already_recorded _ s λ _.
        Ensures-bind (count_matched workers) _ _ (count_matched-IsCounted workers _)
          λ _ t (won, kept).
            Ensures-mono
              (λ _ u (lost, same). (
                λ a. (omega (arith, (won a).0, (lost a).0), omega (arith, (won a).1, (lost a).1)),
                ap (has id) (same ∙ kept) ∙ recorded_lem id s.registry.reputation_recorded,
              ))
              (count_lost-IsCounted losers t)

again-fails :
    (env : Env) (id : ℕ) (workers losers : List ℕ) (s : State)
    → has id s.registry.reputation_recorded ≡ true
    → Ensures (λ _ _. ⊥) (record_reputation env id workers losers s)
unfolding record_reputation
again-fails env id workers losers s done =
    Ensures-read (require_admin env) _ s (require_admin-Reads env s) λ _ _.
      Ensures-fail_if _ (has id s.registry.reputation_recorded) reputation_already_recorded _ s
        λ new. absurd (cc (done, new))

-- Recording the outcome of a question gives every address one match for each time it stands among the
-- workers and one loss for each time it stands among the losing workers. A second recording of the
-- same question, whoever calls it and with whatever lists, does not return.
pub record_reputation_lem :
    (env env' : Env) (id : ℕ) (workers losers workers' losers' : List ℕ) (s t u : State)
    → record_reputation env id workers losers s ≡ ok (tt, t)
    → ((a : ℕ)
        → ((reputation_of a t).matched ≡ (reputation_of a s).matched + occurrences a workers)
          × ((reputation_of a t).lost ≡ (reputation_of a s).lost + occurrences a losers))
      × (record_reputation env' id workers' losers' t ≢ ok (tt, u))
record_reputation_lem env env' id workers losers workers' losers' s t u e =
    let (counted, done) = ensured _ (record_reputation-IsRecorded env id workers losers s) e in
    (counted, ensured _ (again-fails env' id workers' losers' t done))
