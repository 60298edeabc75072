-- ===== src/Escrow/Solvency/Settling.antt =====
-- The accounts of a credit to a worker, and how steps follow one another (src/lib.rs: credit_owed).
use arbiter_contract.Base.{
  ℕ, ◌+◌, ◌≤◌, ◌≡◌, refl, Option, none, some, ◌==◌, arith, nat_eq, Bool-cases, inl, inr,
}
use arbiter_contract.Base.Table.{get, get_or}
use arbiter_contract.Escrow.Types.{State, HolderKey, holder_eq, not_initialized}
use arbiter_contract.Escrow.Call.{Call, ◌>>=◌, checked_add, ok, Outcome}
use arbiter_contract.Escrow.Ensures.{
  Ensures, Reads, Ensures-bind, Ensures-read, Ensures-mono, returned, checked_add-Reads,
  Ensures-or_err,
}
use arbiter_contract.Escrow.Access.{owed_key, holder_key, default_token}
use arbiter_contract.Escrow.Settle.Defs.{credit_owed, read_owed, write_owed, track_if_default}
use arbiter_contract.Escrow.Solvency.Defs.{key_in, BondsOk, Step, Step-trans, Step-recount}
use arbiter_contract.Escrow.Solvency.Steps.{
  part, key_in-holder_key, write_owed-Step, track_participant-Step,
}

-- A key made for `coin` is in the tokens that `coin` is.
abbrev pub KeyFor : (coin : ℕ) (s : State) → HolderKey → Type 0
KeyFor coin s key = (token : ℕ) → key_in s.config.token token key ≡ (coin == token)

module _ {A B : Type 0} {this token a b c d : ℕ} where
  pub Step-bind :
      (m : Call A) (f : A → Call B) (s : State)
      → Ensures (λ _ t. Step this token a b s t) (m s)
      → ((x : A) (t : State)
          → Step this token a b s t
          → Ensures (λ _ u. Step this token c d t u) (f x t))
      → Ensures (λ _ u. Step this token (a + c) (b + d) s u) ((m >>= f) s)
  Step-bind m f s h k =
      Ensures-bind m f s h (λ x t p. Ensures-mono (λ y u q. Step-trans p q) (k x t p))

module _ {A : Type 0} {this token a b c d : ℕ} {s : State} {o : Outcome (A × State)} where
  pub recount_Step :
      c + b ≤ a + d
      → Ensures (λ _ t. Step this token a b s t) o
      → Ensures (λ _ t. Step this token c d s t) o
  recount_Step le h = Ensures-mono (λ x t p. Step-recount p le) h

module _ {this token : ℕ} where
  pub Step-none :
      {A : Type 0} (a : A) (s : State)
      → BondsOk s.accounts
      → Ensures (λ _ t. Step this token 0 0 s t) (ok (a, s))
  Step-none a s b =
      returned
        (record { surplus = omega arith; config = refl; book = refl; disputes = refl; bonds = b })

pub default_key-KeyFor :
    (coin holder : ℕ) (s : State) {d : ℕ}
    → s.config.token ≡ some d
    → KeyFor coin s (holder_key d coin holder)
default_key-KeyFor coin holder s {d} e token = rw e (key_in-holder_key d token coin holder)

pub owed_key-Reads :
    (coin worker : ℕ) (s : State) → Reads (KeyFor coin s) s (owed_key coin worker s)
unfolding owed_key default_token
owed_key-Reads coin worker s =
    Ensures-or_err _ s.config.token not_initialized _ s
      (λ d e. returned (refl, default_key-KeyFor coin worker s e))

pub read_owed-Reads :
    (key : HolderKey) (s : State)
    → Reads (λ v. v ≡ get_or 0 (get key s.accounts.owed)) s (read_owed key s)
unfolding read_owed
read_owed-Reads key s = returned (refl, refl)

module _ (this token : ℕ) where
  track_if_default-Step :
      (coin worker : ℕ) (o : Option ℕ) (s : State)
      → BondsOk s.accounts
      → Ensures (λ _ t. Step this token 0 0 s t) (track_if_default coin worker o s)
  unfolding track_if_default
  track_if_default-Step coin worker none s b = Step-none tt s b
  track_if_default-Step coin worker (some d) s b = elim (Bool-cases (coin == d)) [
    | inl same ↦ rw same (track_participant-Step this token worker s b)
    | inr other ↦ rw other (Step-none tt s b)
  ]

  pub credit_owed-Step :
      (coin worker amount : ℕ) (s : State)
      → BondsOk s.accounts
      → Ensures
          (λ _ t. Step this token 0 (part token coin amount) s t)
          (credit_owed coin worker amount s)
  unfolding credit_owed
  credit_owed-Step coin worker amount s b =
      Ensures-read (owed_key coin worker) _ s (owed_key-Reads coin worker s) λ key k.
        Ensures-read (read_owed key) _ s (read_owed-Reads key s) λ existing e.
          Ensures-read (checked_add existing amount) _ s (checked_add-Reads existing amount s)
            λ updated u. recount_Step (ground (arith, k token)) (
              Step-bind (write_owed key updated) _ s (write_owed-Step this token key updated s b)
                (λ _ t p. track_if_default-Step coin worker t.config.token t p.bonds))
