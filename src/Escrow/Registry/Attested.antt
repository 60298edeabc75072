-- ===== src/Escrow/Registry/Attested.antt =====
-- What an attestation is good for (src/lib.rs: attest_kyc, is_kyc_verified).
use arbiter_contract.Base.{ℕ, ◌<◌, ◌≡◌, ◌≢◌, refl, ap, some, arith, nat_eq, true, ltb, leb, Bool}
use arbiter_contract.Base.Table.{Table, get, set, get-put}
use arbiter_contract.Escrow.Types.{State, kyc_attestor_not_set, invalid_kyc_expiry}
use arbiter_contract.Escrow.Call.{Env, ok}
use arbiter_contract.Escrow.Ensures.{
  Ensures, Reads, Ensures-if, Ensures-read, Ensures-fail_if, Ensures-or_err, returned, trapped,
  ensured,
}
use arbiter_contract.Escrow.Registry.Defs.{
  trap_unless, Crypto, attest_kyc, is_kyc_verified, write_registry, is_current,
}

trap_unless-Reads : (b : Bool) (s : State) → Reads (λ _. b ≡ true) s (trap_unless b s)
unfolding trap_unless
trap_unless-Reads b s = Ensures-if b _ _ (λ e. returned (refl, e)) (λ _. trapped)

module _ (subject : ℕ) where
  own_lem : (expiry : ℕ) (m : Table ℕ ℕ) → get subject (set subject expiry m) ≡ some expiry
  own_lem expiry m = ground (arith, get-put subject subject (some expiry) m)

  other_lem :
      (expiry other : ℕ) (m : Table ℕ ℕ)
      → subject ≢ other
      → get other (set subject expiry m) ≡ get other m
  other_lem expiry other m ne = ground (arith, get-put subject other (some expiry) m, ne)

module _ (env : Env) (crypto : Crypto) (subject expiry signature : ℕ) where
  abbrev IsAttested : State → State → Type 0
  IsAttested s t =
      (attestor : ℕ) × (s.registry.kyc_attestor ≡ some attestor)
      × (crypto.ed25519 attestor subject expiry signature ≡ true)
      × (env.sequence < expiry)
      × ((later : Env) → is_kyc_verified later subject t ≡ ltb later.sequence expiry)
      × ((later : Env) (other : ℕ)
          → subject ≢ other
          → is_kyc_verified later other t ≡ is_kyc_verified later other s)

  attest_kyc-IsAttested :
      (s : State)
      → Ensures (λ _ t. IsAttested s t) (attest_kyc env crypto subject expiry signature s)
  unfolding attest_kyc write_registry is_kyc_verified is_current
  attest_kyc-IsAttested s =
      Ensures-or_err _ s.registry.kyc_attestor kyc_attestor_not_set _ s λ attestor e.
        Ensures-fail_if _ (leb expiry env.sequence) invalid_kyc_expiry _ s λ late.
          Ensures-read (trap_unless (crypto.ed25519 attestor subject expiry signature)) _ s
            (trap_unless-Reads _ s)
            λ _ signed. returned (
              attestor,
              e,
              signed,
              ground (arith, late),
              λ later.
                  ap (is_current later.sequence)
                    (own_lem subject expiry s.registry.kyc_attestations),
              λ later other ne.
                  ap (is_current later.sequence)
                    (other_lem subject expiry other s.registry.kyc_attestations ne),
            )

-- A claim is only recorded with the configured attestor's signature on that subject and that expiry,
-- and with an expiry ahead. The subject then counts as verified at exactly the ledgers before the
-- expiry, and everybody else as before.
pub attest_kyc_lem :
    (env : Env) (crypto : Crypto) (subject expiry signature : ℕ) (s t : State)
    → attest_kyc env crypto subject expiry signature s ≡ ok (tt, t)
    → (attestor : ℕ) × (s.registry.kyc_attestor ≡ some attestor)
      × (crypto.ed25519 attestor subject expiry signature ≡ true)
      × (env.sequence < expiry)
      × ((later : Env) → is_kyc_verified later subject t ≡ ltb later.sequence expiry)
      × ((later : Env) (other : ℕ)
          → subject ≢ other
          → is_kyc_verified later other t ≡ is_kyc_verified later other s)
attest_kyc_lem env crypto subject expiry signature s t e =
    ensured _ (attest_kyc-IsAttested env crypto subject expiry signature s) e
