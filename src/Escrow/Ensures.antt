-- ===== src/Escrow/Ensures.antt =====
-- What holds of a call that returns `Ok`: a family with a rule for each way to build a call. An error
-- or a trap leaves no state behind, so nothing is asked of it.
use arbiter_contract.Base.{
  ℕ, ◌+◌, ◌≡◌, refl, sym, subst, Option, none, some, Bool, true, false, if◌then◌else◌, ltb, ◌<◌,
  arith, ◌==◌,
}
use arbiter_contract.Escrow.Types.{
  State, ContractError, u32_max, i128_max, not_initialized, lending_authority_not_set,
  not_lending_authority,
}
use arbiter_contract.Escrow.Call.{
  Outcome, ok, err, trap, Env, Call, increment, checked_add, require_auth, ◌>>=◌, ◌>>◌, fail_if,
  or_err, positive,
}
use arbiter_contract.Base.Int.{ℤ, pos, negsuc}
use arbiter_contract.Escrow.Access.{
  require_admin, require_resolver_or_admin, require_lending_authority,
}
use arbiter_contract.Base.Table.{get_or}

pub data Ensures {A : Type 0} (P : A → State → Type 0) : Outcome (A × State) → Type 0 where
  returned : {a : A} {s : State} → P a s → Ensures P (ok (a, s))
  failed : {e : ContractError} → Ensures P (err e)
  trapped : Ensures P trap

module _ {A : Type 0} (P : A → State → Type 0) where
  abbrev Holds : Outcome (A × State) → Type 0
  Holds (ok (a, s)) = P a s
  Holds (err e) = Unit
  Holds trap = Unit

  to_holds : {o : Outcome (A × State)} → Ensures P o → Holds o
  to_holds (returned p) = p
  to_holds failed = tt
  to_holds trapped = tt

  pub ensured : {o : Outcome (A × State)} {a : A} {s : State} → Ensures P o → o ≡ ok (a, s) → P a s
  ensured h e = subst Holds e (to_holds h)

  pub Ensures-fail_if :
      (b : Bool) (e : ContractError) (k : Call A) (s : State)
      → (b ≡ false → Ensures P (k s))
      → Ensures P ((fail_if b e >> k) s)
  Ensures-fail_if true e k s h = failed
  Ensures-fail_if false e k s h = h refl

  pub Ensures-or_err :
      {B : Type 0} (o : Option B) (e : ContractError) (f : B → Call A) (s : State)
      → ((b : B) → o ≡ some b → Ensures P (f b s))
      → Ensures P ((or_err o e >>= f) s)
  Ensures-or_err none e f s h = failed
  Ensures-or_err (some b) e f s h = h b refl

module _ {A : Type 0} {P : A → State → Type 0} where
  pub Ensures-if :
      (b : Bool) (o o' : Outcome (A × State))
      → (b ≡ true → Ensures P o)
      → (b ≡ false → Ensures P o')
      → Ensures P (if b then o else o')
  Ensures-if true o o' h k = h refl
  Ensures-if false o o' h k = k refl

module _ {A B : Type 0} {Q : A → State → Type 0} {P : B → State → Type 0} where
  pub Ensures-bind :
      (m : Call A) (f : A → Call B) (s : State)
      → Ensures Q (m s)
      → ((a : A) (t : State) → Q a t → Ensures P (f a t))
      → Ensures P ((m >>= f) s)
  Ensures-bind m f s h k = go (m s) h
    where
      go :
          (o : Outcome (A × State))
          → Ensures Q o
          → Ensures P (elim o [ ok (a, t) ↦ f a t | err e ↦ err e | trap ↦ trap ])
      go (ok (a, t)) (returned q) = k a t q
      go (err e) failed = failed
      go trap trapped = trapped

-- A call that only reads.
module _ {A : Type 0} where
  abbrev pub Reads : (A → Type 0) → State → Outcome (A × State) → Type 0
  Reads Q s o = Ensures (λ a t. (t ≡ s) × Q a) o

module _ {A B : Type 0} {Q : A → Type 0} {P : B → State → Type 0} where
  pub Ensures-read :
      (m : Call A) (f : A → Call B) (s : State)
      → Reads Q s (m s)
      → ((a : A) → Q a → Ensures P (f a s))
      → Ensures P ((m >>= f) s)
  Ensures-read m f s h k =
      Ensures-bind m f s h (λ a t q. subst (λ x. Ensures P (f a x)) (sym q.0) (k a q.1))

abbrev pub Any : {A : Type 0} → A → Type 0
Any a = Unit {0}

-- Weakening.
module _ {A : Type 0} {Q P : A → State → Type 0} where
  pub Ensures-mono :
      {o : Outcome (A × State)} → ((a : A) (s : State) → Q a s → P a s) → Ensures Q o → Ensures P o
  Ensures-mono h (returned q) = returned (h _ _ q)
  Ensures-mono h failed = failed
  Ensures-mono h trapped = trapped

-- Both of two predicates.
module _ {A : Type 0} {P Q : A → State → Type 0} where
  pub Ensures-both :
      (o : Outcome (A × State)) → Ensures P o → Ensures Q o → Ensures (λ a s. P a s × Q a s) o
  Ensures-both (ok (a, s)) h k = returned (ensured P h refl, ensured Q k refl)
  Ensures-both (err e) h k = failed
  Ensures-both trap h k = trapped

pub increment-Reads : (n : ℕ) (s : State) → Reads Any s (increment n s)
unfolding increment
increment-Reads n s = Ensures-if (ltb u32_max (n + 1)) _ _ (λ _. trapped) (λ _. returned (refl, tt))

pub checked_add-Reads : (a b : ℕ) (s : State) → Reads (λ c. c ≡ a + b) s (checked_add a b s)
unfolding checked_add
checked_add-Reads a b s =
    Ensures-if (ltb i128_max (a + b)) _ _ (λ _. failed) (λ _. returned (refl, refl))

pub require_auth-Reads :
    (env : Env) (a : ℕ) (s : State) → Reads (λ _. env.authorized a ≡ true) s (require_auth env a s)
unfolding require_auth
require_auth-Reads env a s =
    Ensures-if (env.authorized a) _ _ (λ yes_. returned (refl, yes_)) (λ _. trapped)

pub or_err-Reads :
    {A : Type 0} (o : Option A) (e : ContractError) (s : State)
    → Reads (λ a. o ≡ some a) s (or_err o e s)
or_err-Reads none e s = failed
or_err-Reads (some a) e s = returned (refl, refl)

pub positive-Reads : (z : ℤ) (e : ContractError) (s : State) → Reads (λ n. 0 < n) s (positive z e s)
positive-Reads (pos ℕ.zero) e s = failed
positive-Reads (pos (ℕ.suc n)) e s = returned (refl, omega arith)
positive-Reads (negsuc n) e s = failed

pub fail_if-Reads : (b : Bool) (e : ContractError) (s : State) → Reads Any s (fail_if b e s)
fail_if-Reads true e s = failed
fail_if-Reads false e s = returned (refl, tt)

pub require_admin-Reads : (env : Env) (s : State) → Reads Any s (require_admin env s)
unfolding require_admin
require_admin-Reads env s =
    Ensures-or_err _ s.config.admin not_initialized _ s
      λ admin _. Ensures-mono (λ _ t p. (p.0, tt)) (require_auth-Reads env admin s)

pub require_resolver_or_admin-Reads :
    (env : Env) (s : State) → Reads Any s (require_resolver_or_admin env s)
unfolding require_resolver_or_admin
require_resolver_or_admin-Reads env s =
    Ensures-or_err _ s.config.admin not_initialized _ s λ admin _.
      Ensures-mono (λ _ t p. (p.0, tt)) (require_auth-Reads env (get_or admin s.config.resolver) s)

pub require_lending_authority-Reads :
    (env : Env) (authority : ℕ) (s : State)
    → Reads Any s (require_lending_authority env authority s)
unfolding require_lending_authority
require_lending_authority-Reads env authority s =
    Ensures-or_err _ s.config.lending_authority lending_authority_not_set _ s λ registered _.
      Ensures-fail_if _ (if authority == registered then false else true) not_lending_authority _ s
        λ _. Ensures-mono (λ _ t p. (p.0, tt)) (require_auth-Reads env authority s)
