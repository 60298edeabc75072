-- ===== src/Vesting/Yields.antt =====
-- What holds of a call of the treasury that returns.
use arbiter_contract.Base.{◌≡◌, refl, subst, Bool, true, false, Option, none, some, if◌then◌else◌}
use arbiter_contract.Vesting.Defs.{Treasury, Action, ◌>>=◌}

-- What holds of a result, if there is one.
pub data Yields {A : Type 0} (P : A → Treasury → Type 0) : Option (A × Treasury) → Type 0 where
  yields : {a : A} {t : Treasury} → P a t → Yields P (some (a, t))
  panics : Yields P none

module _ {A : Type 0} (P : A → Treasury → Type 0) where
  abbrev Holds : Option (A × Treasury) → Type 0
  Holds none = Unit {0}
  Holds (some (a, t)) = P a t

  to_Holds : {o : Option (A × Treasury)} → Yields P o → Holds o
  to_Holds (yields p) = p
  to_Holds panics = tt

  pub Yields-of :
      {o : Option (A × Treasury)} {a : A} {t : Treasury} → Yields P o → o ≡ some (a, t) → P a t
  Yields-of h e = subst Holds e (to_Holds h)

module _ {A B : Type 0} {Q : A → Treasury → Type 0} {P : B → Treasury → Type 0} where
  pub Yields-bind :
      (m : Action A) (f : A → Action B) (t : Treasury)
      → Yields Q (m t)
      → ((a : A) (u : Treasury) → Q a u → Yields P (f a u))
      → Yields P ((m >>= f) t)
  Yields-bind m f t h k = go (m t) h
    where
      go :
          (o : Option (A × Treasury))
          → Yields Q o
          → Yields P (elim o [ none ↦ none | some (a, u) ↦ f a u ])
      go none panics = panics
      go (some (a, u)) (yields q) = k a u q

module _ {A : Type 0} {Q P : A → Treasury → Type 0} where
  pub Yields-mono :
      {o : Option (A × Treasury)}
      → ((a : A) (t : Treasury) → Q a t → P a t)
      → Yields Q o
      → Yields P o
  Yields-mono h (yields q) = yields (h _ _ q)
  Yields-mono h panics = panics

-- A test that stops the call, or lets it go on with the treasury as it was.
pub Yields-if :
    {A : Type 0} {P : A → Treasury → Type 0} (b : Bool) (x : Option (A × Treasury))
    → (b ≡ true → Yields P x)
    → Yields P (if b then x else none)
Yields-if true x h = h refl
Yields-if false x h = panics
