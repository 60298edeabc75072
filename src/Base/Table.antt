-- ===== src/Base/Table.antt =====
-- Keyed storage entries. A table is the list of its keys with their newest values; a removed entry
-- keeps its key and holds `none`, so that reads, writes and sums need no uniqueness of keys.
use Prim.Native.Nat.{ℕ, ◌+◌, ◌≤◌}
use mathlib.Core.Path.{◌≡◌, refl}
use mathlib.Core.Bool.{Bool, true, false}
use mathlib.Core.Option.{Option, none, some}
use mathlib.Core.List.{List, [], ◌∷◌}
use native.Mathlib.Omega.{arith}
use arbiter_contract.Base.Tests.{if◌then◌else◌, Eq}

abbrev pub Table : Type 0 → Type 0 → Type 0
Table K V = List (K × Option V)

-- The share of one entry in a sum over a table.
abbrev pub weigh : {K V : Type 0} → (K → V → ℕ) → K → Option V → ℕ
weigh w k none = 0
weigh w k (some v) = w k v

abbrev pub get_or : {V : Type 0} → V → Option V → V
get_or d none = d
get_or d (some v) = v

abbrev pub is_some : {V : Type 0} → Option V → Bool
is_some none = false
is_some (some v) = true

-- The sum of a weight over the entries.
unfoldable pub total : {K V : Type 0} → (K → V → ℕ) → Table K V → ℕ
total w [] = 0
total w ((k, o) ∷ m) = weigh w k o + total w m

module _ {K V : Type 0} ⦃e : Eq K⦄ where
  unfoldable pub get : K → Table K V → Option V
  get k [] = none
  get k ((j, o) ∷ m) = if e.beq j k then o else get k m

  unfoldable pub put : K → Option V → Table K V → Table K V
  put k o [] = (k, o) ∷ []
  put k o ((j, p) ∷ m) = if e.beq j k then (k, o) ∷ m else (j, p) ∷ put k o m

  abbrev pub set : K → V → Table K V → Table K V
  set k v m = put k (some v) m

  abbrev pub remove : K → Table K V → Table K V
  remove k m = put k none m

  abbrev pub has : K → Table K V → Bool
  has k m = is_some (get k m)

  pub get-put :
      (k j : K) (o : Option V) (m : Table K V)
      → get j (put k o m) ≡ (if e.beq k j then o else get j m)
  unfolding get put
  get-put k j o [] = refl
  get-put k j o ((i, p) ∷ m) =
      ground (arith, e.beq_iff i k, e.beq_iff k j, e.beq_iff i j, get-put k j o m)

  -- A write moves the sum by the difference of the two weights.
  pub total-put :
      (w : K → V → ℕ) (k : K) (o : Option V) (m : Table K V)
      → total w (put k o m) + weigh w k (get k m) ≡ total w m + weigh w k o
  unfolding total get put
  total-put w k o [] = omega arith
  total-put w k o ((j, p) ∷ m) = ground (arith, e.beq_iff j k, total-put w k o m)

  -- One entry is at most the sum.
  pub weigh-le-total : (w : K → V → ℕ) (k : K) (m : Table K V) → weigh w k (get k m) ≤ total w m
  unfolding total get
  weigh-le-total w k [] = omega arith
  weigh-le-total w k ((j, p) ∷ m) = ground (arith, e.beq_iff j k, weigh-le-total w k m)
