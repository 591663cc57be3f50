-- ===== src/Base/Dict.antt =====
-- Go's maps with comparable keys, as association lists. The order of the entries is that of insertion:
-- where the code ranges over a map, it stands for one of the orders that Go may choose.
use live_route.Base.Tests.{if◌then◌else◌, ◌==◌, ==_iff}
use live_route.Base.Lists.{length}
use live_route.Base.Text.{same, same_iff, same_self}
use Prim.Native.Nat.{ℕ, ◌+◌, ◌≤◌}
use Prim.Native.String.{String}
use mathlib.Core.Path.{◌≡◌, refl}
use mathlib.Core.Logic.{◌↔◌}
use mathlib.Core.Bool.{Bool, true, false}
use mathlib.Core.Option.{Option, none, some}
use mathlib.Core.List.{List, [], ◌∷◌}
use native.Mathlib.Omega.{arith}

-- A type that may be the key of a map.
pub record Key {ℓ} (K : Type ℓ) : Type ℓ where
  pub alike : K → K → Bool
  pub alike_iff : (j k : K) → (alike j k ≡ true) ↔ (j ≡ k)

pub same_of_eq : (s t : String) → s ≡ t → same s t ≡ true
same_of_eq s t e = rw e (same_self t)

instance abbrev pub string_key : Key String
string_key = record { alike = same; alike_iff = λ s t. (same_iff s t, same_of_eq s t) }

instance abbrev pub nat_key : Key ℕ
nat_key = record { alike = λ j k. j == k; alike_iff = ==_iff }

abbrev pub Dict {ℓ κ} : Type ℓ → Type κ → Type (ℓ ⊔ κ)
Dict K V = List (K × V)

abbrev pub is_some {ℓ} : {A : Type ℓ} → Option A → Bool
is_some none = false
is_some (some a) = true

module _ {ℓ κ} {K : Type ℓ} {V : Type κ} ⦃o : Key K⦄ where
  unfoldable pub lookup : K → Dict K V → Option V
  lookup k [] = none
  lookup k ((j, v) ∷ d) = if o.alike j k then some v else lookup k d

  unfoldable pub insert : K → V → Dict K V → Dict K V
  insert k v [] = (k, v) ∷ []
  insert k v ((j, w) ∷ d) = if o.alike j k then (k, v) ∷ d else (j, w) ∷ insert k v d

  unfoldable pub erase : K → Dict K V → Dict K V
  erase k [] = []
  erase k ((j, v) ∷ d) = let rest = erase k d in if o.alike j k then rest else (j, v) ∷ rest

  abbrev pub has : K → Dict K V → Bool
  has k d = is_some (lookup k d)

  pub lookup-insert :
      (k j : K) (v : V) (d : Dict K V)
      → lookup j (insert k v d) ≡ (if o.alike k j then some v else lookup j d)
  unfolding lookup insert
  lookup-insert k j v [] = refl
  lookup-insert k j v ((i, w) ∷ d) =
      ground (arith, o.alike_iff k j, o.alike_iff i k, o.alike_iff i j, lookup-insert k j v d)

  pub lookup-erase :
      (k j : K) (d : Dict K V) → lookup j (erase k d) ≡ (if o.alike k j then none else lookup j d)
  unfolding lookup erase
  lookup-erase k j [] = ground arith
  lookup-erase k j ((i, w) ∷ d) =
      ground (arith, o.alike_iff k j, o.alike_iff i k, o.alike_iff i j, lookup-erase k j d)

  pub length-insert :
      (k : K) (v : V) (d : Dict K V)
      → length (insert k v d) ≡ (if has k d then length d else length d + 1)
  unfolding lookup insert
  length-insert k v [] = omega arith
  length-insert k v ((j, w) ∷ d) = ground (arith, length-insert k v d)

  pub length-erase : (k : K) (d : Dict K V) → length (erase k d) ≤ length d
  unfolding erase
  length-erase k [] = omega arith
  length-erase k ((j, w) ∷ d) = ground (arith, length-erase k d)

  pub has-insert :
      (k j : K) (v : V) (d : Dict K V)
      → has j (insert k v d) ≡ (if o.alike k j then true else has j d)
  has-insert k j v d = ground (arith, lookup-insert k j v d)

  pub has-erase :
      (k j : K) (d : Dict K V) → has j (erase k d) ≡ (if o.alike k j then false else has j d)
  has-erase k j d = ground (arith, lookup-erase k j d)

-- The keys in the order in which a loop meets them, and membership in a list of keys.
module _ {ℓ} {K : Type ℓ} where
  abbrev pub keys {κ} : {V : Type κ} → Dict K V → List K
  keys [] = []
  keys ((k, v) ∷ d) = k ∷ keys d

  unfoldable pub contains : ⦃o : Key K⦄ → K → List K → Bool
  contains k [] = false
  contains ⦃o⦄ k (j ∷ js) = if o.alike j k then true else contains k js

  pub contains-keys {κ} :
      ⦃o : Key K⦄ {V : Type κ} (k : K) (d : Dict K V) → contains k (keys d) ≡ has k d
  unfolding contains lookup
  contains-keys k [] = refl
  contains-keys ⦃o⦄ k ((j, v) ∷ d) = ground (arith, contains-keys k d)

-- A set is a map to the unit type; a map of sets has no entry where the set is nil.
abbrev pub Group {ℓ} : Type ℓ → Type ℓ
Group K = Dict K (Unit {0})

abbrev pub or_nil {ℓ} : {K : Type ℓ} → Option (Group K) → Group K
or_nil none = []
or_nil (some d) = d
