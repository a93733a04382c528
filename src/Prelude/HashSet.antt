-- ===== src/Prelude/HashSet.antt =====
-- The standard library's `HashSet<K>`: a `HashMap` with no values.
use Prim.Native.Nat.{ℕ, zero}
use mathlib.Core.Path.{◌≡◌}
use mathlib.Core.Bool.{Bool, true, false}
use mathlib.Core.List.{List}
use native.Mathlib.Omega.{arith}
use package.civ6_lan_bridge.Prelude.Tests.{Key, ◌==◌, is_some, if◌then◌else◌}
use package.civ6_lan_bridge.Prelude.Lists.{elem}
use package.civ6_lan_bridge.Prelude.HashMap
use package.civ6_lan_bridge.Prelude.HashMap.{HashMap}

abbrev pub HashSet {ℓ} : (K : Type ℓ) ⦃e : Key K⦄ → Type ℓ
HashSet K = HashMap K (Unit {0})

module _ {ℓ} {K : Type ℓ} ⦃e : Key K⦄ where
  unfoldable pub new : HashSet K
  new = HashMap.new

  unfoldable pub contains : HashSet K → K → Bool
  contains s k = is_some (HashMap.get s k)

  unfoldable pub insert : HashSet K → K → HashSet K
  insert s k = HashMap.insert s k tt

  unfoldable pub remove : HashSet K → K → HashSet K
  remove s k = HashMap.remove s k

  abbrev pub len : HashSet K → ℕ
  len s = HashMap.len s

  unfoldable pub is_empty : HashSet K → Bool
  is_empty s = elim (len s) [ zero ↦ true | _ ↦ false ]

  -- `iter()`
  unfoldable pub to_list : HashSet K → List K
  to_list s = HashMap.keys_where s (λ _ _. true)

  pub contains_of_is_empty : (s : HashSet K) (k : K) → is_empty s ≡ true → contains s k ≡ false
  unfolding is_empty contains
  contains_of_is_empty s k h = ground (arith, HashMap.get_of_len-zero s k)

  pub contains-new : (k : K) → contains new k ≡ false
  unfolding contains new
  contains-new k = ground (arith, HashMap.get-new {V = Unit {0}} k)

  pub contains-insert :
      (s : HashSet K) (k j : K) → contains (insert s k) j ≡ (if k == j then true else contains s j)
  unfolding contains insert
  contains-insert s k j = ground (arith, HashMap.get-insert s k tt j)

  pub contains-remove :
      (s : HashSet K) (k j : K) → contains (remove s k) j ≡ (if k == j then false else contains s j)
  unfolding contains remove
  contains-remove s k j = ground (arith, HashMap.get-remove s k j)

  pub elem-to_list : (s : HashSet K) (k : K) → elem k (to_list s) ≡ contains s k
  unfolding to_list contains
  elem-to_list s k = ground (arith, HashMap.elem-keys_where s (λ _ _. true) k)
