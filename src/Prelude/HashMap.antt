-- ===== src/Prelude/HashMap.antt =====
-- The standard library's `HashMap<K, V>`: an association list with distinct keys. The proofs of
-- the library use the laws on `get` below; the order of the entries is that of no hash table.
use Prim.Native.Nat.{ℕ, suc, ◌+◌, ◌≤◌}
use mathlib.Core.Path.{◌≡◌, refl, ap}
use mathlib.Core.Bool.{Bool, false}
use mathlib.Core.Logic.{inl, inr}
use mathlib.Core.Option.{Option, none, some}
use mathlib.Core.List.{List, [], ◌∷◌}
use native.Mathlib.Omega.{arith}
use package.civ6_lan_bridge.Prelude.Tests.{Key, ◌==◌, is_some, if◌then◌else◌, Option-cases}
use package.civ6_lan_bridge.Prelude.Lists.{length, elem}

module _ {ℓ κ} {K : Type ℓ} {V : Type κ} ⦃e : Key K⦄ where
  unfoldable pub lookup : K → List (K × V) → Option V
  lookup k [] = none
  lookup k ((j, v) ∷ m) = if j == k then some v else lookup k m

  unfoldable pub without : K → List (K × V) → List (K × V)
  without k [] = []
  without k ((j, v) ∷ m) = let rest = without k m in if j == k then rest else (j, v) ∷ rest

  unfoldable pub filter : (K → V → Bool) → List (K × V) → List (K × V)
  filter f [] = []
  filter f ((j, v) ∷ m) = let rest = filter f m in if f j v then (j, v) ∷ rest else rest

  -- No key stands twice.
  abbrev pub Distinct : List (K × V) → Type κ
  Distinct [] = Unit
  Distinct ((j, v) ∷ m) = (lookup j m ≡ none) × Distinct m

  abbrev pub keep_if : (K → V → Bool) → K → Option V → Option V
  keep_if f k none = none
  keep_if f k (some v) = if f k v then some v else none

  pub lookup-without :
      (k j : K) (m : List (K × V)) → lookup j (without k m) ≡ (if k == j then none else lookup j m)
  unfolding lookup without
  lookup-without k j [] = ground arith
  lookup-without k j ((i, v) ∷ m) = ground (arith, lookup-without k j m)

  pub lookup-filter :
      (f : K → V → Bool) (k : K) (m : List (K × V))
      → Distinct m
      → lookup k (filter f m) ≡ keep_if f k (lookup k m)
  unfolding lookup filter
  lookup-filter f k [] d = refl
  lookup-filter f k ((i, v) ∷ m) d = ground (arith, lookup-filter f k m d.1)

  pub without-Distinct : (k : K) (m : List (K × V)) → Distinct m → Distinct (without k m)
  unfolding without
  without-Distinct k [] d = tt
  without-Distinct k ((i, v) ∷ m) d = ground (arith, without-Distinct k m d.1, lookup-without k i m)

  pub filter-Distinct : (f : K → V → Bool) (m : List (K × V)) → Distinct m → Distinct (filter f m)
  unfolding filter
  filter-Distinct f [] d = tt
  filter-Distinct f ((i, v) ∷ m) d =
      ground (arith, filter-Distinct f m d.1, lookup-filter f i m d.1)

abbrev pub update {κ} : {W : Type κ} → (W → W) → Option W → Option W
update f none = none
update f (some v) = some (f v)

pub record HashMap {ℓ κ} (K : Type ℓ) (V : Type κ) ⦃e : Key K⦄ : Type (ℓ ⊔ κ) where
  entries : List (K × V)
  distinct : Distinct entries

module _ {ℓ κ} {K : Type ℓ} {V : Type κ} ⦃e : Key K⦄ where
  unfoldable pub new : HashMap K V
  new = record { entries = []; distinct = tt }

  unfoldable pub get : HashMap K V → K → Option V
  unfolding lookup
  get m k = lookup k m.entries

  -- What iteration goes through, in some order
  unfoldable pub to_list : HashMap K V → List (K × V)
  to_list m = m.entries

  unfoldable pub remove : HashMap K V → K → HashMap K V
  unfolding without
  remove m k = record {
    entries = without k m.entries;
    distinct = without-Distinct k m.entries m.distinct;
  }

  pub insert-Distinct : (m : HashMap K V) (k : K) (v : V) → Distinct ((k, v) ∷ without k m.entries)
  insert-Distinct m k v =
      (ground (arith, lookup-without k k m.entries), without-Distinct k m.entries m.distinct)

  -- A value that is there is replaced.
  unfoldable pub insert : HashMap K V → K → V → HashMap K V
  unfolding without
  insert m k v = record { entries = (k, v) ∷ without k m.entries; distinct = insert-Distinct m k v }

  unfoldable pub retain : HashMap K V → (K → V → Bool) → HashMap K V
  unfolding filter
  retain m f = record {
    entries = filter f m.entries;
    distinct = filter-Distinct f m.entries m.distinct;
  }

  unfoldable pub len : HashMap K V → ℕ
  len m = length m.entries

  abbrev pub contains_key : HashMap K V → K → Bool
  contains_key m k = is_some (get m k)

  pub get-new : (k : K) → get new k ≡ none
  unfolding get new
  get-new k = refl

  pub get-insert :
      (m : HashMap K V) (k : K) (v : V) (j : K)
      → get (insert m k v) j ≡ (if k == j then some v else get m j)
  unfolding get insert
  get-insert m k v j = ground (arith, lookup-without k j m.entries)

  pub get-remove :
      (m : HashMap K V) (k j : K) → get (remove m k) j ≡ (if k == j then none else get m j)
  unfolding get remove
  get-remove m k j = lookup-without k j m.entries

  pub get-retain :
      (m : HashMap K V) (f : K → V → Bool) (k : K) → get (retain m f) k ≡ keep_if f k (get m k)
  unfolding get retain
  get-retain m f k = lookup-filter f k m.entries m.distinct

  unfoldable pub keys_of : (K → V → Bool) → List (K × V) → List K
  keys_of f [] = []
  keys_of f ((j, v) ∷ m) = let rest = keys_of f m in if f j v then j ∷ rest else rest

  -- `iter().filter_map(|(id, v)| f(id, v).then_some(*id)).collect()`
  unfoldable pub keys_where : HashMap K V → (K → V → Bool) → List K
  unfolding keys_of
  keys_where m f = keys_of f m.entries

  -- `for id in ids { map.remove(&id); }`
  unfoldable pub remove_all : HashMap K V → List K → HashMap K V
  unfolding remove
  remove_all m [] = m
  remove_all m (k ∷ ks) = remove_all (remove m k) ks

  unfoldable pub count_of : (V → Bool) → List (K × V) → ℕ
  count_of f [] = 0
  count_of f ((j, v) ∷ m) = let rest = count_of f m in if f v then suc rest else rest

  -- `values().filter(f).count()`
  unfoldable pub count_where : HashMap K V → (V → Bool) → ℕ
  unfolding count_of
  count_where m f = count_of f m.entries

  abbrev pub holds_at : (K → V → Bool) → K → Option V → Bool
  holds_at f k none = false
  holds_at f k (some v) = f k v

  elem-keys_of-none :
      (f : K → V → Bool) (k : K) (m : List (K × V))
      → lookup k m ≡ none
      → elem k (keys_of f m) ≡ false
  unfolding lookup keys_of
  elem-keys_of-none f k [] h = refl
  elem-keys_of-none f k ((i, v) ∷ m) h = ground (arith, elem-keys_of-none f k m)

  elem-keys_of :
      (f : K → V → Bool) (k : K) (m : List (K × V))
      → Distinct m
      → elem k (keys_of f m) ≡ holds_at f k (lookup k m)
  unfolding lookup keys_of
  elem-keys_of f k [] d = refl
  elem-keys_of f k ((i, v) ∷ m) d = ground (arith, elem-keys_of f k m d.1, elem-keys_of-none f k m)

  pub elem-keys_where :
      (m : HashMap K V) (f : K → V → Bool) (k : K)
      → elem k (keys_where m f) ≡ holds_at f k (get m k)
  unfolding keys_where get
  elem-keys_where m f k = elem-keys_of f k m.entries m.distinct

  pub get-remove_all :
      (m : HashMap K V) (ks : List K) (k : K)
      → get (remove_all m ks) k ≡ (if elem k ks then none else get m k)
  unfolding remove_all
  get-remove_all m [] k = refl
  get-remove_all m (j ∷ ks) k = ground (arith, get-remove_all (remove m j) ks k, get-remove m j k)

  lookup_of_length-zero : (k : K) (m : List (K × V)) → length m ≡ 0 → lookup k m ≡ none
  unfolding lookup
  lookup_of_length-zero k [] h = refl
  lookup_of_length-zero k (x ∷ m) h = absurd (omega arith)

  length-without-le : (k : K) (m : List (K × V)) → length (without k m) ≤ length m
  unfolding without
  length-without-le k [] = omega arith
  length-without-le k ((i, v) ∷ m) = ground (arith, length-without-le k m)

  without_absent : (k : K) (m : List (K × V)) → lookup k m ≡ none → without k m ≡ m
  unfolding without lookup
  without_absent k [] h = refl
  without_absent k ((i, v) ∷ m) h = ground (arith, without_absent k m)

  length-without_present :
      (k : K) (v : V) (m : List (K × V))
      → Distinct m
      → lookup k m ≡ some v
      → length (without k m) + 1 ≡ length m
  unfolding without lookup
  length-without_present k v [] d h = cc
  length-without_present k v ((i, w) ∷ m) d h =
      ground (arith, length-without_present k v m d.1, without_absent k m)

  pub get_of_len-zero : (m : HashMap K V) (k : K) → len m ≡ 0 → get m k ≡ none
  unfolding get len
  get_of_len-zero m k h = lookup_of_length-zero k m.entries h

  pub len-remove-le : (m : HashMap K V) (k : K) → len (remove m k) ≤ len m
  unfolding len remove
  len-remove-le m k = length-without-le k m.entries

  pub len-insert :
      (m : HashMap K V) (k : K) (v : V)
      → len (insert m k v) ≡ (if is_some (get m k) then len m else len m + 1)
  unfolding len insert get
  len-insert m k v = elim (Option-cases (lookup k m.entries)) [
    | inl h ↦ rw h (ground (arith, ap length (without_absent k m.entries h)))
    | inr (w, h) ↦ rw h (ground (arith, length-without_present k w m.entries m.distinct h))
  ]

  -- A write through `get_mut`, if the key is there.
  unfoldable pub modify : HashMap K V → K → (V → V) → HashMap K V
  modify m k f = elim (get m k) [ none ↦ m | some v ↦ insert m k (f v) ]

  pub get-modify :
      (m : HashMap K V) (k : K) (f : V → V) (j : K)
      → get (modify m k f) j ≡ (if k == j then update f (get m j) else get m j)
  unfolding modify
  get-modify m k f j = elim (Option-cases (get m k)) [
    | inl h ↦ rw (h, modify) (ground arith)
    | inr (v, h) ↦ rw (h, modify) (ground (arith, get-insert m k (f v) j))
  ]

  pub len-modify : (m : HashMap K V) (k : K) (f : V → V) → len (modify m k f) ≡ len m
  unfolding modify
  len-modify m k f = elim (Option-cases (get m k)) [
    | inl h ↦ rw (h, modify) refl
    | inr (v, h) ↦ rw (h, modify) (ground (arith, len-insert m k (f v)))
  ]

  length-filter-le : (f : K → V → Bool) (m : List (K × V)) → length (filter f m) ≤ length m
  unfolding filter
  length-filter-le f [] = omega arith
  length-filter-le f ((i, v) ∷ m) = ground (arith, length-filter-le f m)

  pub len-retain-le : (m : HashMap K V) (f : K → V → Bool) → len (retain m f) ≤ len m
  unfolding len retain
  len-retain-le m f = length-filter-le f m.entries

  pub len-remove_all-le : (m : HashMap K V) (ks : List K) → len (remove_all m ks) ≤ len m
  unfolding remove_all
  len-remove_all-le m [] = omega arith
  len-remove_all-le m (k ∷ ks) = omega (arith, len-remove_all-le (remove m k) ks, len-remove-le m k)
