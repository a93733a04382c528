-- ===== src/Client/Samples.antt =====
-- crates/client-core/src/lib.rs: `record_probe_success` and the round trip times it keeps.
use civ6_lan_bridge.Prelude.{
  ℕ, zero, suc, ◌-◌, ◌*◌, ◌/◌, ◌≤◌, ◌<◌, ◌≡◌, refl, subst, min, Bool, true, false, ◌==◌, nat_key,
  leb, if◌then◌else◌, length, drop, some, List, [], ◌∷◌, ◌++◌, arith, length-append,
}
use civ6_lan_bridge.Router.State.{Duration}
use civ6_lan_bridge.Client.Session.{
  RelaySession, insert_sorted, sort, get_elem?, make_room, record_probe_success, u64_max,
}

-- How often a number stands in a list
unfoldable pub count : ℕ → List ℕ → ℕ
count a [] = 0
count a (b ∷ rest) = let later = count a rest in if b == a then suc later else later

abbrev pub AtMost : ℕ → List ℕ → Type 0
AtMost a [] = Unit
AtMost a (b ∷ rest) = a ≤ b

abbrev pub IsSorted : List ℕ → Type 0
IsSorted [] = Unit
IsSorted (a ∷ rest) = AtMost a rest × IsSorted rest

count-insert_sorted : (a b : ℕ) (xs : List ℕ) → count a (insert_sorted b xs) ≡ count a (b ∷ xs)
unfolding count insert_sorted
count-insert_sorted a b [] = refl
count-insert_sorted a b (x ∷ xs) = ground (arith, count-insert_sorted a b xs)

count-sort : (a : ℕ) (xs : List ℕ) → count a (sort xs) ≡ count a xs
unfolding count sort
count-sort a [] = refl
count-sort a (x ∷ xs) = ground (arith, count-insert_sorted a x (sort xs), count-sort a xs)

AtMost-insert_sorted : (a b : ℕ) (xs : List ℕ) → a ≤ b → AtMost a xs → AtMost a (insert_sorted b xs)
unfolding insert_sorted
AtMost-insert_sorted a b [] h m = h
AtMost-insert_sorted a b (x ∷ xs) h m = ground arith

insert_sorted-IsSorted : (b : ℕ) (xs : List ℕ) → IsSorted xs → IsSorted (insert_sorted b xs)
unfolding insert_sorted
insert_sorted-IsSorted b [] s = (tt, tt)
insert_sorted-IsSorted b (x ∷ xs) (m, s) = go (leb b x) refl (insert_sorted-IsSorted b xs s)
  where
    go :
        (t : Bool)
        → leb b x ≡ t
        → IsSorted (insert_sorted b xs)
        → IsSorted (if t then b ∷ x ∷ xs else x ∷ insert_sorted b xs)
    go true e later = (ground arith, (m, s))
    go false e later = (AtMost-insert_sorted x b xs (ground arith) m, later)

sort-IsSorted : (xs : List ℕ) → IsSorted (sort xs)
unfolding sort
sort-IsSorted [] = tt
sort-IsSorted (x ∷ xs) = insert_sorted-IsSorted x (sort xs) (sort-IsSorted xs)

length-insert_sorted : (b : ℕ) (xs : List ℕ) → length (insert_sorted b xs) ≡ suc (length xs)
unfolding insert_sorted
length-insert_sorted b [] = refl
length-insert_sorted b (x ∷ xs) = ground (arith, length-insert_sorted b xs)

length-sort : (xs : List ℕ) → length (sort xs) ≡ length xs
unfolding sort
length-sort [] = refl
length-sort (x ∷ xs) = ground (arith, length-insert_sorted x (sort xs), length-sort xs)

-- In range there is an element, and it stands in the list.
get_elem?-count :
    (xs : List ℕ) (i : ℕ) → i < length xs → (a : ℕ) × (get_elem? xs i ≡ some a) × (0 < count a xs)
unfolding get_elem? count
get_elem?-count [] i h = ground arith
get_elem?-count (x ∷ xs) zero h = (x, refl, ground arith)
get_elem?-count (x ∷ xs) (suc i) h =
    let (a, at, there) = get_elem?-count xs i (ground (arith, h)) in (a, at, ground (arith, there))

AtMost-get_elem? :
    (a b : ℕ) (xs : List ℕ) (i : ℕ) → IsSorted xs → AtMost a xs → get_elem? xs i ≡ some b → a ≤ b
unfolding get_elem?
AtMost-get_elem? a b [] i s m at = ground arith
AtMost-get_elem? a b (x ∷ xs) zero s m at = ground arith
AtMost-get_elem? a b (x ∷ xs) (suc i) (first, s) m at =
    ground (arith, AtMost-get_elem? x b xs i s first at)

get_elem?_mono :
    (a b : ℕ) (xs : List ℕ) (i j : ℕ)
    → IsSorted xs
    → i ≤ j
    → get_elem? xs i ≡ some a
    → get_elem? xs j ≡ some b
    → a ≤ b
unfolding get_elem?
get_elem?_mono a b [] i j s le at_i at_j = ground arith
get_elem?_mono a b (x ∷ xs) zero zero s le at_i at_j = ground arith
get_elem?_mono a b (x ∷ xs) zero (suc j) (first, s) le at_i at_j =
    ground (arith, AtMost-get_elem? x b xs j s first at_j)
get_elem?_mono a b (x ∷ xs) (suc i) zero s le at_i at_j = ground arith
get_elem?_mono a b (x ∷ xs) (suc i) (suc j) (first, s) le at_i at_j =
    get_elem?_mono a b xs i j s (ground (arith, le)) at_i at_j

-- The session's window of at most 128 samples, and its two percentiles, read off the window in
-- order.
pub record Summed (s : RelaySession) : Type 0 where
  pub order : List ℕ
  pub sorted : IsSorted order
  pub same : (a : ℕ) → count a order ≡ count a s.rtt_samples_ms
  pub size : (0 < length s.rtt_samples_ms) × (length s.rtt_samples_ms ≤ 128)
  pub p50 : ℕ
  pub p95 : ℕ
  pub reported_p50 : s.snapshot.rtt_p50_ms ≡ some p50
  pub reported_p95 : s.snapshot.rtt_p95_ms ≡ some p95
  pub at_p50 : get_elem? order ((length s.rtt_samples_ms - 1) * 50 / 100) ≡ some p50
  pub at_p95 : get_elem? order ((length s.rtt_samples_ms - 1) * 95 / 100) ≡ some p95
  pub sampled : (0 < count p50 s.rtt_samples_ms) × (0 < count p95 s.rtt_samples_ms)
  pub ascending : p50 ≤ p95

length-drop1 : (xs : List ℕ) → length (drop 1 xs) ≡ length xs - 1
length-drop1 [] = refl
length-drop1 (x ∷ xs) = omega arith

length-make_room :
    (xs : List ℕ) (a : ℕ)
    → length xs ≤ 128
    → (0 < length (make_room xs ++ (a ∷ []))) × (length (make_room xs ++ (a ∷ [])) ≤ 128)
length-make_room xs a h = (
  ground (arith, length-append (make_room xs) (a ∷ [])),
  ground (arith, length-drop1 xs, length-append (make_room xs) (a ∷ [])),
)

-- What record_probe_success reports are the entries at 50 and 95 percent of its window, put in
-- order: samples that the window has, the first at most the second, as long as the window had at
-- most 128 samples before; it then has so again.
pub record_probe_success-Summed :
    (session : RelaySession) (rtt : Duration)
    → length session.rtt_samples_ms ≤ 128
    → Summed (record_probe_success rtt session)
unfolding record_probe_success
record_probe_success-Summed session rtt h =
    let kept = make_room session.rtt_samples_ms ++ (min rtt u64_max ∷ []) in
    let size = length-make_room session.rtt_samples_ms (min rtt u64_max) h in
    let long = length-sort kept in
    let (p50, at50, in50) =
      get_elem?-count (sort kept) ((length (sort kept) - 1) * 50 / 100)
        (ground (arith, long, size)) in
    let (p95, at95, in95) =
      get_elem?-count (sort kept) ((length (sort kept) - 1) * 95 / 100)
        (ground (arith, long, size)) in
    record {
      order = sort kept;
      sorted = sort-IsSorted kept;
      same = λ a. count-sort a kept;
      size = size;
      p50 = p50;
      p95 = p95;
      reported_p50 = at50;
      reported_p95 = at95;
      at_p50 = subst (λ n. get_elem? (sort kept) ((n - 1) * 50 / 100) ≡ some p50) long at50;
      at_p95 = subst (λ n. get_elem? (sort kept) ((n - 1) * 95 / 100) ≡ some p95) long at95;
      sampled =
          (ground (arith, in50, count-sort p50 kept), ground (arith, in95, count-sort p95 kept));
      ascending =
          get_elem?_mono p50 p95 (sort kept) ((length (sort kept) - 1) * 50 / 100)
            ((length (sort kept) - 1) * 95 / 100) (sort-IsSorted kept) (omega arith) at50 at95;
    }
