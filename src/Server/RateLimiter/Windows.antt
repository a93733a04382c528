-- ===== src/Server/RateLimiter/Windows.antt =====
-- server/src/state.rs: how many of the requests within one window the limiter allows.
use civ6_lan_bridge.Prelude.{
  ℕ, suc, ◌+◌, ◌-◌, ◌<◌, ◌≡◌, Bool, ltb, ◌==◌, ◌&&◌, Key, nat_key, if◌then◌else◌, some, arith, min,
  List, [], ◌∷◌,
}
use civ6_lan_bridge.Prelude.HashMap
use civ6_lan_bridge.Router.State.{Instant, Duration}
use civ6_lan_bridge.Server.RateLimiter.{
  RateWindow, FixedWindowRateLimiter, is_current, open_window, allow,
}

-- The window after one more request, of its key or of another.
abbrev counted : ℕ → Bool → RateWindow → RateWindow
counted limit own entry = record {
  started_at = entry.started_at;
  count = if own && ltb entry.count limit then entry.count + 1 else entry.count;
}

module _ {K : Type 0} ⦃key : Key K⦄ where
  -- How many of the requests of the key are allowed, where the requests come in this order.
  unfoldable pub allowed : FixedWindowRateLimiter K → K → List (K × Instant) → ℕ
  allowed l k [] = 0
  allowed l k ((j, now) ∷ requests) =
      let rest = allowed (allow l j now).1 k requests in
      if j == k && (allow l j now).0 then suc rest else rest

  -- How many requests are the key's.
  unfoldable pub asked : K → List (K × Instant) → ℕ
  asked k [] = 0
  asked k ((j, now) ∷ requests) = let rest = asked k requests in if j == k then suc rest else rest

  -- Every request of the list, of whatever key, comes less than `window` after `start`.
  abbrev pub Within : Duration → Instant → List (K × Instant) → Type 0
  Within window start [] = Unit
  Within window start ((j, now) ∷ requests) = (now - start < window) × Within window start requests

  allow-window :
      (l : FixedWindowRateLimiter K) (k : K) (now : Instant) → (allow l k now).1.window ≡ l.window
  unfolding allow
  allow-window l k now = ground arith

  allow-limit :
      (l : FixedWindowRateLimiter K) (k : K) (now : Instant) → (allow l k now).1.limit ≡ l.limit
  unfolding allow
  allow-limit l k now = ground arith

  -- A request, of this key or another, within the window of a key that stands.
  allow-entry :
      (l : FixedWindowRateLimiter K) (j k : K) (now : Instant) (entry : RateWindow)
      → HashMap.get l.entries k ≡ some entry
      → now - entry.started_at < l.window
      → HashMap.get (allow l j now).1.entries k ≡ some (counted l.limit (j == k) entry)
  unfolding allow open_window
  allow-entry l j k now entry e within = ground (
    arith,
    HashMap.get-retain l.entries (λ _ w. is_current l.window now w) k,
    HashMap.get-retain l.entries (λ _ w. is_current l.window now w) j,
    HashMap.get-insert (HashMap.retain l.entries (λ _ w. is_current l.window now w)) j
        (record {
          started_at =
              (open_window l.window now (
                HashMap.get (HashMap.retain l.entries (λ _ w. is_current l.window now w))
                  j)).started_at;
          count =
              (open_window l.window now
                (HashMap.get (HashMap.retain l.entries (λ _ w. is_current l.window now w)) j)).count
              + 1;
        })
        k,
    HashMap.get-insert (HashMap.retain l.entries (λ _ w. is_current l.window now w)) j
        (open_window l.window now
          (HashMap.get (HashMap.retain l.entries (λ _ w. is_current l.window now w)) j))
        k,
  )

  allow-verdict :
      (l : FixedWindowRateLimiter K) (k : K) (now : Instant) (entry : RateWindow)
      → HashMap.get l.entries k ≡ some entry
      → now - entry.started_at < l.window
      → (allow l k now).0 ≡ ltb entry.count l.limit
  unfolding allow open_window
  allow-verdict l k now entry e within =
      ground (arith, HashMap.get-retain l.entries (λ _ w. is_current l.window now w) k)

  -- Of the requests that come while a key's window is open, whatever requests of other keys come
  -- between them, as many of the key's are allowed as are left of the limit, and no more.
  pub allowed-min :
      (l : FixedWindowRateLimiter K) (k : K) (entry : RateWindow) (requests : List (K × Instant))
      → HashMap.get l.entries k ≡ some entry
      → Within l.window entry.started_at requests
      → allowed l k requests ≡ min (asked k requests) (l.limit - entry.count)
  unfolding allowed asked
  allowed-min l k entry [] e within = ground arith
  allowed-min l k entry ((j, now) ∷ requests) e within =
      let entry' = counted l.limit (j == k) entry in
      let t = (allow l j now).1 in
      ground (
        arith,
        allow-verdict l k now entry e within.0,
        allow-window l j now,
        allow-limit l j now,
        allowed-min t k entry' requests (allow-entry l j k now entry e within.0)
            (rw (allow-window l j now) within.1),
      )
