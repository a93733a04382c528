-- ===== src/Client/Backoff.antt =====
-- crates/client-core/src/lib.rs: the delays of `RelaySession` before it tries to reconnect.
use civ6_lan_bridge.Prelude.{ℕ, ◌+◌, ◌*◌, ◌^◌, ◌≤◌, ◌≡◌, ap, ◌∙◌, arith}
use native.Mathlib.Nat.{two-pow-succ}
use civ6_lan_bridge.Client.Session.{RelaySession, reconnect_delay}

abbrev pub attempts_made : RelaySession → ℕ → RelaySession
attempts_made session n = record session {
  snapshot = record session.snapshot { reconnect_attempts = n };
}

twice : (a x : ℕ) → a * (x + x) ≡ 2 * (a * x)
twice a x = omega arith

doubled : (a n : ℕ) → a * 2 ^ (n + 1) ≡ 2 * (a * 2 ^ n)
doubled a n =
    let next : 2 ^ (n + 1) ≡ 2 ^ n + 2 ^ n = ground (arith, two-pow-succ n) in
    ap (λ p. a * p) next ∙ twice a (2 ^ n)

-- The delay before an attempt to reconnect never exceeds the configured maximum; from one
-- attempt to the next it does not fall and at most doubles; from the fifth attempt on it stays
-- the same.
pub reconnect_delay_bounds :
    (session : RelaySession) (n : ℕ)
    → (reconnect_delay (attempts_made session n) ≤ session.config.reconnect_max_backoff)
      × (reconnect_delay (attempts_made session n)
          ≤ reconnect_delay (attempts_made session (n + 1)))
      × (reconnect_delay (attempts_made session (n + 1))
          ≤ 2 * reconnect_delay (attempts_made session n))
      × (5 ≤ n
          → reconnect_delay (attempts_made session n) ≡ reconnect_delay (attempts_made session 5))
unfolding reconnect_delay
reconnect_delay_bounds session n =
    let b = session.config.reconnect_initial_backoff in
    ground (arith, doubled b n, (λ (h : 5 ≤ n). h))
