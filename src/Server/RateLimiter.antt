-- ===== src/Server/RateLimiter.antt =====
-- server/src/state.rs: `FixedWindowRateLimiter`. The mutex is never poisoned. The keys, strings in
-- the source, are of any type with decidable equality.
pub mod Windows
use civ6_lan_bridge.Prelude.{
  ℕ, ◌+◌, ◌-◌, Bool, true, false, ltb, leb, Key, if◌then◌else◌, Option, none, some,
}
use civ6_lan_bridge.Prelude.HashMap
use civ6_lan_bridge.Prelude.HashMap.{HashMap}
use civ6_lan_bridge.Router.State.{Instant, Duration}

pub record RateWindow : Type 0 where
  pub started_at : Instant
  pub count : ℕ

pub record FixedWindowRateLimiter (K : Type 0) ⦃key : Key K⦄ : Type 0 where
  pub limit : ℕ
  pub window : Duration
  pub entries : HashMap K RateWindow

abbrev pub is_current : Duration → Instant → RateWindow → Bool
is_current window now entry = ltb (now - entry.started_at) window

-- `entries.entry(key).or_insert(..)`, and the test behind it.
unfoldable pub open_window : Duration → Instant → Option RateWindow → RateWindow
open_window window now none = record { started_at = now; count = 0 }
open_window window now (some entry) =
    if leb window (now - entry.started_at) then record { started_at = now; count = 0 } else entry

module _ {K : Type 0} ⦃key : Key K⦄ where
  -- `FixedWindowRateLimiter::new`
  unfoldable pub new_limiter : ℕ → Duration → FixedWindowRateLimiter K
  new_limiter limit window = record { limit = limit; window = window; entries = HashMap.new }

  unfoldable pub allow : FixedWindowRateLimiter K → K → Instant → Bool × FixedWindowRateLimiter K
  allow l k now =
      let entries = HashMap.retain l.entries (λ _ entry. is_current l.window now entry) in
      let entry = open_window l.window now (HashMap.get entries k) in
      if leb l.limit entry.count
      then (false, record l { entries = HashMap.insert entries k entry })
      else (
        true,
        record l {
          entries =
              HashMap.insert entries k
                (record { started_at = entry.started_at; count = entry.count + 1 });
        },
      )
