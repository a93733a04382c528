-- ===== src/Prelude/Words.antt =====
-- `to_be_bytes` and `from_be_bytes` of the unsigned integers, at every width.
use mathlib.Core.List.{foldl, foldl-append}
use native.Mathlib.Nat.{pow-suc}
use package.civ6_lan_bridge.Prelude.Lists.{length, length-append}
use Prim.Native.Nat.{ℕ, zero, suc, ◌+◌, ◌*◌, ◌/◌, ◌%◌, ◌^◌, ◌<◌}
use mathlib.Core.Path.{◌≡◌, refl}
use mathlib.Core.List.{List, [], ◌∷◌, ◌++◌}
use native.Mathlib.Omega.{arith}

-- The low `8 * k` bits of `x`, high byte first.
unfoldable pub to_be_bytes : ℕ → ℕ → List ℕ
to_be_bytes zero x = []
to_be_bytes (suc k) x = to_be_bytes k (x / 256) ++ (x % 256) ∷ []

abbrev pub shift_in : ℕ → ℕ → ℕ
shift_in acc b = acc * 256 + b

unfoldable pub from_be_bytes : List ℕ → ℕ
from_be_bytes bs = foldl shift_in 0 bs

abbrev pub IsByte : ℕ → Type 0
IsByte b = b < 256

pub length-to_be_bytes : (k x : ℕ) → length (to_be_bytes k x) ≡ k
unfolding to_be_bytes
length-to_be_bytes zero x = refl
length-to_be_bytes (suc k) x = omega (
  arith,
  length-append (to_be_bytes k (x / 256)) ((x % 256) ∷ []),
  length-to_be_bytes k (x / 256),
)

-- The bytes of a word that fits give the word back.
pub from_be_bytes-to_be_bytes : (k x : ℕ) → x < 256 ^ k → from_be_bytes (to_be_bytes k x) ≡ x
unfolding from_be_bytes to_be_bytes
from_be_bytes-to_be_bytes zero x h = omega arith
from_be_bytes-to_be_bytes (suc k) x h =
    rw (foldl-append, from_be_bytes-to_be_bytes k (x / 256) smaller) (omega arith)
  where
    smaller : x / 256 < 256 ^ k
    smaller = omega (arith, pow-suc 256 k)
