-- ===== src/Base/Words.antt =====
-- Bytes: masks as arithmetic, and checks of all values below a bound.
use Prim.Native.Nat.{ℕ, zero, suc, ◌*◌, ◌/◌, ◌%◌, ◌<◌, bit_and, bit_or}
use mathlib.Core.Path.{◌≡◌, refl}
use mathlib.Core.Bool.{Bool, true, false}
use native.Mathlib.Omega.{arith}
use easy_rpc_go.Base.Tests.{if◌then◌else◌, ◌==◌, ==_iff}
pub use Prim.Native.Nat.{bit_and, bit_or}

abbrev pub IsByte : ℕ → Type 0
IsByte b = b < 256

-- Whether a test holds of every number below a bound, by running it on each.
unfoldable pub holds_below : (ℕ → Bool) → ℕ → Bool
holds_below test zero = true
holds_below test (suc bound) = if test bound then holds_below test bound else false

-- A number below the bound passes.
pub holds_below-true :
    (test : ℕ → Bool) (bound k : ℕ) → holds_below test bound ≡ true → k < bound → test k ≡ true
unfolding holds_below
holds_below-true test (suc bound) k passed below = ground (arith, holds_below-true test bound k)
holds_below-true test zero k passed below = absurd (omega arith)

bit_zero_table : holds_below (λ b. bit_and b 0x01 == b % 2) 256 ≡ true
unfolding holds_below
bit_zero_table = refl

bit_one_table : holds_below (λ b. bit_and b 0x02 == b / 2 % 2 * 2) 256 ≡ true
unfolding holds_below
bit_one_table = refl

-- `b & 0x01` and `b & 0x02`.
pub bit_zero : (b : ℕ) → IsByte b → bit_and b 0x01 ≡ b % 2
bit_zero b h = (==_iff _ _).0 (holds_below-true _ 256 b bit_zero_table h)

pub bit_one : (b : ℕ) → IsByte b → bit_and b 0x02 ≡ b / 2 % 2 * 2
bit_one b h = (==_iff _ _).0 (holds_below-true _ 256 b bit_one_table h)
