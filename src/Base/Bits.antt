-- ===== src/Base/Bits.antt =====
-- `|` of disjoint fields and `&` with a low mask as arithmetic, at every width. The native
-- operations have no law at variables but the recursion on digits that they stand for.
use Prim.Native.Nat.{min, max, bit_and, bit_or, digits, bit_and-bitwise, bit_or-bitwise}
use Prim.Native.Nat.{ℕ, zero, suc, ◌+◌, ◌-◌, ◌*◌, ◌/◌, ◌%◌, ◌^◌, ◌≤◌, ◌<◌}
use mathlib.Core.Path.{◌≡◌, refl, ap}
use native.Mathlib.Omega.{arith}
use native.Mathlib.Nat.{
  pow-suc, pow-zero, add-zero, mul-one, add-suc, mul_assoc, one-le-pow, div-add-mod,
  mul-le-mul_right, mod-lt,
}

module _ (z : ℕ → ℕ) (f : ℕ → ℕ → ℕ) where
  -- The fuel of `digits` does not matter once it is enough.
  digits_enough : (n m a b : ℕ) → a ≤ n → a ≤ m → digits z f n a b ≡ digits z f m a b
  digits_enough zero zero a b p q = refl
  digits_enough zero (suc m) zero b p q = refl
  digits_enough zero (suc m) (suc a) b p q = absurd (omega arith)
  digits_enough (suc n) zero zero b p q = refl
  digits_enough (suc n) zero (suc a) b p q = absurd (omega arith)
  digits_enough (suc n) (suc m) zero b p q = refl
  digits_enough (suc n) (suc m) (suc a) b p q =
      omega (arith, digits_enough n m (suc a / 2) (b / 2) (omega arith) (omega arith))

pub bit_and_step : (a b : ℕ) → bit_and a b ≡ bit_and (a / 2) (b / 2) * 2 + min (a % 2) (b % 2)
bit_and_step zero b = omega (arith, bit_and-bitwise 0 b, bit_and-bitwise 0 (b / 2))
bit_and_step (suc a) b = omega (
  arith,
  bit_and-bitwise (suc a) b,
  bit_and-bitwise (suc a / 2) (b / 2),
  digits_enough (λ y. 0) min a (suc a / 2) (suc a / 2) (b / 2) (omega arith) (omega arith),
)

pub bit_or_step : (a b : ℕ) → bit_or a b ≡ bit_or (a / 2) (b / 2) * 2 + max (a % 2) (b % 2)
bit_or_step zero b = omega (arith, bit_or-bitwise 0 b, bit_or-bitwise 0 (b / 2))
bit_or_step (suc a) b = omega (
  arith,
  bit_or-bitwise (suc a) b,
  bit_or-bitwise (suc a / 2) (b / 2),
  digits_enough (λ y. y) max a (suc a / 2) (suc a / 2) (b / 2) (omega arith) (omega arith),
)

bit_and-zero_within : (n a : ℕ) → a ≤ n → bit_and a 0 ≡ 0
bit_and-zero_within n zero h = refl
bit_and-zero_within zero (suc a) h = absurd (omega arith)
bit_and-zero_within (suc n) (suc a) h =
    omega (arith, bit_and_step (suc a) 0, bit_and-zero_within n (suc a / 2) (omega arith))

pub zero-bit_or : (a : ℕ) → bit_or 0 a ≡ a
zero-bit_or a = bit_or-bitwise 0 a

twice_pow : (q k : ℕ) → q * 2 ^ suc k ≡ 2 * (q * 2 ^ k)
twice_pow q k = omega (arith, ap (λ (t : ℕ). q * t) (pow-suc 2 k))

-- `r | (q << k)` is a sum where `r` fits `k` bits.
pub bit_or-shifted : (k r q : ℕ) → r < 2 ^ k → bit_or r (q * 2 ^ k) ≡ r + q * 2 ^ k
bit_or-shifted zero r q fits = ground (arith, zero-bit_or q)
bit_or-shifted (suc k) r q fits = ground (
  arith,
  bit_or_step r (q * 2 ^ suc k),
  twice_pow q k,
  pow-suc 2 k,
  bit_or-shifted k (r / 2) q (omega (arith, pow-suc 2 k)),
)

bit_and_fields : (k q r : ℕ) → r < 2 ^ k → bit_and (q * 2 ^ k + r) (2 ^ k - 1) ≡ r
bit_and_fields zero q r fits = ground (arith, bit_and-zero_within (q * 2 ^ 0 + r) (q * 2 ^ 0 + r))
bit_and_fields (suc k) q r fits = ground (
  arith,
  bit_and_step (q * 2 ^ suc k + r) (2 ^ suc k - 1),
  twice_pow q k,
  pow-suc 2 k,
  one-le-pow k 2,
  bit_and_fields k q (r / 2) (omega (arith, pow-suc 2 k)),
)

-- A mask of `k` low bits takes the remainder by `2 ^ k`.
pub bit_and-mask : (k a : ℕ) → bit_and a (2 ^ k - 1) ≡ a % 2 ^ k
bit_and-mask k a = ground (arith, one-le-pow k 2, bit_and_fields k (a / 2 ^ k) (a % 2 ^ k))

pub pow_add : (a k j : ℕ) → a ^ (k + j) ≡ a ^ k * a ^ j
pow_add a k zero = simp (add-zero, pow-zero, mul-one)
pow_add a k (suc j) = rw (add-suc, pow-suc a (k + j), pow-suc a j, pow_add a k j) (mul_assoc _ _ _)

-- A shift by `k` within a word of `k + j` bits keeps the low `j` bits.
shifted_parts :
    (k j x : ℕ)
    → (x * 2 ^ k ≡ x / 2 ^ j * 2 ^ (k + j) + x % 2 ^ j * 2 ^ k)
      × (x % 2 ^ j * 2 ^ k + 2 ^ k ≤ 2 ^ (k + j))
shifted_parts k j x = (
  omega (
    arith,
    ap (λ (t : ℕ). t * 2 ^ k) (div-add-mod x (2 ^ j)),
    ap (λ (t : ℕ). x / 2 ^ j * t) (pow_add 2 k j),
  ),
  omega (
    arith,
    pow_add 2 k j,
    mul-le-mul_right (2 ^ k) (mod-lt x {m = 2 ^ j} (one-le-pow j 2 (omega arith))),
  ),
)

-- `r | (x << k)` in a 64-bit word is a sum that wraps, where `r` lies below bit `k`.
pub bit_or-shl64 :
    (k j x r : ℕ)
    → k + j ≡ 64
    → r < 2 ^ k
    → bit_or r (x * 2 ^ k % 2 ^ 64) ≡ (r + x * 2 ^ k) % 2 ^ 64
bit_or-shl64 k j x r e fits =
    let w : 2 ^ (k + j) ≡ 2 ^ 64 = ap (λ (t : ℕ). 2 ^ t) e in
    let (split, bound) = shifted_parts k j x in
    let cut : x * 2 ^ k % 2 ^ 64 ≡ x % 2 ^ j * 2 ^ k =
      omega (arith, split, bound, w, ap (λ (t : ℕ). x / 2 ^ j * t) w) in
    rw cut (
      omega (
        arith,
        bit_or-shifted k r (x % 2 ^ j) fits,
        split,
        bound,
        w,
        ap (λ (t : ℕ). x / 2 ^ j * t) w,
      ))

-- A mask with `k` low bits clear reads the bits above alone.
pub bit_and-above :
    (k q r m : ℕ) → r < 2 ^ k → bit_and (q * 2 ^ k + r) (m * 2 ^ k) ≡ bit_and q m * 2 ^ k
bit_and-above zero q r m fits =
    let qs : q * 2 ^ 0 + r ≡ q = omega arith in
    let ms : m * 2 ^ 0 ≡ m = omega arith in rw (qs, ms) (omega arith)
bit_and-above (suc k) q r m fits = ground (
  arith,
  bit_and_step (q * 2 ^ suc k + r) (m * 2 ^ suc k),
  twice_pow q k,
  twice_pow m k,
  twice_pow (bit_and q m) k,
  pow-suc 2 k,
  bit_and-above k q (r / 2) m (omega (arith, pow-suc 2 k)),
)

-- A mask in two parts reads the two parts of a number.
pub bit_and-parts :
    (k q r m l : ℕ)
    → r < 2 ^ k
    → l < 2 ^ k
    → bit_and (q * 2 ^ k + r) (m * 2 ^ k + l) ≡ bit_and q m * 2 ^ k + bit_and r l
bit_and-parts zero q r m l hr hl =
    let qs : q * 2 ^ 0 + r ≡ q = omega arith in
    let ms : m * 2 ^ 0 + l ≡ m = omega arith in
    let rs : r ≡ 0 = omega arith in
    let ls : l ≡ 0 = omega arith in
    let nothing : bit_and 0 0 ≡ 0 = refl in rw (qs, ms, rs, ls, nothing) (omega arith)
bit_and-parts (suc k) q r m l hr hl = ground (
  arith,
  bit_and_step (q * 2 ^ suc k + r) (m * 2 ^ suc k + l),
  bit_and_step r l,
  twice_pow q k,
  twice_pow m k,
  twice_pow (bit_and q m) k,
  pow-suc 2 k,
  bit_and-parts k q (r / 2) m (l / 2) (omega (arith, pow-suc 2 k)) (omega (arith, pow-suc 2 k)),
)

pub bit_and-zero : (a : ℕ) → bit_and a 0 ≡ 0
bit_and-zero a = bit_and-zero_within a a (omega arith)

pub pow-below : (a k : ℕ) → a < k → 2 ^ a < 2 ^ k
pow-below a zero h = absurd (omega (arith, h))
pow-below zero (suc k) h = omega (arith, one-le-pow k 2)
pow-below (suc a) (suc k) h = let below = pow-below a k (omega (arith, h)) in omega (arith, below)
