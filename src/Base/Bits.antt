-- ===== src/Base/Bits.antt =====
-- `|` and `&` on numbers cut at a bit position: the two parts are combined apart.
use Prim.Native.Nat.{
  ℕ, zero, suc, ◌+◌, ◌-◌, ◌*◌, ◌/◌, ◌%◌, ◌^◌, ◌≤◌, ◌<◌, min, max, digits, bit_and, bit_or,
  bit_and-bitwise, bit_or-bitwise,
}
use mathlib.Core.Path.{◌≡◌, refl, ◌∙◌, ap}
use native.Mathlib.Nat.{pow-suc, one-le-pow}
use native.Mathlib.Omega.{arith}

-- With fuel for the first operand, the result does not depend on the fuel.
module _ (rest : ℕ → ℕ) (op : ℕ → ℕ → ℕ) where
  same_digits : (a b j k : ℕ) → a ≤ j → a ≤ k → digits rest op j a b ≡ digits rest op k a b
  same_digits zero b zero zero hj hk = refl
  same_digits zero b zero (suc k) hj hk = refl
  same_digits zero b (suc j) zero hj hk = refl
  same_digits zero b (suc j) (suc k) hj hk = refl
  same_digits (suc a) b zero k hj hk = absurd (omega arith)
  same_digits (suc a) b (suc j) zero hj hk = absurd (omega arith)
  same_digits (suc a) b (suc j) (suc k) hj hk =
      ap (λ t. t * 2 + op (suc a % 2) (b % 2))
        (same_digits (suc a / 2) (b / 2) j k (omega arith) (omega arith))

or_digit : (a b : ℕ) → bit_or a b ≡ bit_or (a / 2) (b / 2) * 2 + max (a % 2) (b % 2)
or_digit zero b = simp bit_or-bitwise (omega arith)
or_digit (suc a) b = omega (
  arith,
  bit_or-bitwise (suc a) b,
  bit_or-bitwise (suc a / 2) (b / 2),
  same_digits (λ y. y) max (suc a / 2) (b / 2) a (suc a / 2) (omega arith) (omega arith),
)

and_digit : (a b : ℕ) → bit_and a b ≡ bit_and (a / 2) (b / 2) * 2 + min (a % 2) (b % 2)
and_digit zero b = simp bit_and-bitwise (omega arith)
and_digit (suc a) b = omega (
  arith,
  bit_and-bitwise (suc a) b,
  bit_and-bitwise (suc a / 2) (b / 2),
  same_digits (λ y. 0) min (suc a / 2) (b / 2) a (suc a / 2) (omega arith) (omega arith),
)

pow_twice : (p k : ℕ) → p * 2 ^ suc k ≡ 2 * (p * 2 ^ k)
pow_twice p k = omega (arith, ap (λ (t : ℕ). p * t) (pow-suc 2 k))

-- An operation that works digit by digit works part by part.
module _ (join op : ℕ → ℕ → ℕ)
    (digit : (a b : ℕ) → join a b ≡ join (a / 2) (b / 2) * 2 + op (a % 2) (b % 2))
    (none_set : join 0 0 ≡ 0) where
  halves : (p k q : ℕ) → (p * 2 ^ suc k + q) / 2 ≡ p * 2 ^ k + q / 2
  halves p k q = omega (arith, pow_twice p k)

  lowest : (p k q : ℕ) → (p * 2 ^ suc k + q) % 2 ≡ q % 2
  lowest p k q = omega (arith, pow_twice p k)

  unit : (p : ℕ) → p * 1 + 0 ≡ p
  unit p = omega arith

  parts :
      (k p q r s : ℕ)
      → q < 2 ^ k
      → s < 2 ^ k
      → join (p * 2 ^ k + q) (r * 2 ^ k + s) ≡ join p r * 2 ^ k + join q s
  parts zero p q r s hq hs =
      let eq : q ≡ 0 = omega arith in
      let es : s ≡ 0 = omega arith in rw (eq, es, none_set, unit p, unit r) (omega arith)
  parts (suc k) p q r s hq hs =
      rw
        (
          digit (p * 2 ^ suc k + q) (r * 2 ^ suc k + s),
          halves p k q,
          halves r k s,
          lowest p k q,
          lowest r k s,
          parts k p (q / 2) r (s / 2) (omega (arith, pow-suc 2 k)) (omega (arith, pow-suc 2 k)),
        )
        (omega (arith, digit q s, pow_twice (join p r) k))

-- `|` and `&` of numbers cut at bit `k`.
pub bit_or_parts :
    (k p q r s : ℕ)
    → q < 2 ^ k
    → s < 2 ^ k
    → bit_or (p * 2 ^ k + q) (r * 2 ^ k + s) ≡ bit_or p r * 2 ^ k + bit_or q s
bit_or_parts = parts bit_or max or_digit refl

pub bit_and_parts :
    (k p q r s : ℕ)
    → q < 2 ^ k
    → s < 2 ^ k
    → bit_and (p * 2 ^ k + q) (r * 2 ^ k + s) ≡ bit_and p r * 2 ^ k + bit_and q s
bit_and_parts = parts bit_and min and_digit refl

unchanged : (a below : ℕ) → a < below → bit_or a 0 ≡ a
unchanged a zero h = absurd (omega arith)
unchanged zero (suc below) h = refl
unchanged (suc a) (suc below) h =
    let half = unchanged (suc a / 2) below (omega arith) in omega (half, or_digit (suc a) 0, arith)

pub bit_or-zero : (a : ℕ) → bit_or a 0 ≡ a
bit_or-zero a = unchanged a (suc a) (omega arith)

pub zero-bit_or : (a : ℕ) → bit_or 0 a ≡ a
zero-bit_or a = bit_or-bitwise 0 a

cleared : (a below : ℕ) → a < below → bit_and a 0 ≡ 0
cleared a zero h = absurd (omega arith)
cleared zero (suc below) h = refl
cleared (suc a) (suc below) h =
    let half = cleared (suc a / 2) below (omega arith) in omega (half, and_digit (suc a) 0, arith)

pub bit_and-zero : (a : ℕ) → bit_and a 0 ≡ 0
bit_and-zero a = cleared a (suc a) (omega arith)

-- `|` of a number above bit `k` and one below it is their sum.
pub bit_or_sum : (k p s : ℕ) → s < 2 ^ k → bit_or (p * 2 ^ k) s ≡ p * 2 ^ k + s
bit_or_sum k p s h =
    let e : bit_or (p * 2 ^ k + 0) (0 * 2 ^ k + s) ≡ bit_or p 0 * 2 ^ k + bit_or 0 s =
      bit_or_parts k p 0 0 s (one-le-pow k 2 (omega arith)) h in
    let l : p * 2 ^ k + 0 ≡ p * 2 ^ k = omega arith in
    let r : 0 * 2 ^ k + s ≡ s = omega arith in rw (l, r, bit_or-zero p, zero-bit_or s) at e

and_ones : (k q : ℕ) → q < 2 ^ k → bit_and q (2 ^ k - 1) ≡ q
and_ones zero q h = let e : q ≡ 0 = omega arith in rw e refl
and_ones (suc k) q h =
    let e : (2 ^ suc k - 1) / 2 ≡ 2 ^ k - 1 =
      omega (arith, pow-suc 2 k, one-le-pow k 2 (omega arith)) in
    rw (and_digit q (2 ^ suc k - 1), e, and_ones k (q / 2) (omega (arith, pow-suc 2 k)))
      (omega (arith, pow-suc 2 k, one-le-pow k 2 (omega arith)))

-- A mask of the `k` low bits is a remainder.
pub bit_and_low : (k a : ℕ) → bit_and a (2 ^ k - 1) ≡ a % 2 ^ k
bit_and_low k a =
    let pos : 0 < 2 ^ k = one-le-pow k 2 (omega arith) in
    let e = bit_and_parts k (a / 2 ^ k) (a % 2 ^ k) 0 (2 ^ k - 1) (omega arith) (omega arith) in
    let l : a / 2 ^ k * 2 ^ k + a % 2 ^ k ≡ a = omega arith in
    let r : 0 * 2 ^ k + (2 ^ k - 1) ≡ 2 ^ k - 1 = omega arith in
    rw (l, r, bit_and-zero (a / 2 ^ k), and_ones k (a % 2 ^ k) (omega arith)) at e ∙ omega arith

-- A mask that starts at bit `k` clears what is below.
pub bit_and_high : (k a m : ℕ) → bit_and a (m * 2 ^ k) ≡ bit_and (a / 2 ^ k) m * 2 ^ k
bit_and_high k a m =
    let pos : 0 < 2 ^ k = one-le-pow k 2 (omega arith) in
    let e = bit_and_parts k (a / 2 ^ k) (a % 2 ^ k) m 0 (omega arith) pos in
    let l : a / 2 ^ k * 2 ^ k + a % 2 ^ k ≡ a = omega arith in
    let r : m * 2 ^ k + 0 ≡ m * 2 ^ k = omega arith in
    rw (l, r, bit_and-zero (a % 2 ^ k)) at e ∙ omega arith
