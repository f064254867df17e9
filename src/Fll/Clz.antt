-- ===== src/Fll/Clz.antt =====
-- The position of the highest set bit.
use chimera_sdk.Base.{ℕ, zero, suc, ◌+◌, ◌*◌, ◌^◌, ◌≤◌, ◌<◌, ◌≡◌, arith, Bool-cases, inl, inr, ltb}
use native.Mathlib.Nat.{pow-suc}
use chimera_sdk.Fll.{clz}

-- `w - 1 - clz w x` is the logarithm of a positive word.
pub clz_log :
    (w x : ℕ) → 0 < x → x < 2 ^ w → (e : ℕ) × (e + 1 + clz w x ≡ w) × (2 ^ e ≤ x) × (x < 2 * 2 ^ e)
unfolding clz
clz_log zero x pos h = absurd (omega arith)
clz_log (suc w) x pos h = elim (Bool-cases (ltb x (2 ^ w))) [
  | inl small ↦
      let (e, sum, lo, hi) = clz_log w x pos (ground arith) in
      (e, rw small (omega (arith, sum)), lo, hi)
  | inr big ↦ (w, rw big (omega arith), ground arith, omega (arith, pow-suc 2 w))
]
