-- ===== src/Fll/TooHigh.antt =====
-- Targets beyond a word: `2u * target_freq` of `calculate_fll_params` wraps.
use native.Mathlib.Nat.{le-div_iff_mul-le}
use chimera_sdk.Base.{
  ℕ, ◌+◌, ◌-◌, ◌*◌, ◌/◌, ◌^◌, ◌≤◌, ◌<◌, ◌≡◌, arith, refl, true, false, some, u32, leb, ◌==◌,
}
use chimera_sdk.Fll.{fmax, FllParams, choose_params, calculate_fll_params}

-- A target between `2 ^ 31` and `2 ^ 31 + 825000000` lies above the hardware's bound of a quarter of
-- `2 * fmax`, but is accepted, with the parameters of a limit that the wrapped product sets.
pub too_high_accepted :
    (t rtc : ℕ)
    → 2 ^ 31 < t
    → t ≤ 2 ^ 31 + 825000000
    → 0 < rtc
    → (p : FllParams) × (calculate_fll_params true true t rtc ≡ some p) × (fmax < 2 * (t * 2))
unfolding calculate_fll_params
too_high_accepted t rtc above below pos =
    let wrapped : u32 (2 * t) ≡ 2 * t - 2 ^ 32 = omega arith in
    let t_ne : (t == 0) ≡ false = ground arith in
    let rtc_ne : (rtc == 0) ≡ false = ground arith in
    let denom_ne : (2 * t - 2 ^ 32 == 0) ≡ false = ground arith in
    let two : 2 ≤ fmax / (2 * t - 2 ^ 32) = (le-div_iff_mul-le (omega arith)).1 (omega arith) in
    let low : leb (fmax / (2 * t - 2 ^ 32)) 1 ≡ false = ground arith in
    (
      choose_params t rtc (fmax / (2 * t - 2 ^ 32)),
      rw (t_ne, rtc_ne, wrapped, denom_ne, low) refl,
      omega arith,
    )
