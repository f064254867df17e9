-- ===== src/Runner/Rates.antt =====
-- The time limit in ticks and the rate of operations, in 32-bit arithmetic.
use native.Mathlib.Nat.{le_refl, mul-le-mul, mod-eq_of_lt}
use chimera_sdk.Base.{ℕ, ◌+◌, ◌*◌, ◌/◌, ◌%◌, ◌^◌, ◌≤◌, ◌<◌, ◌≡◌, ◌↔◌, arith, u32}
use chimera_sdk.Runner.{timeout_ticks, kops_per_sec}

-- The time limit is never later than the configured milliseconds; it is less than one tick early if
-- and only if the product of the reference frequency and the milliseconds is below 2 ^ 32.
pub timeout_ticks-early :
    (rtc_freq timeout : ℕ)
    → (timeout_ticks rtc_freq timeout * 1000 ≤ rtc_freq * timeout)
      × ((rtc_freq * timeout < (timeout_ticks rtc_freq timeout + 1) * 1000)
          ↔ (rtc_freq * timeout < 2 ^ 32))
unfolding timeout_ticks
timeout_ticks-early rtc_freq timeout = (omega arith, (λ h. omega (arith, h), λ h. omega (arith, h)))

split_product :
    (a r b s : ℕ)
    → (a * 10000 + r) * (b * 100000 + s)
      ≡ a * b * 1000000000 + s * (a * 10000 + r) + r * (b * 100000)
split_product a r b s = omega arith

-- For a frequency of at most 1 GHz and a word of operations per million cycles, the rate does not
-- wrap: in thousands per second, it is at most what the product of the two says, and short of it by
-- at most the parts that the two divisions cut off.
pub kops_per_sec-rounds :
    (ops freq : ℕ)
    → ops < 2 ^ 32
    → freq ≤ 1000000000
    → (kops_per_sec ops freq ≡ ops / 10000 * (freq / 100000))
      × (kops_per_sec ops freq * 1000000000 ≤ ops * freq)
      × (ops * freq ≤ kops_per_sec ops freq * 1000000000 + 100000 * ops + 10000 * freq)
unfolding kops_per_sec
kops_per_sec-rounds ops freq ops_lt freq_le =
    let a = ops / 10000 in
    let b = freq / 100000 in
    let a_le : ops / 10000 ≤ 429496 = omega (arith, ops_lt) in
    let b_le : freq / 100000 ≤ 10000 = omega (arith, freq_le) in
    let ab_le : ops / 10000 * (freq / 100000) ≤ 429496 * 10000 = mul-le-mul a_le b_le in
    let whole : u32 (ops / 10000 * (freq / 100000)) ≡ ops / 10000 * (freq / 100000) =
      mod-eq_of_lt (omega (arith, ab_le)) in
    let ops_is : ops / 10000 * 10000 + ops % 10000 ≡ ops = omega arith in
    let freq_is : freq / 100000 * 100000 + freq % 100000 ≡ freq = omega arith in
    let split =
      rw (ops_is, freq_is) at
        (split_product (ops / 10000) (ops % 10000) (freq / 100000) (freq % 100000)) in
    let s_le : freq % 100000 * ops ≤ 100000 * ops = mul-le-mul (omega arith) (le_refl ops) in
    let r_le : ops % 10000 * (freq / 100000 * 100000) ≤ 10000 * freq =
      mul-le-mul (omega arith) (omega arith) in
    (whole, rw whole (omega (arith, split)), rw whole (omega (arith, split, s_le, r_le)))
