-- ===== src/Clint/Total.antt =====
-- `clint_get_core_freq` returns: both of its loops end on a timer that keeps advancing.
use chimera_sdk.Base.{
  ℕ, zero, suc, ◌+◌, ◌/◌, ◌^◌, ◌≤◌, ◌<◌, ◌≡◌, ◌≢◌, ◌∙◌, refl, inl, inr, Bool-cases, true, false,
  some, arith, u32, ◌==◌, ◌&&◌, ==-ne, Option,
}
use chimera_sdk.Clint.{
  Mtime, value, IsMtime, Counters, ◌>>=◌, less_than, Sample, sample, await_tick, await_target,
  freq_target, quotient, get_core_freq,
}
use chimera_sdk.Clint.Read.{IsClock, IsReading, get_mtime-IsReading, get_mtime-total}
use chimera_sdk.Clint.Spin.{IsSlow, already_late}
use chimera_sdk.Clint.Freq.{IsSample, sample-IsSample, await_tick-IsSample}
use chimera_sdk.Clint.Measure.{freq_target-IsMtime}

-- A sample is taken within seven accesses.
sample-total :
    {c : Counters} (n : ℕ)
    → IsClock c
    → IsSlow c
    → (s : Sample) × (k : ℕ) × (sample c 2 n ≡ some (s, k)) × (k ≤ n + 7)
unfolding sample
sample-total {c} n clock slow =
    let (m, k, read, near) = get_mtime-total 0 (n + 1) clock (slow (n + 1)) in
    (record { cycle = u32 (c.mcycle n); time = m }, k, rw (read, ◌>>=◌) refl, omega (arith, near))

await_tick_round :
    (c : Counters) (reads fuel : ℕ) (end : Mtime) (n : ℕ) (s : Sample) (k : ℕ)
    → sample c reads n ≡ some (s, k)
    → await_tick c reads (suc fuel) end n
      ≡ elim (s.time.low == end.low && s.time.high == end.high) [
        | true ↦ await_tick c reads fuel end k
        | false ↦ some (s, k)
      ]
unfolding await_tick
await_tick_round c reads fuel end n s k e = rw (e, ◌>>=◌)

await_target_round :
    (c : Counters) (reads fuel : ℕ) (target : Mtime) (n : ℕ) (s : Sample) (k : ℕ)
    → sample c reads n ≡ some (s, k)
    → await_target c reads (suc fuel) target n ≡ elim (less_than s.time target) [
      | true ↦ await_target c reads fuel target k
      | false ↦ some (s, k)
    ]
unfolding await_target
await_target_round c reads fuel target n s k e = rw (e, ◌>>=◌)

-- The timer is at most two carries past a time read at most five accesses ago.
soon : {c : Counters} (n k : ℕ) → IsClock c → IsSlow c → k ≤ n + 7 → c.mtime k < c.mtime n + 2 ^ 33
soon {c} n k clock slow near =
    omega (arith, clock.mono k (n + 5 + 5) (omega arith), slow n, slow (n + 5))

same_time : (s end : Mtime) → (s.low == end.low && s.high == end.high) ≡ true → value s ≡ value end
same_time s end h = ground arith

-- The first loop ends within `k + 1` rounds if the timer has passed `end` by `k` accesses from now.
await_tick-total :
    {c : Counters} (k : ℕ) (end : Mtime) (n : ℕ)
    → IsClock c
    → IsSlow c
    → c.mtime n < value end + 2 ^ 33
    → value end < c.mtime (n + k)
    → (s : Sample) × (n' : ℕ) × (await_tick c 2 (suc k) end n ≡ some (s, n'))
      × (c.mtime n' < value end + 2 ^ 34)
await_tick-total {c} zero end n clock slow near past =
    let (s, n1, taken, short) = sample-total n clock slow in
    let r : IsSample c n s n1 = sample-IsSample 2 n clock taken in
    let round = await_tick_round c 2 0 end n s n1 taken in
    elim (Bool-cases (s.time.low == end.low && s.time.high == end.high)) [
      | inr moved ↦ (s, n1, round ∙ rw moved, omega (arith, near, soon n n1 clock slow short))
      | inl same ↦ absurd (
          omega (
            arith,
            same_time s.time end same,
            r.time_at.exact,
            past,
            clock.mono (n + 0) r.time_at.at (omega (arith, r.later, r.time_at.after)),
          ))
    ]
await_tick-total {c} (suc k) end n clock slow near past =
    let (s, n1, taken, short) = sample-total n clock slow in
    let r : IsSample c n s n1 = sample-IsSample 2 n clock taken in
    let round = await_tick_round c 2 (suc k) end n s n1 taken in
    elim (Bool-cases (s.time.low == end.low && s.time.high == end.high)) [
      | inr moved ↦ (s, n1, round ∙ rw moved, omega (arith, near, soon n n1 clock slow short))
      | inl same ↦
          let near1 : c.mtime n1 < value end + 2 ^ 33 = omega (
            arith,
            same_time s.time end same,
            r.time_at.exact,
            slow r.time_at.at,
            clock.mono n1 (r.time_at.at + 5) (omega (arith, r.later, r.time_at.after, short)),
          ) in
          let past1 : value end < c.mtime (n1 + k) = omega (
            arith,
            past,
            clock.mono (n + suc k) (n1 + k)
                (omega (arith, r.later, r.time_at.after, r.time_at.before)),
          ) in
          let (s', n', runs, close) = await_tick-total k end n1 clock slow near1 past1 in
          (s', n', round ∙ rw same runs, close)
    ]

-- The second loop ends within `k + 1` rounds if the timer reaches the target `k` accesses from now.
await_target-total :
    {c : Counters} (k : ℕ) (target : Mtime) (n : ℕ)
    → IsClock c
    → IsSlow c
    → IsMtime target
    → value target ≤ c.mtime (n + k)
    → (s : Sample) × (n' : ℕ) × (await_target c 2 (suc k) target n ≡ some (s, n'))
await_target-total {c} zero target n clock slow ok reached =
    let (s, n1, taken, short) = sample-total n clock slow in
    let r : IsSample c n s n1 = sample-IsSample 2 n clock taken in
    let late =
      already_late s.time target clock r.time_at ok
        (omega (arith, reached, clock.mono (n + 0) (r.from + 1) (omega (arith, r.later)))) in
    (s, n1, await_target_round c 2 0 target n s n1 taken ∙ rw late)
await_target-total {c} (suc k) target n clock slow ok reached =
    let (s, n1, taken, short) = sample-total n clock slow in
    let r : IsSample c n s n1 = sample-IsSample 2 n clock taken in
    let round = await_target_round c 2 (suc k) target n s n1 taken in
    elim (Bool-cases (less_than s.time target)) [
      | inr late ↦ (s, n1, round ∙ rw late)
      | inl early ↦
          let (s', n', runs) = await_target-total k target n1 clock slow ok (
            omega (
              arith,
              reached,
              clock.mono (n + suc k) (n1 + k)
                  (omega (arith, r.later, r.time_at.after, r.time_at.before)),
            )) in
          (s', n', round ∙ rw early runs)
    ]

-- Below 2 ^ 63 the timer gains at least `gain` over any `k` accesses.
abbrev pub IsAdvancing : Counters → ℕ → ℕ → Type 0
IsAdvancing c gain k = (i : ℕ) → c.mtime i < 2 ^ 63 → c.mtime i + gain ≤ c.mtime (i + k)

freq_target-near : (s : Mtime) (num : ℕ) → value (freq_target s num) ≤ value s + num
unfolding freq_target
freq_target-near s num = omega arith

-- On a timer below 2 ^ 62 that neither runs backwards nor overflows, advances by less than 2 ^ 32
-- over any six accesses and, while it is below 2 ^ 63, gains at least one tick and the reference
-- ticks over any `k` accesses: `clint_get_core_freq` returns with at most `k + 1` rounds for each
-- of its two loops and two rounds for each reading, for any reference time that is not 0.
pub get_core_freq-total :
    {c : Counters} (gain k ref_freq ref_time_inv n : ℕ)
    → IsClock c
    → IsSlow c
    → IsAdvancing c gain k
    → 0 < gain
    → ref_freq / ref_time_inv ≤ gain
    → ref_time_inv ≢ 0
    → c.mtime n < 2 ^ 62
    → (f : Option ℕ) × (n' : ℕ) × (get_core_freq c 2 (suc k) ref_freq ref_time_inv n ≡ some (f, n'))
unfolding get_core_freq
get_core_freq-total {c} gain k ref inv n clock slow gains pos wide ne low =
    let (m, n1, read, near) = get_mtime-total 0 n clock (slow n) in
    let r : IsReading c n m n1 = get_mtime-IsReading 2 n clock read in
    let after_read : c.mtime n1 < c.mtime n + 2 ^ 33 = soon n n1 clock slow (omega (arith, near)) in
    let began : c.mtime n ≤ value m =
      omega (arith, r.exact, clock.mono n r.at (omega (arith, r.after))) in
    let passed : value m ≤ c.mtime n1 =
      omega (arith, r.exact, clock.mono r.at n1 (omega (arith, r.before))) in
    let (s, n2, ticked, close) =
      await_tick-total k m n1 clock slow (omega (arith, after_read, began))
        (omega (arith, passed, pos, gains n1 (omega (arith, after_read, low)))) in
    let first : IsSample c n1 s n2 = await_tick-IsSample 2 (suc k) m n1 clock ticked in
    let ok = freq_target-IsMtime s.time (ref / inv) first.time_at.words in
    let taken : value s.time ≤ c.mtime n2 = omega (
      arith,
      first.time_at.exact,
      clock.mono first.time_at.at n2 (omega (arith, first.time_at.before)),
    ) in
    let reached : value (freq_target s.time (ref / inv)) ≤ c.mtime (n2 + k) = omega (
      arith,
      freq_target-near s.time (ref / inv),
      taken,
      wide,
      gains n2 (omega (arith, close, after_read, passed, low)),
    ) in
    let (e, n3, ended) =
      await_target-total k (freq_target s.time (ref / inv)) n2 clock slow ok reached in
    (quotient ref s e, n3, rw (==-ne inv 0 ne, read, ◌>>=◌, ticked, ◌>>=◌, ended, ◌>>=◌) refl)
