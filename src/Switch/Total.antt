-- ===== src/Switch/Total.antt =====
-- `configure_fll` returns.
use chimera_sdk.Base.{
  suc, ℕ, ◌/◌, ◌^◌, ◌≤◌, ◌<◌, ◌≡◌, ◌≢◌, ◌∙◌, refl, inl, inr, Option-cases, Bool-cases, true, false,
  Option, none, some, arith,
}
use chimera_sdk.Fll.{FllParams, calculate_fll_params}
use chimera_sdk.Uart.{error}
use chimera_sdk.Uart.Device.{Device, apply_all, latched}
use chimera_sdk.Switch.{
  measure_then, set_uart_clock, Board, World, program_fll, measure_and_reopen, switch_clock,
  configure_fll,
}
use chimera_sdk.Switch.Serial.{reopen_uart-clocked}
use chimera_sdk.Switch.Clock.{
  enabling, disabling, bypassed, programmed, switch_clock_refused, switch_clock_stuck,
  switch_clock_done, configure_fll_chosen,
}
use chimera_sdk.Clint.Read.{IsClock}
use chimera_sdk.Clint.Spin.{IsSlow}
use chimera_sdk.Clint.Total.{IsAdvancing, get_core_freq-total}

-- A measurement that returns is followed by a UART that opens.
measure_and_reopen-total :
    {State : Type 0} (b : Board State) (d : Device) (gain k rtc inv : ℕ) (w : World State)
    → IsClock b.counters
    → IsSlow b.counters
    → IsAdvancing b.counters gain k
    → 0 < gain
    → rtc / inv ≤ gain
    → inv ≢ 0
    → b.counters.mtime w.time < 2 ^ 62
    → w.default_uart_inst.base ≢ 0
    → latched (apply_all d w.bus.writes) ≡ false
    → (f : Option ℕ) × (w' : World State) × (measure_and_reopen b 2 (suc k) rtc inv w
        ≡ some (f, w'))
unfolding measure_and_reopen
measure_and_reopen-total b d gain k rtc inv w clock slow gains pos wide some_inv low ne closed =
    let (r, n, taken) =
      get_core_freq-total gain k rtc inv w.time clock slow gains pos wide some_inv low in
    elim (Option-cases r) [
      | inl zero_ticks ↦ (
        none,
        record w { time = n },
        rw (taken, zero_ticks, measure_then, measure_and_reopen) refl,
      )
      | inr (freq, is_freq) ↦
          let w1 = record w { time = n } in
          let (bus, opened, _) = reopen_uart-clocked b d (suc k) freq w1 ne closed in
          (
            some freq,
            record (set_uart_clock b freq w1) { bus = bus },
            rw (taken, is_freq, measure_then, measure_and_reopen, opened) refl,
          )
    ]

-- On chimera-convolve, whatever the GPIO library answers, with a UART port with an address and a
-- device whose divisor latch is closed, and on a timer below 2 ^ 62 that neither runs backwards nor
-- overflows, advances by less than 2 ^ 32 over any six accesses and, while it is below 2 ^ 63,
-- gains at least one tick and at least the reference frequency in ticks over any `k` accesses:
-- `configure_fll` returns with at most `k + 1` rounds for each loop of its measurement and two for
-- each reading of the timer.
pub configure_fll-total :
    {State : Type 0} (b : Board State) (d : Device) (gain k t rtc : ℕ) (w : World State)
    → b.convolve ≡ true
    → IsClock b.counters
    → IsSlow b.counters
    → IsAdvancing b.counters gain k
    → 0 < gain
    → rtc ≤ gain
    → b.counters.mtime w.time < 2 ^ 62
    → w.default_uart_inst.base ≢ 0
    → latched (apply_all d w.bus.writes) ≡ false
    → (f : Option ℕ) × (w' : World State) × (configure_fll b 2 (suc k) t rtc w ≡ some (f, w'))
unfolding configure_fll program_fll
configure_fll-total b d gain k t rtc w convolve clock slow gains pos wide low ne closed =
    elim (Bool-cases b.driver_fll) [
      | inr missing ↦ (some error, w, rw (missing, configure_fll) refl)
      | inl driver ↦ elim (Option-cases (calculate_fll_params true true t rtc)) [
        | inl is_none ↦ (some 0, w, rw (driver, is_none, configure_fll) refl)
        | inr (p, is_some) ↦
            let (f, w', runs) = switched p in
            (f, w', configure_fll_chosen b 2 (suc k) t rtc p w driver is_some ∙ runs)
      ]
    ]
  where
    switched :
        (p : FllParams)
        → (f : Option ℕ) × (w' : World _) × (switch_clock b 2 (suc k) p rtc w ≡ some (f, w'))
    switched p = elim (Bool-cases (enabling b w).0) [
      | inr denied ↦
          (some 0, bypassed b w, switch_clock_refused b 2 (suc k) p rtc w convolve denied)
      | inl allowed ↦ elim (Bool-cases (disabling b w).0) [
        | inr denied ↦ (
          some 0,
          programmed b p w,
          switch_clock_stuck b 2 (suc k) p rtc w convolve allowed denied,
        )
        | inl done ↦
            let (f, w', runs) =
              measure_and_reopen-total b d gain k rtc 1 (programmed b p w) clock slow gains pos
                (omega (arith, wide)) (omega arith) low ne closed in
            (f, w', switch_clock_done b 2 (suc k) p rtc w convolve allowed done ∙ runs)
      ]
    ]
