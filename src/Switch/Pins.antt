-- ===== src/Switch/Pins.antt =====
-- The pins when `restore_default_freq` is over, whatever the UART and the timer do.
use chimera_sdk.Base.{
  ℕ, ◌/◌, ◌≡◌, ◌⊎◌, ◌∙◌, refl, sym, inl, inr, Bool, Bool-cases, true, false, Option, Option-cases,
  some,
}
use chimera_sdk.Clint.{get_core_freq}
use chimera_sdk.Uart.{iface_open}
use chimera_sdk.Switch.Clock.{enabling, bypassed, restore_default_freq_done}
use chimera_sdk.Switch.{
  IsLawful, Board, World, bypass_pin, measure_then, reopen_uart, measure_and_reopen, set_uart_clock,
  uart_of, restore_default_freq,
}

reopen_uart-pins :
    {State : Type 0} (b : Board State) (fuel freq : ℕ) (w : World State) {f : Option ℕ}
    {w' : World State}
    → reopen_uart b fuel freq w ≡ some (f, w')
    → w'.pins ≡ w.pins
unfolding reopen_uart set_uart_clock
reopen_uart-pins b fuel freq w {f} {w'} e =
    let w1 = set_uart_clock b freq w in
    elim (Option-cases (iface_open (uart_of b fuel w1) w1.bus)) [
      | inl is_none ↦ cc (rw (is_none, reopen_uart) at e)
      | inr (r, is_some) ↦
          let ends : record w1 { bus = r.1 } ≡ w' = cc (rw (is_some, reopen_uart) at e) in
          rw (← ends) refl
    ]

measure_and_reopen-pins :
    {State : Type 0} (b : Board State) (reads fuel rtc inv : ℕ) (w : World State) {f : Option ℕ}
    {w' : World State}
    → measure_and_reopen b reads fuel rtc inv w ≡ some (f, w')
    → w'.pins ≡ w.pins
unfolding measure_and_reopen
measure_and_reopen-pins b reads fuel rtc inv w {f} {w'} e =
    elim (Option-cases (get_core_freq b.counters reads fuel rtc inv w.time)) [
      | inl is_none ↦ cc (rw (is_none, measure_then) at e)
      | inr (r, is_some) ↦ elim (Option-cases r.0) [
        | inl by_zero ↦
            let ends : record w { time = r.1 } ≡ w' =
              cc (rw (is_some, by_zero, measure_then) at e) in
            rw (← ends) refl
        | inr (freq, is_freq) ↦
            reopen_uart-pins b fuel freq (record w { time = r.1 })
              (rw (is_some, is_freq, measure_then) at e)
      ]
    ]

-- On chimera-convolve with the FLL driver and a GPIO library that keeps its promises, a
-- `restore_default_freq` that returns leaves the bypass on, unless the library refused its write.
pub restore_default_freq-pins :
    {State : Type 0} (b : Board State) (level : State → ℕ → Bool) (reads fuel rtc : ℕ)
    (w : World State) {f : Option ℕ} {w' : World State}
    → IsLawful b.gpio level
    → b.driver_fll ≡ true
    → b.convolve ≡ true
    → restore_default_freq b reads fuel rtc w ≡ some (f, w')
    → (level w'.pins bypass_pin ≡ true) ⊎ ((b.gpio.write bypass_pin true w.pins).0 ≡ false)
restore_default_freq-pins b level reads fuel rtc w lawful driver convolve e =
    elim (Bool-cases (enabling b w).0) [
      | inr denied ↦ inr denied
      | inl allowed ↦
          let e1 = sym (restore_default_freq_done b reads fuel rtc w driver convolve allowed) ∙ e in
          let same = measure_and_reopen-pins b reads fuel rtc (rtc / 128) (bypassed b w) e1 in
          inl (rw same (lawful.sets bypass_pin true w.pins allowed))
    ]
