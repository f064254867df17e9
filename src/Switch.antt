-- ===== src/Switch.antt =====
-- The switch of the clock, host/runtime/src/fll.c, and the start of the UART, host/runtime/src/uart.c:
-- they drive the frequency-locked loops, the bypass pin, the timer and the UART together. The write
-- of a GPIO pin is a call of OpenTitan's library, a parameter here.
pub mod Bypass
pub mod Clock
pub mod Serial
pub mod Outcome
pub mod Total
pub mod Pins
mod Tests
use chimera_sdk.Base.{
  ℕ, ◌+◌, ◌-◌, ◌/◌, ◌^◌, ◌≡◌, ◌≢◌, Bool, true, false, not, Option, none, some, List, [], ◌∷◌, ◌++◌,
  ◌==◌, if◌then◌else◌,
}
use chimera_sdk.Mmio.{Regs, write32}
use chimera_sdk.Clint.{Counters, get_core_freq}
use chimera_sdk.Fll.{FllParams, calculate_fll_params, get_fll_ptr, cfg1, init_word, freq_word}
use chimera_sdk.Uart.{
  Line, Bus, Config, Port, Io, error, default_uart_api, Interface, iface_open, apb_open, apb_close,
  Backend, gvsoc, rtl, asic,
}

-- `dif_gpio_write(&gpio, pin, state)`: true is `kDifOk`.
pub record Gpio (State : Type 0) : Type 0 where
  pub write : ℕ → Bool → State → Bool × State

-- What a board relies on: a write that succeeds sets its pin, and only that one; a write that fails
-- leaves the pins alone.
pub record IsLawful {State : Type 0} (g : Gpio State) (level : State → ℕ → Bool) : Type 0 where
  pub sets :
      (pin : ℕ) (v : Bool) (s : State)
      → (g.write pin v s).0 ≡ true
      → level (g.write pin v s).1 pin ≡ v
  pub keeps :
      (pin other : ℕ) (v : Bool) (s : State)
      → other ≢ pin
      → level (g.write pin v s).1 other ≡ level s other
  pub refuses :
      (pin other : ℕ) (v : Bool) (s : State)
      → (g.write pin v s).0 ≡ false
      → level (g.write pin v s).1 other ≡ level s other

-- The board and the build: whether the FLL driver is in it and whether it is chimera-convolve's.
pub record Board (State : Type 0) : Type 0 where
  pub gpio : Gpio State
  pub counters : Counters
  pub line : Line
  pub system_regs : Regs
  pub default_uart_cfg : Config
  pub driver_fll : Bool
  pub convolve : Bool

-- The state that the functions change: the loops' registers, the pins, `default_uart_inst`, the UART,
-- and how often the timer was accessed. Each write of a loop's register is logged with its address,
-- its value and the pins as they stood.
pub record World (State : Type 0) : Type 0 where
  pub fll : Regs
  pub pins : State
  pub default_uart_inst : Port
  pub bus : Bus
  pub time : ℕ
  pub log : List (ℕ × ℕ × State)

-- A result and the world behind it: the outer `none` if the rounds of a loop ran out, the inner one
-- for a division by zero.
abbrev pub Run : Type 0 → Type 0
Run State = Option (Option ℕ × World State)

abbrev pub bypass_pin : ℕ
bypass_pin = 2

-- The write of the bypass pin, on chimera-convolve only.
unfoldable pub set_bypass : {State : Type 0} → Board State → Bool → World State → Bool × World State
set_bypass b on w =
    if b.convolve
    then (let r = b.gpio.write bypass_pin on w.pins in (r.0, record w { pins = r.1 }))
    else (true, w)

-- A store to a register of a loop, and its entry in the log.
abbrev pub write_fll : {State : Type 0} → ℕ → ℕ → World State → World State
write_fll a v w = record w { fll = write32 a v w.fll; log = w.log ++ ((a, v, w.pins) ∷ []) }

-- `initFll(fllPtr); setFllFreq(fllPtr, mult, div);` for one loop: two stores, each of a word made of
-- the word that is read.
pub program_fll : {State : Type 0} → FllParams → ℕ → World State → World State
program_fll p fll_idx w =
    let a = cfg1 (get_fll_ptr fll_idx) in
    let ready = write_fll a (init_word (w.fll a)) w in write_fll a (freq_word p (ready.fll a)) ready

-- `uart_cfg = default_uart_cfg; uart_cfg.clk_freq_hz = freq; default_uart_inst.cfg = &uart_cfg;`
unfoldable pub set_uart_clock : {State : Type 0} → Board State → ℕ → World State → World State
set_uart_clock b freq w = record w {
  default_uart_inst = record w.default_uart_inst {
    cfg = record b.default_uart_cfg { clk_freq_hz = freq };
  };
}

abbrev pub uart_of : {State : Type 0} → Board State → ℕ → World State → Option Interface
uart_of b fuel w =
    some (record { api = some (default_uart_api b.line fuel); port = w.default_uart_inst })

-- The end of both functions: the UART is opened again, with the frequency just measured.
unfoldable pub reopen_uart : {State : Type 0} → Board State → ℕ → ℕ → World State → Run State
reopen_uart b fuel freq w =
    let w1 = set_uart_clock b freq w in
    elim (iface_open (uart_of b fuel w1) w1.bus) [
      | none ↦ none
      | some r ↦ some (some (if r.0 == 0 then freq else 0), record w1 { bus = r.1 })
    ]

-- `clint_get_core_freq(rtc_freq, ref_time_inv)`, and then `go` with the frequency.
abbrev pub measure_then :
    {State : Type 0}
    → Board State
    → ℕ
    → ℕ
    → ℕ
    → ℕ
    → World State
    → (ℕ → World State → Run State)
    → Run State
measure_then b reads fuel rtc_freq ref_time_inv w go =
    elim (get_core_freq b.counters reads fuel rtc_freq ref_time_inv w.time) [
      | none ↦ none
      | some r ↦ elim r.0 [
        | none ↦ some (none, record w { time = r.1 })
        | some freq ↦ go freq (record w { time = r.1 })
      ]
    ]

unfoldable pub measure_and_reopen :
    {State : Type 0} → Board State → ℕ → ℕ → ℕ → ℕ → World State → Run State
measure_and_reopen b reads fuel rtc_freq ref_time_inv w =
    measure_then b reads fuel rtc_freq ref_time_inv w (reopen_uart b fuel)

-- The part of `configure_fll` behind the calculation; the delay for the lock touches no state.
pub switch_clock : {State : Type 0} → Board State → ℕ → ℕ → FllParams → ℕ → World State → Run State
switch_clock b reads fuel p rtc_freq w =
    let on = set_bypass b true w in
    if not on.0
    then some (some 0, on.1)
    else let off = set_bypass b false (program_fll p 1 (program_fll p 0 on.1)) in
      if not off.0 then some (some 0, off.1) else measure_and_reopen b reads fuel rtc_freq 1 off.1

-- `configure_fll`
pub configure_fll : {State : Type 0} → Board State → ℕ → ℕ → ℕ → ℕ → World State → Run State
configure_fll b reads fuel target_freq rtc_freq w =
    if not b.driver_fll
    then some (some error, w)
    else (elim (calculate_fll_params true true target_freq rtc_freq) [
      | none ↦ some (some 0, w)
      | some p ↦ switch_clock b reads fuel p rtc_freq w
    ])

-- `restore_default_freq`
unfoldable pub restore_default_freq :
    {State : Type 0} → Board State → ℕ → ℕ → ℕ → World State → Run State
restore_default_freq b reads fuel rtc_freq w =
    if not b.driver_fll
    then some (some error, w)
    else let on = set_bypass b true w in
      if not on.0
      then some (some 0, on.1)
      else measure_and_reopen b reads fuel rtc_freq (rtc_freq / 128) on.1

-- `CHESHIRE_RTC_FREQ_REG_OFFSET`
abbrev pub rtc_freq_offset : ℕ
rtc_freq_offset = 0x44

-- What `api->open` and `api->close` do to the world; the result is not used.
abbrev pub ignoring : {State : Type 0} → Io ℕ → World State → Run State
ignoring none w = none
ignoring (some r) w = some (some 0, record w { bus = r.1 })

-- `_uart_init` and `_uart_deinit` return nothing; the 0 stands for that.
pub uart_init : {State : Type 0} → Board State → Backend → ℕ → ℕ → World State → Run State
uart_init b gvsoc reads fuel w = some (some 0, w)
uart_init b rtl reads fuel w = some (some 0, w)
uart_init b asic reads fuel w =
    measure_then b reads fuel (b.system_regs rtc_freq_offset) 512 w λ freq w.
      let w1 = set_uart_clock b freq w in ignoring (apb_open (some w1.default_uart_inst) w1.bus) w1

pub uart_deinit : {State : Type 0} → Backend → World State → Run State
uart_deinit gvsoc w = some (some 0, w)
uart_deinit rtl w = some (some 0, w)
uart_deinit asic w = ignoring (apb_close (some w.default_uart_inst) w.bus) w
