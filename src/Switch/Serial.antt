-- ===== src/Switch/Serial.antt =====
-- The UART behind a measurement of the clock: it is configured for the frequency just measured.
use chimera_sdk.Base.{ℕ, ◌≡◌, ◌≢◌, ◌∙◌, refl, inl, inr, Option-cases, false, Option, none, some}
use chimera_sdk.Clint.{get_core_freq}
use chimera_sdk.Uart.{asic, Bus, divisor, iface_open}
use chimera_sdk.Uart.Device.{Device, apply_all, latched, configured, open-configured}
use chimera_sdk.Switch.{
  Board, World, set_uart_clock, reopen_uart, measure_then, measure_and_reopen, ignoring, asic,
  rtc_freq_offset, uart_init,
}

-- The UART after a measurement with the result `f`: untouched by a division by zero, else configured
-- with the divisor for the frequency, which `default_uart_inst` holds too.
abbrev pub IsClocked :
    {State : Type 0} → Board State → Device → Option ℕ → (w w' : World State) → Type 0
IsClocked b d none w w' = (w'.bus ≡ w.bus) × (w'.default_uart_inst ≡ w.default_uart_inst)
IsClocked b d (some freq) w w' =
    (w'.default_uart_inst.cfg.clk_freq_hz ≡ freq)
    × (apply_all d w'.bus.writes
        ≡ configured (divisor (record b.default_uart_cfg { clk_freq_hz = freq }))
            (apply_all d w.bus.writes).transmitted)

-- A measurement with the result `f`, and the UART behind it.
pub record IsReclocked {State : Type 0} (b : Board State) (d : Device)
    (reads fuel rtc_freq ref_time_inv : ℕ) (w : World State) (f : Option ℕ) (w' : World State)
    : Type 0 where
  pub measured :
      get_core_freq b.counters reads fuel rtc_freq ref_time_inv w.time ≡ some (f, w'.time)
  pub clocked : IsClocked b d f w w'
  pub same_loops : w'.fll ≡ w.fll
  pub same_pins : w'.pins ≡ w.pins
  pub same_log : w'.log ≡ w.log

-- Opening the UART succeeds.
pub reopen_uart-clocked :
    {State : Type 0} (b : Board State) (d : Device) (fuel freq : ℕ) (w : World State)
    → w.default_uart_inst.base ≢ 0
    → latched (apply_all d w.bus.writes) ≡ false
    → (bus : Bus) × (reopen_uart b fuel freq w
        ≡ some (some freq, record (set_uart_clock b freq w) { bus = bus }))
      × (apply_all d bus.writes
          ≡ configured
              (divisor (record b.default_uart_cfg { clk_freq_hz = freq }))
              (apply_all d w.bus.writes).transmitted)
unfolding reopen_uart iface_open set_uart_clock
reopen_uart-clocked b d fuel freq w ne closed =
    let (bus, opened, set) =
      open-configured d (set_uart_clock b freq w).default_uart_inst w.bus ne closed in
    (bus, rw (opened, reopen_uart) refl, set)

-- `measure_and_reopen` that returns.
pub measure_and_reopen-IsReclocked :
    {State : Type 0} (b : Board State) (d : Device) (reads fuel rtc inv : ℕ) (w : World State)
    {f : Option ℕ} {w' : World State}
    → w.default_uart_inst.base ≢ 0
    → latched (apply_all d w.bus.writes) ≡ false
    → measure_and_reopen b reads fuel rtc inv w ≡ some (f, w')
    → IsReclocked b d reads fuel rtc inv w f w'
unfolding measure_and_reopen set_uart_clock
measure_and_reopen-IsReclocked b d reads fuel rtc inv w {f} {w'} ne closed e =
    elim (Option-cases (get_core_freq b.counters reads fuel rtc inv w.time)) [
      | inl nothing ↦ cc (rw (nothing, measure_then, measure_and_reopen) at e)
      | inr ((r, n), taken) ↦ elim (Option-cases r) [
        | inl zero_ticks ↦
            let ef : none ≡ f =
              cc (rw (taken, zero_ticks, measure_then, measure_and_reopen) at e) in
            let ew : record w { time = n } ≡ w' =
              cc (rw (taken, zero_ticks, measure_then, measure_and_reopen) at e) in
            rw (← ef, ← ew)
              (record {
                measured = taken ∙ rw zero_ticks refl;
                clocked = (refl, refl);
                same_loops = refl;
                same_pins = refl;
                same_log = refl;
              })
        | inr (freq, is_freq) ↦
            let w1 = record w { time = n } in
            let (bus, opened, set) = reopen_uart-clocked b d fuel freq w1 ne closed in
            let e1 = rw (taken, is_freq, measure_then, measure_and_reopen, opened) at e in
            let ef : some freq ≡ f = cc e1 in
            let ew : record (set_uart_clock b freq w1) { bus = bus } ≡ w' = cc e1 in
            rw (← ef, ← ew)
              (record {
                measured = taken ∙ rw is_freq refl;
                clocked = (refl, set);
                same_loops = refl;
                same_pins = refl;
                same_log = refl;
              })
      ]
    ]

-- On a port with an address and a device whose divisor latch is closed: if `_uart_init` of an ASIC
-- returns, it has measured the clock with the reference frequency of the system register, and then
-- configured the UART with the divisor for the measured frequency; only a division by zero in the
-- measurement leaves the UART as it was. The loops and the pins are not touched.
pub uart_init-IsReclocked :
    {State : Type 0} (b : Board State) (d : Device) (reads fuel : ℕ) (w : World State)
    {f : Option ℕ} {w' : World State}
    → w.default_uart_inst.base ≢ 0
    → latched (apply_all d w.bus.writes) ≡ false
    → uart_init b asic reads fuel w ≡ some (f, w')
    → (r : Option ℕ) × IsReclocked b d reads fuel (b.system_regs rtc_freq_offset) 512 w r w'
unfolding uart_init set_uart_clock
uart_init-IsReclocked b d reads fuel w {f} {w'} ne closed e =
    let rtc = b.system_regs rtc_freq_offset in
    elim (Option-cases (get_core_freq b.counters reads fuel rtc 512 w.time)) [
      | inl nothing ↦ cc (rw (nothing, measure_then, uart_init) at e)
      | inr ((r, n), taken) ↦ elim (Option-cases r) [
        | inl zero_ticks ↦
            let ew : record w { time = n } ≡ w' =
              cc (rw (taken, zero_ticks, measure_then, uart_init) at e) in
            (
              none,
              rw (← ew) (record {
                measured = taken ∙ rw zero_ticks refl;
                clocked = (refl, refl);
                same_loops = refl;
                same_pins = refl;
                same_log = refl;
              }),
            )
        | inr (freq, is_freq) ↦
            let w1 = record w { time = n } in
            let (bus, opened, set) =
              open-configured d (set_uart_clock b freq w1).default_uart_inst w.bus ne closed in
            let ew : record (set_uart_clock b freq w1) { bus = bus } ≡ w' =
              cc (rw (taken, is_freq, measure_then, uart_init, opened, ignoring) at e) in
            (
              some freq,
              rw (← ew) (record {
                measured = taken ∙ rw is_freq refl;
                clocked = (refl, set);
                same_loops = refl;
                same_pins = refl;
                same_log = refl;
              }),
            )
      ]
    ]
