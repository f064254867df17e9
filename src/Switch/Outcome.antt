-- ===== src/Switch/Outcome.antt =====
-- What `configure_fll` and `restore_default_freq` return and leave behind on chimera-convolve.
use chimera_sdk.Base.{
  ℕ, ◌/◌, ◌^◌, ◌≤◌, ◌<◌, ◌≡◌, ◌≢◌, ◌⊎◌, ◌∙◌, refl, sym, inl, inr, Option-cases, Bool-cases, Bool,
  true, false, ◌||◌, Option, none, some, ◌==◌, if◌then◌else◌,
}
use chimera_sdk.Clint.{get_core_freq}
use chimera_sdk.Fll.{FllParams, calculate_fll_params, cfg1, fll_soc_base, fll_clu_base}
use chimera_sdk.Fll.Config.{word_of, program_flls_lem, calculate_fll_params-Fits}
use chimera_sdk.Uart.Device.{Device, apply_all, latched}
use chimera_sdk.Switch.{
  IsLawful, Board, World, bypass_pin, program_fll, switch_clock, configure_fll,
  restore_default_freq,
}
use chimera_sdk.Switch.Serial.{IsClocked, IsReclocked, measure_and_reopen-IsReclocked}
use chimera_sdk.Switch.Clock.{
  enabling, disabling, bypassed, programmed, switch_clock_refused, switch_clock_stuck,
  switch_clock_done, programmed-loops, restore_default_freq_refused, restore_default_freq_done,
  configure_fll_chosen,
}

-- Both loops hold the word for the parameters, and no other register of theirs has changed.
abbrev pub IsProgrammed : {State : Type 0} → FllParams → (w w' : World State) → Type 0
IsProgrammed p w w' =
    (a : ℕ)
    → w'.fll a ≡ (if a == cfg1 fll_soc_base || a == cfg1 fll_clu_base then word_of p else w.fll a)

-- Ends of `switch_clock`: the bypass could not be enabled, and nothing else was touched.
pub record IsRefused {State : Type 0} (level : State → ℕ → Bool) (w : World State) (f : Option ℕ)
    (w' : World State) : Type 0 where
  pub fails : f ≡ some 0
  pub same_loops : w'.fll ≡ w.fll
  pub same_bus : w'.bus ≡ w.bus
  pub same_pins : (pin : ℕ) → level w'.pins pin ≡ level w.pins pin

-- The bypass could not be disabled: the loops are programmed, the core runs on the bypass, and the
-- UART keeps its divisor.
pub record IsStuck {State : Type 0} (level : State → ℕ → Bool) (p : FllParams) (w : World State)
    (f : Option ℕ) (w' : World State) : Type 0 where
  pub fails : f ≡ some 0
  pub loops : IsProgrammed p w w'
  pub same_bus : w'.bus ≡ w.bus
  pub bypass_on : level w'.pins bypass_pin ≡ true

-- The clock is switched: the bypass is off, the clock measured, and the UART configured for it.
pub record IsSwitched {State : Type 0} (b : Board State) (level : State → ℕ → Bool) (d : Device)
    (reads fuel rtc_freq : ℕ) (p : FllParams) (w : World State) (f : Option ℕ) (w' : World State)
    : Type 0 where
  pub loops : IsProgrammed p w w'
  pub bypass_off : level w'.pins bypass_pin ≡ false
  pub other_pins : (pin : ℕ) → pin ≢ bypass_pin → level w'.pins pin ≡ level w.pins pin
  pub measured : get_core_freq b.counters reads fuel rtc_freq 1 w.time ≡ some (f, w'.time)
  pub clocked : IsClocked b d f w w'

programmed-IsProgrammed :
    {State : Type 0} (b : Board State) (p : FllParams) (w : World State)
    → p.mult < 2 ^ 16
    → p.div < 16
    → IsProgrammed p w (programmed b p w)
programmed-IsProgrammed b p w m_lt d_lt a =
    rw (programmed-loops b p w) (program_flls_lem p w.fll a m_lt d_lt)

refused :
    {State : Type 0} (b : Board State) (level : State → ℕ → Bool) (w : World State)
    → IsLawful b.gpio level
    → (enabling b w).0 ≡ false
    → IsRefused level w (some 0) (bypassed b w)
refused b level w lawful denied = record {
  fails = refl;
  same_loops = refl;
  same_bus = refl;
  same_pins = λ pin. lawful.refuses bypass_pin pin true w.pins denied;
}

stuck :
    {State : Type 0} (b : Board State) (level : State → ℕ → Bool) (p : FllParams) (w : World State)
    → IsLawful b.gpio level
    → p.mult < 2 ^ 16
    → p.div < 16
    → (enabling b w).0 ≡ true
    → (disabling b w).0 ≡ false
    → IsStuck level p w (some 0) (programmed b p w)
unfolding program_fll
stuck b level p w lawful m_lt d_lt allowed denied = record {
  fails = refl;
  loops = programmed-IsProgrammed b p w m_lt d_lt;
  same_bus = refl;
  bypass_on =
      lawful.refuses bypass_pin bypass_pin false (enabling b w).1 denied
      ∙ lawful.sets bypass_pin true w.pins allowed;
}

-- Programming the loops leaves the UART alone.
clocked-programmed :
    {State : Type 0} (b : Board State) (d : Device) (p : FllParams) (w : World State) (f : Option ℕ)
    (w' : World State)
    → IsClocked b d f (programmed b p w) w'
    → IsClocked b d f w w'
unfolding program_fll
clocked-programmed b d p w none w' c = c
clocked-programmed b d p w (some freq) w' c = c

switched :
    {State : Type 0} (b : Board State) (level : State → ℕ → Bool) (d : Device) (reads fuel rtc : ℕ)
    (p : FllParams) (w : World State) (f : Option ℕ) (w' : World State)
    → IsLawful b.gpio level
    → p.mult < 2 ^ 16
    → p.div < 16
    → (disabling b w).0 ≡ true
    → IsReclocked b d reads fuel rtc 1 (programmed b p w) f w'
    → IsSwitched b level d reads fuel rtc p w f w'
unfolding program_fll
switched b level d reads fuel rtc p w f w' lawful m_lt d_lt done r = record {
  loops = λ a. rw r.same_loops (programmed-IsProgrammed b p w m_lt d_lt a);
  bypass_off = rw r.same_pins (lawful.sets bypass_pin false (enabling b w).1 done);
  other_pins = λ pin ne. rw r.same_pins (
      lawful.keeps bypass_pin pin false (enabling b w).1 ne
      ∙ lawful.keeps bypass_pin pin true w.pins ne);
  measured = r.measured;
  clocked = clocked-programmed b d p w f w' r.clocked;
}

-- The three ends of `switch_clock`.
abbrev pub IsEnd :
    {State : Type 0}
    → Board State
    → (State → ℕ → Bool)
    → Device
    → (reads fuel rtc_freq : ℕ) → FllParams
    → World State
    → Option ℕ
    → World State
    → Type 0
IsEnd b level d reads fuel rtc_freq p w f w' =
    (((enabling b w).0 ≡ false) × IsRefused level w f w')
    ⊎ ((((enabling b w).0 ≡ true) × ((disabling b w).0 ≡ false) × IsStuck level p w f w')
        ⊎ (((enabling b w).0 ≡ true)
            × ((disabling b w).0 ≡ true)
            × IsSwitched b level d reads fuel rtc_freq p w f w'))

switch_clock-IsEnd :
    {State : Type 0} (b : Board State) (level : State → ℕ → Bool) (d : Device) (reads fuel rtc : ℕ)
    (p : FllParams) (w : World State) {f : Option ℕ} {w' : World State}
    → IsLawful b.gpio level
    → b.convolve ≡ true
    → p.mult < 2 ^ 16
    → p.div < 16
    → w.default_uart_inst.base ≢ 0
    → latched (apply_all d w.bus.writes) ≡ false
    → switch_clock b reads fuel p rtc w ≡ some (f, w')
    → IsEnd b level d reads fuel rtc p w f w'
unfolding program_fll
switch_clock-IsEnd b level d reads fuel rtc p w {f} {w'} lawful convolve m_lt d_lt ne closed e =
    elim (Bool-cases (enabling b w).0) [
      | inr denied ↦
          let e1 = sym (switch_clock_refused b reads fuel p rtc w convolve denied) ∙ e in
          let ef : some 0 ≡ f = cc e1 in
          let ew : bypassed b w ≡ w' = cc e1 in
          inl (denied, rw (← ef, ← ew) (refused b level w lawful denied))
      | inl allowed ↦ elim (Bool-cases (disabling b w).0) [
        | inr denied ↦
            let e1 = sym (switch_clock_stuck b reads fuel p rtc w convolve allowed denied) ∙ e in
            let ef : some 0 ≡ f = cc e1 in
            let ew : programmed b p w ≡ w' = cc e1 in
            inr (
              inl (
                allowed,
                denied,
                rw (← ef, ← ew) (stuck b level p w lawful m_lt d_lt allowed denied),
              ))
        | inl done ↦
            let e1 = sym (switch_clock_done b reads fuel p rtc w convolve allowed done) ∙ e in
            let r =
              measure_and_reopen-IsReclocked b d reads fuel rtc 1 (programmed b p w) ne closed e1 in
            inr (
              inr
                (allowed, done, switched b level d reads fuel rtc p w f w' lawful m_lt d_lt done r))
      ]
    ]

-- On chimera-convolve with the FLL driver, a GPIO library that keeps its promises, a reference clock
-- of 32768 Hz or faster, a target from 65536 Hz to below 2 ^ 31, a UART port with an address and a
-- device whose divisor latch is closed: a `configure_fll` that returns has one of four ends. No
-- parameters: it returns 0 and changes nothing. Bypass not enabled: it returns 0, and neither the
-- loops nor the UART nor a pin has changed. Bypass not disabled: it returns 0 with both loops
-- programmed, the bypass on and the UART unchanged. Else both loops hold the word for the
-- parameters and no other register of theirs has changed, the bypass is off and no other pin has
-- changed, the result is that of the measurement of the clock, and the UART is configured with the
-- divisor for it, unless the measurement divided by zero.
pub configure_fll-IsEnd :
    {State : Type 0} (b : Board State) (level : State → ℕ → Bool) (d : Device)
    (reads fuel t rtc : ℕ) (w : World State) {f : Option ℕ} {w' : World State}
    → IsLawful b.gpio level
    → b.driver_fll ≡ true
    → b.convolve ≡ true
    → 2 ^ 16 ≤ t
    → t < 2 ^ 31
    → 2 ^ 15 ≤ rtc
    → rtc < 2 ^ 32
    → w.default_uart_inst.base ≢ 0
    → latched (apply_all d w.bus.writes) ≡ false
    → configure_fll b reads fuel t rtc w ≡ some (f, w')
    → ((calculate_fll_params true true t rtc ≡ none) × (f ≡ some 0) × (w' ≡ w))
      ⊎ ((p : FllParams) × (calculate_fll_params true true t rtc ≡ some p)
          × IsEnd b level d reads fuel rtc p w f w')
unfolding configure_fll
configure_fll-IsEnd b level d reads fuel t rtc w {f} {w'} lawful driver convolve t_lo t_lt rtc_lo
      rtc_lt ne closed e =
    elim (Option-cases (calculate_fll_params true true t rtc)) [
      | inl is_none ↦
          let e1 = rw (driver, is_none, configure_fll) at e in inl (is_none, cc e1, cc e1)
      | inr (p, is_some) ↦
          let (m_lt, d_lt) : (p.mult < 2 ^ 16) × (p.div < 16) =
            rw is_some at (calculate_fll_params-Fits t rtc t_lo t_lt rtc_lo rtc_lt) in
          inr (
            p,
            is_some,
            switch_clock-IsEnd b level d reads fuel rtc p w lawful convolve m_lt d_lt ne closed
                (sym (configure_fll_chosen b reads fuel t rtc p w driver is_some) ∙ e),
          )
    ]

-- On chimera-convolve with the FLL driver, a GPIO library that keeps its promises, a UART port with an
-- address and a device whose divisor latch is closed: a `restore_default_freq` that returns leaves
-- the loops as they are. If the bypass cannot be enabled it returns 0, and neither the UART nor a pin
-- has changed; else the bypass stays on, no other pin has changed, and the result is that of the
-- measurement, with the UART configured for it unless the measurement divided by zero.
pub restore_default_freq-bypasses :
    {State : Type 0} (b : Board State) (level : State → ℕ → Bool) (d : Device) (reads fuel rtc : ℕ)
    (w : World State) {f : Option ℕ} {w' : World State}
    → IsLawful b.gpio level
    → b.driver_fll ≡ true
    → b.convolve ≡ true
    → w.default_uart_inst.base ≢ 0
    → latched (apply_all d w.bus.writes) ≡ false
    → restore_default_freq b reads fuel rtc w ≡ some (f, w')
    → (((enabling b w).0 ≡ false) × IsRefused level w f w')
      ⊎ (((enabling b w).0 ≡ true)
          × (level w'.pins bypass_pin ≡ true)
          × ((pin : ℕ) → pin ≢ bypass_pin → level w'.pins pin ≡ level w.pins pin)
          × IsReclocked b d reads fuel rtc (rtc / 128) (bypassed b w) f w')
unfolding restore_default_freq
restore_default_freq-bypasses b level d reads fuel rtc w {f} {w'} lawful driver convolve ne closed
      e =
    elim (Bool-cases (enabling b w).0) [
      | inr denied ↦
          let e1 =
            sym (restore_default_freq_refused b reads fuel rtc w driver convolve denied) ∙ e in
          let ef : some 0 ≡ f = cc e1 in
          let ew : bypassed b w ≡ w' = cc e1 in
          inl (denied, rw (← ef, ← ew) (refused b level w lawful denied))
      | inl allowed ↦
          let e1 = sym (restore_default_freq_done b reads fuel rtc w driver convolve allowed) ∙ e in
          let r =
            measure_and_reopen-IsReclocked b d reads fuel rtc (rtc / 128) (bypassed b w) ne closed
              e1 in
          inr (
            allowed,
            rw r.same_pins (lawful.sets bypass_pin true w.pins allowed),
            (λ pin other. rw r.same_pins (lawful.keeps bypass_pin pin true w.pins other)),
            r,
          )
    ]
