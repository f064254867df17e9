-- ===== src/Switch/Clock.antt =====
-- `configure_fll` and `restore_default_freq` on chimera-convolve, branch by branch.
use chimera_sdk.Base.{ℕ, ◌/◌, ◌≡◌, ◌∙◌, refl, Bool, true, false, not, some, if◌then◌else◌}
use chimera_sdk.Fll.{FllParams, calculate_fll_params, program_flls, init_fll, set_fll_freq}
use chimera_sdk.Switch.{
  Board, World, bypass_pin, set_bypass, program_fll, measure_and_reopen, switch_clock,
  configure_fll, restore_default_freq,
}

-- The answer of the first write of the bypass pin, and of the second.
abbrev pub enabling : {State : Type 0} → Board State → World State → Bool × State
enabling b w = b.gpio.write bypass_pin true w.pins

abbrev pub disabling : {State : Type 0} → Board State → World State → Bool × State
disabling b w = b.gpio.write bypass_pin false (enabling b w).1

abbrev pub bypassed : {State : Type 0} → Board State → World State → World State
bypassed b w = record w { pins = (enabling b w).1 }

-- Both loops programmed behind the bypass, and the bypass pin written again.
abbrev pub programmed : {State : Type 0} → Board State → FllParams → World State → World State
programmed b p w = record (program_fll p 1 (program_fll p 0 (bypassed b w))) {
  pins = (disabling b w).1;
}

pub set_bypass_lem :
    {State : Type 0} (b : Board State) (on : Bool) (w : World State)
    → b.convolve ≡ true
    → set_bypass b on w ≡ (
      (b.gpio.write bypass_pin on w.pins).0,
      record w { pins = (b.gpio.write bypass_pin on w.pins).1 },
    )
unfolding set_bypass
set_bypass_lem b on w convolve = rw convolve refl

pub switch_clock_refused :
    {State : Type 0} (b : Board State) (reads fuel : ℕ) (p : FllParams) (rtc : ℕ) (w : World State)
    → b.convolve ≡ true
    → (enabling b w).0 ≡ false
    → switch_clock b reads fuel p rtc w ≡ some (some 0, bypassed b w)
unfolding switch_clock
switch_clock_refused b reads fuel p rtc w convolve denied =
    rw (set_bypass_lem b true w convolve, switch_clock, denied) refl

pub switch_clock_stuck :
    {State : Type 0} (b : Board State) (reads fuel : ℕ) (p : FllParams) (rtc : ℕ) (w : World State)
    → b.convolve ≡ true
    → (enabling b w).0 ≡ true
    → (disabling b w).0 ≡ false
    → switch_clock b reads fuel p rtc w ≡ some (some 0, programmed b p w)
unfolding switch_clock program_fll
switch_clock_stuck b reads fuel p rtc w convolve allowed denied =
    rw
      (
        set_bypass_lem b true w convolve,
        switch_clock,
        allowed,
        set_bypass_lem b false (program_fll p 1 (program_fll p 0 (bypassed b w))) convolve,
        denied,
      )
      refl

pub switch_clock_done :
    {State : Type 0} (b : Board State) (reads fuel : ℕ) (p : FllParams) (rtc : ℕ) (w : World State)
    → b.convolve ≡ true
    → (enabling b w).0 ≡ true
    → (disabling b w).0 ≡ true
    → switch_clock b reads fuel p rtc w ≡ measure_and_reopen b reads fuel rtc 1 (programmed b p w)
unfolding switch_clock program_fll
switch_clock_done b reads fuel p rtc w convolve allowed done =
    rw
      (
        set_bypass_lem b true w convolve,
        switch_clock,
        allowed,
        set_bypass_lem b false (program_fll p 1 (program_fll p 0 (bypassed b w))) convolve,
        done,
      )
      refl

pub programmed-loops :
    {State : Type 0} (b : Board State) (p : FllParams) (w : World State)
    → (programmed b p w).fll ≡ program_flls p w.fll
unfolding program_fll program_flls init_fll set_fll_freq
programmed-loops b p w = refl

guard_passed : {A : Type 0} (x : Bool) (s t : A) → x ≡ true → (if not x then s else t) ≡ t
guard_passed x s t e = rw e refl

pub configure_fll_chosen :
    {State : Type 0} (b : Board State) (reads fuel t rtc : ℕ) (p : FllParams) (w : World State)
    → b.driver_fll ≡ true
    → calculate_fll_params true true t rtc ≡ some p
    → configure_fll b reads fuel t rtc w ≡ switch_clock b reads fuel p rtc w
unfolding configure_fll
configure_fll_chosen b reads fuel t rtc p w driver is_some =
    guard_passed b.driver_fll _ _ driver ∙ rw is_some refl

pub restore_default_freq_refused :
    {State : Type 0} (b : Board State) (reads fuel rtc : ℕ) (w : World State)
    → b.driver_fll ≡ true
    → b.convolve ≡ true
    → (enabling b w).0 ≡ false
    → restore_default_freq b reads fuel rtc w ≡ some (some 0, bypassed b w)
unfolding restore_default_freq
restore_default_freq_refused b reads fuel rtc w driver convolve denied =
    guard_passed b.driver_fll _ _ driver ∙ rw (set_bypass_lem b true w convolve, denied) refl

pub restore_default_freq_done :
    {State : Type 0} (b : Board State) (reads fuel rtc : ℕ) (w : World State)
    → b.driver_fll ≡ true
    → b.convolve ≡ true
    → (enabling b w).0 ≡ true
    → restore_default_freq b reads fuel rtc w
      ≡ measure_and_reopen b reads fuel rtc (rtc / 128) (bypassed b w)
unfolding restore_default_freq
restore_default_freq_done b reads fuel rtc w driver convolve allowed =
    guard_passed b.driver_fll _ _ driver ∙ rw (set_bypass_lem b true w convolve, allowed) refl
