-- ===== src/Switch/Tests.antt =====
-- A board of chimera-convolve whose GPIO library refuses pins from 32 on: runs of the clock switch,
-- and the theorems applied to them.
use Prim.Native.Nat.{min}
use chimera_sdk.Base.{
  ℕ, ◌-◌, ◌*◌, ◌^◌, ◌≡◌, ◌≢◌, ◌⊎◌, refl, arith, Bool, true, false, Option, none, some, [], ltb,
  ◌==◌, if◌then◌else◌,
}
use chimera_sdk.Clint.{
  Counters, get_mtime, less_than, sample, await_tick, await_target, freq_target, quotient,
  get_core_freq,
}
use chimera_sdk.Clint.Read.{IsClock}
use chimera_sdk.Clint.Spin.{IsSlow}
use chimera_sdk.Clint.Total.{IsAdvancing}
use chimera_sdk.Mmio.{write32}
use chimera_sdk.Fll.{
  set_fll_freq, init_fll, freq_word, FllParams, clz, choose_params, calculate_fll_params,
  get_fll_ptr, program_flls,
}
use chimera_sdk.Uart.{asic, divisor, open_writes, apb_open, iface_open}
use chimera_sdk.Uart.Device.{Device, apply_all, latched}
use chimera_sdk.Switch.{
  Gpio, IsLawful, Board, World, bypass_pin, set_bypass, program_fll, set_uart_clock, reopen_uart,
  measure_and_reopen, switch_clock, configure_fll, restore_default_freq, asic, uart_init,
}
use chimera_sdk.Switch.Serial.{IsReclocked}
use chimera_sdk.Switch.Clock.{enabling, bypassed}
use chimera_sdk.Switch.Outcome.{
  IsEnd, IsRefused, configure_fll-IsEnd, restore_default_freq-bypasses,
}
use chimera_sdk.Switch.Bypass.{writes_at, AreMade, configure_fll-IsBypassed}
use chimera_sdk.Switch.Total.{configure_fll-total}

abbrev Pins : Type 0
Pins = ℕ → Bool

abbrev pins_gpio : Gpio Pins
pins_gpio = record {
  write = λ pin v s. if ltb pin 32 then (true, λ p. if p == pin then v else s p) else (false, s);
}

abbrev level : Pins → ℕ → Bool
level s = s

pins_gpio-IsLawful : IsLawful pins_gpio level
pins_gpio-IsLawful = record {
  sets = λ pin v s h. ground arith;
  keeps = λ pin other v s ne. ground arith;
  refuses = λ pin other v s h. ground arith;
}

-- The timer gains 2 ^ 14 ticks over each access, the cycle counter 10 ^ 6.
abbrev counters : Counters
counters = record { mtime = λ i. min (i * 2 ^ 14) (2 ^ 64 - 1); mcycle = λ i. i * 1000000 }

counters-IsClock : IsClock counters
counters-IsClock = record { mono = λ i j h. omega arith; bound = λ i. omega arith }

counters-IsSlow : IsSlow counters
counters-IsSlow = λ i. omega arith

counters-IsAdvancing : IsAdvancing counters 32768 2
counters-IsAdvancing = λ i h. omega arith

abbrev board : Board Pins
board = record {
  gpio = pins_gpio;
  counters = counters;
  line = record { status = λ n. 0; received = λ n. 0 };
  system_regs = λ a. 32768;
  default_uart_cfg = record { clk_freq_hz = 100000000; baud_rate = 9600 };
  driver_fll = true;
  convolve = true;
}

abbrev world : World Pins
world = record {
  fll = λ a. 0;
  pins = λ p. false;
  default_uart_inst = record {
    base = 0x3002000;
    cfg = record { clk_freq_hz = 100000000; baud_rate = 9600 };
  };
  bus = record { count = 0; writes = [] };
  time = 0;
  log = [];
}

abbrev device : Device
device = record {
  interrupts = 0;
  line = 0;
  fifo = 0;
  modem = 0;
  latch_low = 0;
  latch_high = 0;
  transmitted = [];
}

-- The parameters for 200 MHz from a reference of 32768 Hz.
abbrev params : FllParams
params = record { mult = 24414; div = 3 }

-- The world behind a measurement that has configured the UART for 2 MHz.
abbrev clocked : World Pins → World Pins
clocked w = record w {
  default_uart_inst = record w.default_uart_inst {
    cfg = record { clk_freq_hz = 2000000; baud_rate = 9600 };
  };
  bus = open_writes (divisor (record { clk_freq_hz = 2000000; baud_rate = 9600 })) w.bus;
  time = 11;
}

abbrev bypass : Bool → Pins → Pins
bypass on s = (pins_gpio.write bypass_pin on s).1

abbrev switched : World Pins
switched = clocked (record world {
  fll = program_flls params world.fll;
  pins = bypass false (bypass true world.pins);
  log =
      writes_at (bypass true world.pins) 0xC9580000 (freq_word params 0xC9580000) 0xC9580000
        (freq_word params 0xC9580000);
})

abbrev restored : World Pins
restored = clocked (record world { pins = bypass true world.pins })

started : uart_init board asic 2 3 world ≡ some (some 0, clocked world)
unfolding uart_init set_uart_clock apb_open get_core_freq get_mtime await_tick await_target sample
    freq_target less_than quotient
started = refl

runs : configure_fll board 2 3 200000000 32768 world ≡ some (some 2000000, switched)
unfolding configure_fll switch_clock set_bypass program_fll measure_and_reopen reopen_uart
    set_uart_clock iface_open apb_open program_flls get_fll_ptr get_core_freq get_mtime await_tick
    await_target sample freq_target less_than quotient calculate_fll_params choose_params clz
    set_fll_freq write32 init_fll
runs = refl

restores : restore_default_freq board 2 3 32768 world ≡ some (some 2000000, restored)
unfolding restore_default_freq set_bypass measure_and_reopen reopen_uart set_uart_clock iface_open
    apb_open get_core_freq get_mtime await_tick await_target sample freq_target less_than quotient
restores = refl

abbrev two_mhz : Option ℕ
two_mhz = some 2000000

closed : latched (apply_all device world.bus.writes) ≡ false
unfolding apply_all
closed = refl

configure_fll-IsEnd_example :
    ((calculate_fll_params true true 200000000 32768 ≡ none)
      × (two_mhz ≡ some 0)
      × (switched ≡ world))
    ⊎ ((p : FllParams) × (calculate_fll_params true true 200000000 32768 ≡ some p)
        × IsEnd board level device 2 3 32768 p world two_mhz switched)
configure_fll-IsEnd_example =
    configure_fll-IsEnd board level device 2 3 200000000 32768 world pins_gpio-IsLawful refl refl
      (omega arith) (omega arith) (omega arith) (omega arith) (omega arith) closed runs

configure_fll-IsBypassed_example :
    ((switched.log ≡ world.log) × (switched.fll ≡ world.fll))
    ⊎ ((s : Pins) × (level s bypass_pin ≡ true) × AreMade s world switched)
configure_fll-IsBypassed_example =
    configure_fll-IsBypassed board level device 2 3 200000000 32768 world pins_gpio-IsLawful refl
      (omega arith) closed runs

configure_fll-total_example :
    (f : Option ℕ) × (w' : World Pins) × (configure_fll board 2 3 200000000 32768 world
      ≡ some (f, w'))
configure_fll-total_example =
    configure_fll-total board device 32768 2 200000000 32768 world refl counters-IsClock
      counters-IsSlow counters-IsAdvancing (omega arith) (omega arith) (omega arith) (omega arith)
      closed

restore_default_freq-bypasses_example :
    (((enabling board world).0 ≡ false) × IsRefused level world two_mhz restored)
    ⊎ (((enabling board world).0 ≡ true)
        × (level restored.pins bypass_pin ≡ true)
        × ((pin : ℕ) → pin ≢ bypass_pin → level restored.pins pin ≡ level world.pins pin)
        × IsReclocked board device 2 3 32768 256 (bypassed board world) two_mhz restored)
restore_default_freq-bypasses_example =
    restore_default_freq-bypasses board level device 2 3 32768 world pins_gpio-IsLawful refl refl
      (omega arith) closed restores
