-- ===== src/Runner/Session/Tests.antt =====
-- A session on a board whose GPIO library accepts every write: one run of two clusters on the external
-- clock.
use Prim.Native.Nat.{min}
use chimera_sdk.Base.{
  ℕ, ◌-◌, ◌*◌, ◌^◌, ◌≡◌, ◌⊎◌, refl, arith, Bool, true, false, none, some, [], ◌==◌, if◌then◌else◌,
}
use chimera_sdk.Clint.{
  Mtime, Counters, get_mtime, less_than, deadline, sample, await_tick, await_target, freq_target,
  quotient, get_core_freq,
}
use chimera_sdk.Clint.Read.{IsClock}
use chimera_sdk.Clint.Spin.{IsSlow}
use chimera_sdk.Uart.{iface_open, apb_open, open_writes, divisor}
use chimera_sdk.Switch.{
  Gpio, IsLawful, Board, World, bypass_pin, set_bypass, set_uart_clock, reopen_uart,
  measure_and_reopen, restore_default_freq,
}
use chimera_sdk.Runner.{Config, stop, error, automatic, timeout_ticks}
use chimera_sdk.Runner.Offloads.{IsJob}
use chimera_sdk.Runner.Watch.{Bus}
use chimera_sdk.Runner.Whole.{TestConfig, Outcome, job_of, run_clusters}
use chimera_sdk.Runner.Whole.Finish.{IsTested, IsFinished, run_clusters-IsFinished}
use chimera_sdk.Runner.Session.{Entry, Station, whole_session}
use chimera_sdk.Runner.Session.Ends.{IsTurn}
use chimera_sdk.Runner.Session.Turn.{session_turn-IsTurn}
use chimera_sdk.Runner.Session.Skips.{ran, turn-skips, whole_session-skips}
use chimera_sdk.Runner.Session.Bypassed.{whole_session-IsBypassed}

abbrev Pins : Type 0
Pins = ℕ → Bool

abbrev accepting : Gpio Pins
accepting = record { write = λ pin v s. (true, λ p. if p == pin then v else s p) }

abbrev level : Pins → ℕ → Bool
level s = s

accepting-IsLawful : IsLawful accepting level
accepting-IsLawful = record {
  sets = λ pin v s h. ground arith;
  keeps = λ pin other v s ne. ground arith;
  refuses = λ pin other v s h. absurd (cc h);
}

-- The timer gains 2 ^ 14 ticks over each access, the cycle counter 10 ^ 6.
abbrev counters : Counters
counters = record { mtime = λ i. min (i * 2 ^ 14) (2 ^ 64 - 1); mcycle = λ i. i * 1000000 }

counters-IsClock : IsClock counters
counters-IsClock = record { mono = λ i j h. omega arith; bound = λ i. omega arith }

counters-IsSlow : IsSlow counters
counters-IsSlow = λ i. omega arith

abbrev board : Board Pins
board = record {
  gpio = accepting;
  counters = counters;
  line = record { status = λ n. 0; received = λ n. 0 };
  system_regs = λ a. 32768;
  default_uart_cfg = record { clk_freq_hz = 100000000; baud_rate = 9600 };
  driver_fll = true;
  convolve = true;
}

abbrev bus : Bus
bus = record {
  counters = counters;
  busy = λ c n. 0;
  returns = λ c n. 7;
  device_to_host = λ n. 0;
  word = λ n a. 0;
}

-- The clusters 2 and 4, with a limit of four seconds.
abbrev tests : TestConfig
tests = record {
  timeout = 4000;
  clusters = 2;
  cluster_ids = λ id. if id == 0 then 2 else 4;
  stack_start = λ id. 0x80000000;
  stack_sizes = λ id core. 0x1000;
  function_test = 0x1000;
  function_trampoline = 0x2000;
  function_interrupt = 0x3000;
  args = λ id. 0x4000;
}

abbrev cfg : Config
cfg = record { mode = automatic; default_frequency_mhz = error; timeout = 4000; clusters = 2 }

abbrev entry : Entry
entry = record {
  repetitions_line = none;
  frequency_line = none;
  scratch_1 = 0;
  scratch_3 = 0;
  answer = false;
}

abbrev station : Station Pins
station = record {
  world = record {
    fll = λ a. 0;
    pins = λ p. false;
    default_uart_inst = record {
      base = 0x3002000;
      cfg = record { clk_freq_hz = 100000000; baud_rate = 9600 };
    };
    bus = record { count = 0; writes = [] };
    time = 0;
    log = [];
  };
  soc = record { regs = λ a. 0; function = λ i. 0; args = λ i. 0; stack = λ i. 0 };
  host = record {
    core = record { clint = λ a. 0; mtie = false; mie = true; sleeps = 0 };
    actions = [];
  };
  repetitions = λ a. 0;
}

-- The external clock has 2 MHz.
abbrev restored : World Pins
restored = record station.world {
  pins = λ p. if p == 2 then true else false;
  default_uart_inst = record {
    base = 0x3002000;
    cfg = record { clk_freq_hz = 2000000; baud_rate = 9600 };
  };
  bus =
      open_writes (divisor (record { clk_freq_hz = 2000000; baud_rate = 9600 })) station.world.bus;
  time = 11;
}

restores : restore_default_freq board 2 11 32768 station.world ≡ some (some 2000000, restored)
unfolding restore_default_freq set_bypass measure_and_reopen reopen_uart set_uart_clock iface_open
    apb_open get_core_freq get_mtime await_tick await_target sample freq_target less_than quotient
restores = refl

measured : get_core_freq counters 2 11 32768 256 11 ≡ some (some 2000000, 22)
unfolding get_core_freq get_mtime await_tick await_target sample freq_target less_than quotient
measured = refl

tests-IsJob : IsJob (job_of tests) 2
tests-IsJob = record {
  exists = λ i h. ground arith;
  distinct = λ i j i_lt j_lt e. ground (arith, e);
}

bus-IsTested : IsTested bus tests 25
bus-IsTested = record {
  some_clusters = omega arith;
  job = tests-IsJob;
  idle = λ i h. omega arith;
  reports = λ i a m h le later idle e. omega (arith, e);
}

abbrev start : Mtime
start = record { low = 23 * 2 ^ 14; high = 0 }

started : get_mtime counters 2 22 ≡ some (start, 25)
unfolding get_mtime
started = refl

abbrev limit : Mtime
limit = deadline start (timeout_ticks 32768 4000)

ended :
    (o : Outcome) × (n : ℕ) × (run_clusters bus 2 11 tests 32768 0 station.soc station.host 22
      ≡ some (o, n))
    × IsFinished bus tests limit 0 27 station.soc o
unfolding deadline timeout_ticks
ended =
    run_clusters-IsFinished bus tests 32768 0 station.soc station.host start 22 25 10
      counters-IsClock counters-IsSlow started bus-IsTested (omega arith)

abbrev begun : Station Pins
begun = record station { world = record restored { time = 22 } }

-- The state behind the run.
abbrev over : Station Pins
over = ran board bus 2 11 cfg 1 tests refl refl begun ended.0 ended.1

returned :
    whole_session board bus 2 11 cfg 1 tests 1 (λ k. entry) station ≡ some (ended.0.ret, over)
returned =
    whole_session-skips board bus 2 11 cfg 1 tests refl refl 0 (λ k. entry) station (some 2000000)
      (some 2000000) restored 22 ended.1 ended.0 restores measured ended.2

whole_session-IsBypassed_example : (level over.world.pins bypass_pin ≡ true) ⊎ (ended.0.ret ≡ error)
whole_session-IsBypassed_example =
    whole_session-IsBypassed board level bus 2 11 cfg 1 tests 1 (λ k. entry) station over
      ended.0.ret accepting-IsLawful refl refl (λ w. refl) returned

session_turn-IsTurn_example :
    IsTurn board level bus 2 11 cfg 1 tests entry 0 begun (stop ended.0.ret) over
session_turn-IsTurn_example =
    session_turn-IsTurn board level bus 2 11 cfg 1 tests accepting-IsLawful refl refl entry 0 begun
      over (stop ended.0.ret)
      (turn-skips board bus 2 11 cfg 1 tests refl refl entry 0 begun ended.0 ended.1 ended.2)
