-- ===== src/Log/Tests.antt =====
-- A library that hands over the characters in turn, and a UART that is always ready.
use chimera_sdk.Base.{suc, ◌≡◌, refl, arith, true, none, some, [], ◌∷◌, ◌++◌}
use chimera_sdk.Uart.{asic, tx_ready, tx_empty}
use chimera_sdk.Uart.Transfer.{IsReadyWithin}
use chimera_sdk.Uart.Device.{Device, apply_all}
use chimera_sdk.Log.{Console, Build, Vfprintf, tag, printf_log}
use chimera_sdk.Log.Message.{nothing, one_more, IsVfprintf, IsAsic, with_sent, printf_log-transmits}

each : Vfprintf
each f [] s = some (0, s)
each f (c ∷ cs) s = elim (f.put c s) [
  | none ↦ none
  | some r ↦ elim (each f cs r.1) [ none ↦ none | some q ↦ some (suc q.0, q.1) ]
]

each-IsVfprintf : IsVfprintf each
unfolding each
each-IsVfprintf f _ _ _ (nothing s) = refl
each-IsVfprintf f _ _ _ (one_more {c} {cs} {s} {t} {u} taken rest) =
    rw (taken, each-IsVfprintf f cs t u rest, each) refl

abbrev build : Build
build = record {
  backend = asic;
  driver_uart = true;
  line = record { status = λ n. 0x61; received = λ n. 0 };
  default_uart_inst = record {
    base = 0x3002000;
    cfg = record { clk_freq_hz = 10000000; baud_rate = 115200 };
  };
}

build-IsAsic : IsAsic build
build-IsAsic = record { backend_at = refl; driver = refl; address = omega arith }

abbrev console : Console
console = record { bus = record { count = 0; writes = [] }; simulated = [] }

abbrev device : Device
device = record {
  interrupts = 0;
  line = 3;
  fifo = 0;
  modem = 0;
  latch_low = 0;
  latch_high = 0;
  transmitted = [];
}

tx_at_once : IsReadyWithin tx_ready build.line 1
tx_at_once n = (0, omega arith, refl)

empty_at_once : IsReadyWithin tx_empty build.line 1
empty_at_once n = (0, omega arith, refl)

printf_log-transmits_example :
    (t : Console) × (printf_log each build 1 (79 ∷ 75 ∷ []) console ≡ some (2, t))
    × (apply_all device t.bus.writes ≡ with_sent device (tag ++ 79 ∷ 75 ∷ []))
unfolding apply_all
printf_log-transmits_example =
    printf_log-transmits each build 1 1 device (79 ∷ 75 ∷ []) console each-IsVfprintf build-IsAsic
      tx_at_once empty_at_once (omega arith) refl
