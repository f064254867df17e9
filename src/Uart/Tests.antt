-- ===== src/Uart/Tests.antt =====
-- A device that is always ready, with an echo of the access number in its receiver.
use chimera_sdk.Base.{ℕ, zero, suc, ◌≡◌, refl, arith, none, some, [], ◌∷◌}
use chimera_sdk.Uart.{Line, Bus, Port, rx_ready, tx_ready, tx_empty, apb_open, apb_write, divisor}
use chimera_sdk.Uart.Transfer.{IsReadyWithin}
use chimera_sdk.Uart.Device.{Device, apply_all, configured, open-write_transmits}

-- 10 MHz and 115200 baud
abbrev port : Port
port = record { base = 0x3002000; cfg = record { clk_freq_hz = 10000000; baud_rate = 115200 } }

abbrev ready_line : Line
ready_line = record { status = λ n. 0x61; received = λ n. n }

abbrev fresh : Bus
fresh = record { count = 0; writes = [] }

abbrev reset : Device
reset = record {
  interrupts = 1;
  line = 0;
  fifo = 0;
  modem = 0;
  latch_low = 0;
  latch_high = 0;
  transmitted = [];
}

abbrev two_bytes : ℕ → ℕ
two_bytes zero = 72
two_bytes (suc i) = 105

rx_at_once : IsReadyWithin rx_ready ready_line 1
rx_at_once n = (0, omega arith, refl)

tx_at_once : IsReadyWithin tx_ready ready_line 1
tx_at_once n = (0, omega arith, refl)

empty_at_once : IsReadyWithin tx_empty ready_line 1
empty_at_once n = (0, omega arith, refl)

-- 5 is within rounding of 10000000 / (16 * 115200).
divisor_run : divisor port.cfg ≡ 5
unfolding divisor
divisor_run = refl

open-write_transmits_example :
    (b1 : Bus) × (b2 : Bus) × (apb_open (some port) fresh ≡ some (0, b1))
    × (apb_write ready_line 1 (some port) (some two_bytes) 2 none b1 ≡ some (2, b2))
    × (apply_all reset b2.writes ≡ configured (divisor port.cfg) (72 ∷ 105 ∷ []))
unfolding apply_all
open-write_transmits_example =
    open-write_transmits ready_line 1 1 reset port two_bytes 2 fresh tx_at_once (omega arith)
      (λ e. omega (arith, e)) (λ e. omega (arith, e)) (λ e. omega (arith, e)) refl
