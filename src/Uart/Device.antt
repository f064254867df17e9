-- ===== src/Uart/Device.antt =====
-- What the driver's writes mean to a 16550, whose divisor latch lies behind the first two registers
-- while bit 7 of the line control register is set: `uart_apb_open`, and `uart_apb_write` behind it.
use native.Mathlib.Nat.{div-mul-le_self, lt-div-mul-add, div-lt_iff_lt-mul}
use mathlib.Core.List.{append-nil, append_assoc}
use chimera_sdk.Base.{
  ℕ, suc, ◌+◌, ◌*◌, ◌/◌, ◌%◌, ◌^◌, ◌≤◌, ◌<◌, ◌≡◌, ◌≢◌, ◌∙◌, refl, sym, ap, arith, bit_and, Bool,
  true, false, not, Option, none, some, List, [], ◌∷◌, ◌++◌, map, u32, ◌==◌, ==-ne, if◌then◌else◌,
}
use chimera_sdk.Uart.{
  write_size, Line, Write, Bus, reg8_write, tx_ready, poll_then, with_port, call_back, Callback,
  error, Io, Port, Config, divisor, open_writes, apb_open, apb_write, send,
}
use chimera_sdk.Uart.Transfer.{
  with_port-some, IsReadyWithin, IsPaced, bytes, byte_of, send-total, poll_then-total,
}

-- The registers that the driver writes, and the bytes handed to the transmitter.
pub record Device : Type 0 where
  pub interrupts : ℕ
  pub line : ℕ
  pub fifo : ℕ
  pub modem : ℕ
  pub latch_low : ℕ
  pub latch_high : ℕ
  pub transmitted : List ℕ

abbrev pub latched : Device → Bool
latched d = not (bit_and d.line 0x80 == 0)

abbrev pub apply : Device → Write → Device
apply d w =
    if w.offset == 0
    then (if latched d
        then record d { latch_low = w.byte }
        else record d { transmitted = d.transmitted ++ (w.byte ∷ []) })
    else if w.offset == 4
    then (if latched d then record d { latch_high = w.byte } else record d { interrupts = w.byte })
    else if w.offset == 8
    then record d { fifo = w.byte }
    else if w.offset == 12
    then record d { line = w.byte }
    else if w.offset == 16
    then record d { modem = w.byte }
    else d

unfoldable pub apply_all : Device → List Write → Device
apply_all d [] = d
apply_all d (w ∷ ws) = apply_all (apply d w) ws

apply_all-append :
    (d : Device) (xs ys : List Write) → apply_all d (xs ++ ys) ≡ apply_all (apply_all d xs) ys
unfolding apply_all
apply_all-append d [] ys = refl
apply_all-append d (x ∷ xs) ys = apply_all-append (apply d x) xs ys

-- A configured device: 8 bits, no parity, one stop bit, no interrupts, the FIFO cleared and enabled
-- with a threshold of 14 bytes, automatic flow control.
abbrev pub configured : ℕ → List ℕ → Device
configured divisor sent = record {
  interrupts = 0;
  line = 0x03;
  fifo = 0xC7;
  modem = 0x20;
  latch_low = divisor % 2 ^ 8;
  latch_high = divisor / 2 ^ 8 % 2 ^ 8;
  transmitted = sent;
}

pub write_sets :
    (d : Device) (b : Bus) (offset byte : ℕ)
    → apply_all d (reg8_write offset byte b).writes
      ≡ apply (apply_all d b.writes) (record { time = b.count; offset = offset; byte = byte })
unfolding apply_all
write_sets d b offset byte = apply_all-append d b.writes _

one_more :
    (d : Device) (b : Bus) (offset byte : ℕ) {e : Device}
    → apply_all d b.writes ≡ e
    → apply_all d (reg8_write offset byte b).writes
      ≡ apply e (record { time = b.count; offset = offset; byte = byte })
one_more d b offset byte {e} h =
    write_sets d b offset byte
    ∙ ap (λ e. apply e (record { time = b.count; offset = offset; byte = byte })) h

apply-interrupts :
    (d : Device) (time byte : ℕ)
    → latched d ≡ false
    → apply d (record { time = time; offset = 4; byte = byte }) ≡ record d { interrupts = byte }
apply-interrupts d time byte closed = rw closed refl

-- On a port with an address, and a device whose divisor latch is closed: `uart_apb_open` returns 0
-- and leaves the device configured with the low 16 bits of the divisor, and nothing transmitted.
pub open-configured :
    (d : Device) (p : Port) (b : Bus)
    → p.base ≢ 0
    → latched (apply_all d b.writes) ≡ false
    → (b' : Bus) × (apb_open (some p) b ≡ some (0, b'))
      × (apply_all d b'.writes ≡ configured (divisor p.cfg) (apply_all d b.writes).transmitted)
unfolding apb_open
open-configured d p b ne closed =
    let v = divisor p.cfg in
    let b1 = reg8_write 4 0x00 b in
    let b2 = reg8_write 12 0x80 b1 in
    let b3 = reg8_write 0 (v % 2 ^ 8) b2 in
    let b4 = reg8_write 4 (v / 2 ^ 8 % 2 ^ 8) b3 in
    let b5 = reg8_write 12 0x03 b4 in
    let b6 = reg8_write 8 0xC7 b5 in
    let e1 = write_sets d b 4 0x00 ∙ apply-interrupts (apply_all d b.writes) b.count 0 closed in
    let e2 = one_more d b1 12 0x80 e1 in
    let e3 = one_more d b2 0 (v % 2 ^ 8) e2 in
    let e4 = one_more d b3 4 (v / 2 ^ 8 % 2 ^ 8) e3 in
    let e5 = one_more d b4 12 0x03 e4 in
    let e6 = one_more d b5 8 0xC7 e5 in
    (
      open_writes v b,
      with_port-some error p b (λ p b. some (0, open_writes (divisor p.cfg) b)) ne,
      one_more d b6 16 0x20 e6,
    )

apply-transmits :
    (d : Device) (w : Write)
    → w.offset ≡ 0
    → latched d ≡ false
    → apply d w ≡ record d { transmitted = d.transmitted ++ (w.byte ∷ []) }
apply-transmits d w at closed = rw (at, closed) refl

-- A device with a closed latch transmits the bytes that are written to the holding register.
apply_all-transmits :
    (l : Line) (d : Device) (ws : List Write)
    → IsPaced l ws
    → latched d ≡ false
    → apply_all d ws ≡ record d { transmitted = d.transmitted ++ map byte_of ws }
unfolding apply_all
apply_all-transmits l d [] paced closed =
    ap (λ xs. record d { transmitted = xs }) (sym (append-nil d.transmitted))
apply_all-transmits l d (w ∷ ws) (at, ready, paced) closed =
    let next : Device = record d { transmitted = d.transmitted ++ (w.byte ∷ []) } in
    ap (λ e. apply_all e ws) (apply-transmits d w at closed)
    ∙ apply_all-transmits l next ws paced closed
    ∙ ap (λ xs. record d { transmitted = xs })
        (append_assoc d.transmitted (w.byte ∷ []) (map byte_of ws))

write_sends :
    (l : Line) (fuel : ℕ) (p : Port) (src : ℕ → ℕ) (size : ℕ) (cb : Option Callback) (b : Bus)
    {b1 : Bus}
    → p.base ≢ 0
    → size ≢ 0
    → send l fuel size 0 src b ≡ some (tt, b1)
    → apb_write l fuel (some p) (some src) size cb b
      ≡ poll_then tx_ready l fuel b1 (λ b. some (size, call_back cb p b))
unfolding apb_write
write_sends l fuel p src size cb b ne filled sent =
    rw (==-ne p.base 0 ne, with_port, ==-ne size 0 filled, sent, write_size) refl

-- On a port with an address and for a size that is not 0, if the holding register comes empty within
-- `k` status reads whenever it is asked: `uart_apb_write` returns the size and calls the callback if
-- there is one; on a device with a closed divisor latch it has by then transmitted the bytes of the
-- buffer, in order and once each, and its last access is a status read that found the holding
-- register empty.
pub write-transmits :
    (l : Line) (k fuel : ℕ) (d : Device) (p : Port) (src : ℕ → ℕ) (size : ℕ) (cb : Option Callback)
    (b : Bus)
    → IsReadyWithin tx_ready l k
    → k ≤ fuel
    → p.base ≢ 0
    → size ≢ 0
    → latched (apply_all d b.writes) ≡ false
    → (b' : Bus) × (apb_write l fuel (some p) (some src) size cb b ≡ some (size, call_back cb p b'))
      × (apply_all d b'.writes ≡ record (apply_all d b.writes) {
        transmitted = (apply_all d b.writes).transmitted ++ bytes src size 0;
      })
      × ((j : ℕ) × (b'.count ≡ suc j) × (tx_ready (l.status j) ≡ true))
unfolding apb_write
write-transmits l k fuel d p src size cb b ready le ne filled closed =
    let (b1, ws, sent, log, content, paced, within) = send-total l k fuel size 0 src b ready le in
    let go : Bus → Io ℕ = λ b. some (size, call_back cb p b) in
    let (m, waited, (j, at, after, before, set)) =
      poll_then-total tx_ready l k fuel b1 go ready le in
    let written : apb_write l fuel (some p) (some src) size cb b ≡ poll_then tx_ready l fuel b1 go =
      write_sends l fuel p src size cb b ne filled sent in
    let d0 = apply_all d b.writes in
    (
      record b1 { count = m },
      written ∙ waited,
      ap (λ xs. apply_all d xs) log
          ∙ apply_all-append d b.writes ws
          ∙ apply_all-transmits l d0 ws paced closed
          ∙ ap (λ xs. record d0 { transmitted = d0.transmitted ++ xs }) content,
      (j, at, set),
    )

-- On a port with an address whose baud rate times 16 is not a multiple of 2^32, for a size that is not
-- 0, and on a device with a closed divisor latch whose holding register comes empty within `k` status reads whenever it is asked: `uart_apb_open`
-- followed by `uart_apb_write` returns 0 and then the size, and leaves the device configured, with
-- the low 16 bits of the divisor in the latch, and with the bytes of the buffer transmitted in
-- order and once each, behind those transmitted before.
pub open-write_transmits :
    (l : Line) (k fuel : ℕ) (d : Device) (p : Port) (src : ℕ → ℕ) (size : ℕ) (b : Bus)
    → IsReadyWithin tx_ready l k
    → k ≤ fuel
    → p.base ≢ 0
    → u32 (p.cfg.baud_rate * 2 ^ 4) ≢ 0
    → size ≢ 0
    → latched (apply_all d b.writes) ≡ false
    → (b1 : Bus) × (b2 : Bus) × (apb_open (some p) b ≡ some (0, b1))
      × (apb_write l fuel (some p) (some src) size none b1 ≡ some (size, b2))
      × (apply_all d b2.writes
          ≡ configured (divisor p.cfg) ((apply_all d b.writes).transmitted ++ bytes src size 0))
open-write_transmits l k fuel d p src size b ready le ne some_rate filled closed =
    let (b1, opened, set) = open-configured d p b ne closed in
    let still : latched (apply_all d b1.writes) ≡ false = rw set refl in
    let (b2, written, sent, waited) =
      write-transmits l k fuel d p src size none b1 ready le ne filled still in
    (b1, b2, opened, written, rw set at sent)

-- For a baud rate from 1 to 2 ^ 28 - 1 and a clock below 2 ^ 20 times the rate: the two bytes of
-- the latch make up the whole divisor, sixteen times the rate times the divisor is at most the
-- clock, and with the next divisor it is above the clock.
pub divisor-rounds :
    (cfg : Config)
    → 0 < cfg.baud_rate
    → cfg.baud_rate < 2 ^ 28
    → cfg.clk_freq_hz < 2 ^ 20 * cfg.baud_rate
    → (divisor cfg % 2 ^ 8 + 2 ^ 8 * (divisor cfg / 2 ^ 8 % 2 ^ 8) ≡ divisor cfg)
      × (16 * cfg.baud_rate * divisor cfg ≤ cfg.clk_freq_hz)
      × (cfg.clk_freq_hz < 16 * cfg.baud_rate * (divisor cfg + 1))
unfolding divisor
divisor-rounds cfg pos small slow =
    let rate : u32 (cfg.baud_rate * 2 ^ 4) ≡ 16 * cfg.baud_rate = omega (arith, small) in
    let some_rate : 0 < 16 * cfg.baud_rate = omega (arith, pos) in
    let at_most = div-mul-le_self cfg.clk_freq_hz (16 * cfg.baud_rate) in
    let more = lt-div-mul-add {a = cfg.clk_freq_hz} {b = 16 * cfg.baud_rate} some_rate in
    let bound : cfg.clk_freq_hz < 2 ^ 16 * (16 * cfg.baud_rate) = omega (arith, slow) in
    let fits : cfg.clk_freq_hz / (16 * cfg.baud_rate) < 2 ^ 16 =
      (div-lt_iff_lt-mul some_rate).1 bound in
    rw rate ((omega (arith, fits), omega (arith, at_most), omega (arith, more)))
