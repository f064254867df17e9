-- ===== src/Uart/Stream.antt =====
-- The character stream on the UART, and the calls that the driver or the interface refuses.
use chimera_sdk.Base.{
  ℕ, suc, ◌+◌, ◌≤◌, ◌≡◌, ◌≢◌, ◌∙◌, refl, arith, Bool, true, false, ◌||◌, Option, none, some, [],
  ◌∷◌, ◌++◌, ◌==◌, Bool-cases, inl, inr, ==-ne,
}
use chimera_sdk.Uart.{
  read_size, write_size, Line, Bus, rx_ready, tx_ready, tx_empty, poll_then, with_port, call_back,
  Callback, error, Io, Port, apb_open, apb_close, apb_flush, apb_read, apb_write, receive, one_char,
  uart_putc, uart_getc, Interface, default_uart_api, iface_open, iface_close, iface_read,
  iface_write, iface_flush,
}
use chimera_sdk.Uart.Transfer.{with_port-some, IsReadyWithin, receive-total, poll_then-total}
use chimera_sdk.Uart.Device.{Device, latched, apply_all, write-transmits}

-- On a port with an address, if the transmitter becomes ready and empty within `k` status reads
-- whenever it is asked: `uart_putc` returns its character, which a device with a closed divisor latch
-- has by then transmitted once, and its last access is a status read that found the transmitter
-- empty.
pub uart_putc-transmits :
    (l : Line) (k fuel : ℕ) (d : Device) (p : Port) (c : ℕ) (b : Bus)
    → IsReadyWithin tx_ready l k
    → IsReadyWithin tx_empty l k
    → k ≤ fuel
    → p.base ≢ 0
    → latched (apply_all d b.writes) ≡ false
    → (b' : Bus) × (uart_putc l fuel p c b ≡ some (c, b'))
      × (apply_all d b'.writes ≡ record (apply_all d b.writes) {
        transmitted = (apply_all d b.writes).transmitted ++ (c ∷ []);
      })
      × ((j : ℕ) × (b'.count ≡ suc j) × (tx_empty (l.status j) ≡ true))
unfolding uart_putc apb_flush
uart_putc-transmits l k fuel d p c b ready empty le ne closed =
    let one : 1 ≢ 0 = λ e. omega (arith, e) in
    let (b1, written, sent, last) =
      write-transmits l k fuel d p (one_char c) 1 none b ready le ne one closed in
    let go : Bus → Io ℕ = λ b. some (0, b) in
    let (m, waited, (j, at, after, before, set)) =
      poll_then-total tx_empty l k fuel b1 go empty le in
    let flushed : apb_flush l fuel (some p) b1 ≡ some (0, record b1 { count = m }) =
      with_port-some error p b1 (λ p b. poll_then tx_empty l fuel b go) ne ∙ waited in
    (record b1 { count = m }, rw (written, flushed, uart_putc) refl, sent, (j, at, set))

read_receives :
    (l : Line) (fuel : ℕ) (p : Port) (dst : ℕ → ℕ) (size : ℕ) (cb : Option Callback) (b : Bus)
    {dst' : ℕ → ℕ} {b' : Bus}
    → p.base ≢ 0
    → size ≢ 0
    → receive l fuel size 0 dst b ≡ some (dst', b')
    → apb_read l fuel (some p) (some dst) size cb b ≡ some ((size, some dst'), call_back cb p b')
unfolding apb_read
read_receives l fuel p dst size cb b ne filled got =
    rw (==-ne p.base 0 ne, with_port, ==-ne size 0 filled, got, read_size) refl

-- On a port with an address, if a byte arrives within `k` status reads whenever it is asked for:
-- `uart_getc` returns what the receiver buffer held right after a status read that announced it.
pub uart_getc-receives :
    (l : Line) (k fuel : ℕ) (p : Port) (c : ℕ) (b : Bus)
    → IsReadyWithin rx_ready l k
    → k ≤ fuel
    → p.base ≢ 0
    → (t : ℕ) × (b' : Bus) × (uart_getc l fuel p c b ≡ some (l.received (t + 1), b'))
      × (b.count ≤ t)
      × (rx_ready (l.status t) ≡ true)
unfolding uart_getc
uart_getc-receives l k fuel p c b ready le ne =
    let one : 1 ≢ 0 = λ e. omega (arith, e) in
    let (dst, b', got, (t, after, set, byte, rest)) =
      receive-total l k fuel 1 0 (one_char c) b ready le in
    let returned = read_receives l fuel p (one_char c) 1 none b ne one got in
    (t, b', rw (returned, byte, uart_getc) refl, after, set)

abbrev pub missing : Option Port → Bool
missing none = true
missing (some p) = p.base == 0

abbrev pub absent : Option (ℕ → ℕ) → Bool
absent none = true
absent (some f) = false

-- An operation that fails as the guard does makes the guard's outcome the only one.
with_port-fails :
    {A : Type 0} (fail : A) (p : Port) (b : Bus) (op : Port → Bus → Io A)
    → ((p.base == 0) ≡ false → op p b ≡ some (fail, b))
    → with_port fail (some p) b op ≡ some (fail, b)
with_port-fails fail p b op same = elim (Bool-cases (p.base == 0)) [
  | inl null ↦ rw (null, with_port) refl
  | inr set ↦ rw (set, with_port) (same set)
]

-- With no interface, no address, no buffer or a size of 0: `uart_apb_read` and `uart_apb_write`
-- return -1 without an access, and leave the buffer as it is.
pub transfer-refused :
    (l : Line) (fuel : ℕ) (iface : Option Port) (buffer : Option (ℕ → ℕ)) (size : ℕ)
    (cb : Option Callback) (b : Bus)
    → (missing iface || absent buffer || (size == 0)) ≡ true
    → (apb_write l fuel iface buffer size cb b ≡ some (error, b))
      × (apb_read l fuel iface buffer size cb b ≡ some ((error, buffer), b))
unfolding apb_write apb_read
transfer-refused l fuel none none size cb b h = (refl, refl)
transfer-refused l fuel none (some buf) size cb b h = (refl, refl)
transfer-refused l fuel (some p) none size cb b h = (
  with_port-fails error p b (λ p b. some (error, b)) (λ set. refl),
  with_port-fails (error, none) p b (λ p b. some ((error, none), b)) (λ set. refl),
)
transfer-refused l fuel (some p) (some buf) size cb b h = (
  with_port-fails error p b (write_size l fuel buf size cb)
      (λ set. let empty : (size == 0) ≡ true = rw set at h in rw (empty, write_size) refl),
  with_port-fails (error, some buf) p b (read_size l fuel buf size cb)
      (λ set. let empty : (size == 0) ≡ true = rw set at h in rw (empty, read_size) refl),
)

-- An interface that has the UART's operations hands each call to the driver.
pub default_uart_api_lem :
    (l : Line) (fuel : ℕ) (p : Port) (buffer : Option (ℕ → ℕ)) (size : ℕ) (cb : Option Callback)
    (b : Bus)
    → let iface : Option Interface =
        some (record { api = some (default_uart_api l fuel); port = p }) in
      (iface_open iface b ≡ apb_open (some p) b)
      × (iface_close iface b ≡ apb_close (some p) b)
      × (iface_flush iface b ≡ apb_flush l fuel (some p) b)
      × (iface_read iface buffer size cb b ≡ apb_read l fuel (some p) buffer size cb b)
      × (iface_write iface buffer size cb b ≡ apb_write l fuel (some p) buffer size cb b)
unfolding iface_open iface_close iface_flush iface_read iface_write
default_uart_api_lem l fuel p buffer size cb b = (refl, refl, refl, refl, refl)
