-- ===== src/Uart.antt =====
-- The UART driver host/drivers/uart_apb/uart_apb.c, the calls through an interface of
-- host/hal/src/interface_api.c, and the character streams of host/runtime/src/putc.c. What the device
-- shows is a function of the number of bus accesses made so far; the driver's writes are logged.
pub mod Transfer
pub mod Device
pub mod Stream
mod Tests
use chimera_sdk.Base.{
  ℕ, zero, suc, ◌+◌, ◌-◌, ◌*◌, ◌/◌, ◌%◌, ◌^◌, bit_and, Bool, true, false, not, Option, none, some,
  List, [], ◌∷◌, ◌++◌, u32, ◌==◌, if◌then◌else◌,
}

-- The line status register and the receiver buffer, as the n-th access reads them.
pub record Line : Type 0 where
  pub status : ℕ → ℕ
  pub received : ℕ → ℕ

-- A write: the number of the access, the register's offset and the byte.
pub record Write : Type 0 where
  pub time : ℕ
  pub offset : ℕ
  pub byte : ℕ

-- The accesses made so far, and the writes among them, the oldest first.
pub record Bus : Type 0 where
  pub count : ℕ
  pub writes : List Write

-- `reg8_write`
abbrev pub reg8_write : ℕ → ℕ → Bus → Bus
reg8_write offset byte b = record {
  count = suc b.count;
  writes = b.writes ++ (record { time = b.count; offset = offset; byte = byte } ∷ []);
}

-- `rx_ready`, `tx_ready` and `tx_empty` on the status that they read.
abbrev pub rx_ready : ℕ → Bool
rx_ready status = not (bit_and status (2 ^ 0) == 0)

abbrev pub tx_ready : ℕ → Bool
tx_ready status = not (bit_and status (2 ^ 5) == 0)

abbrev pub tx_empty : ℕ → Bool
tx_empty status = not (bit_and status (2 ^ 6) == 0)

-- A loop that reads the status until the test holds: the number of accesses when it ends, `none` out
-- of fuel.
pub poll : (ℕ → Bool) → Line → ℕ → ℕ → Option ℕ
poll test l zero n = none
poll test l (suc fuel) n = elim (test (l.status n)) [
  | true ↦ some (suc n)
  | false ↦ poll test l fuel (suc n)
]

-- `uart_config_t`, as far as the driver reads it
pub record Config : Type 0 where
  pub clk_freq_hz : ℕ
  pub baud_rate : ℕ

-- The fields of `chi_interface_t` that an operation of the driver reads.
pub record Port : Type 0 where
  pub base : ℕ
  pub cfg : Config

-- -1 as a 32-bit word
abbrev pub error : ℕ
error = 2 ^ 32 - 1

-- A result and the bus behind it; `none` if the rounds of a loop ran out.
abbrev pub Io : Type 0 → Type 0
Io A = Option (A × Bus)

abbrev pub Callback : Type 0
Callback = Port → Bus → Bus

-- `if (!iface || !iface->base) return -1;`
abbrev pub with_port : {A : Type 0} → A → Option Port → Bus → (Port → Bus → Io A) → Io A
with_port fail none b op = some (fail, b)
with_port fail (some p) b op = elim (p.base == 0) [ true ↦ some (fail, b) | false ↦ op p b ]

-- `if (cb) (void)cb(iface);`
abbrev pub call_back : Option Callback → Port → Bus → Bus
call_back none p b = b
call_back (some cb) p b = cb p b

abbrev pub poll_then : {A : Type 0} → (ℕ → Bool) → Line → ℕ → Bus → (Bus → Io A) → Io A
poll_then test l fuel b go = elim (poll test l fuel b.count) [
  | none ↦ none
  | some n ↦ go (record b { count = n })
]

-- `uart_apb_flush`
pub apb_flush : Line → ℕ → Option Port → Bus → Io ℕ
apb_flush l fuel iface b =
    with_port error iface b (λ p b. poll_then tx_empty l fuel b (λ b. some (0, b)))

-- The divisor of `uart_apb_open`, for a baud rate that is not a multiple of 2 ^ 28: for one that is, the
-- code divides by zero, which has no meaning in C, and the value here stands for none of the program's.
unfoldable pub divisor : Config → ℕ
divisor cfg = cfg.clk_freq_hz / u32 (cfg.baud_rate * 2 ^ 4)

-- `uart_apb_open`, with its seven writes
abbrev pub open_writes : ℕ → Bus → Bus
open_writes d b =
    let b1 = reg8_write 4 0x00 b in
    let b2 = reg8_write 12 0x80 b1 in
    let b3 = reg8_write 0 (d % 2 ^ 8) b2 in
    let b4 = reg8_write 4 (d / 2 ^ 8 % 2 ^ 8) b3 in
    let b5 = reg8_write 12 0x03 b4 in let b6 = reg8_write 8 0xC7 b5 in reg8_write 16 0x20 b6

unfoldable pub apb_open : Option Port → Bus → Io ℕ
apb_open iface b = with_port error iface b (λ p b. some (0, open_writes (divisor p.cfg) b))

-- `uart_apb_close`
pub apb_close : Option Port → Bus → Io ℕ
apb_close iface b =
    with_port error iface b
      λ p b. some (0, reg8_write 16 0 (reg8_write 8 0 (reg8_write 12 0 (reg8_write 4 0 b))))

-- The loop of `uart_apb_read`: `todo` bytes are left, the next at index `i`.
pub receive : Line → ℕ → (todo i : ℕ) → (ℕ → ℕ) → Bus → Io (ℕ → ℕ)
receive l fuel zero i dst b = some (dst, b)
receive l fuel (suc todo) i dst b = poll_then rx_ready l fuel b λ b.
    receive l fuel todo (suc i) (λ j. if j == i then l.received b.count else dst j)
      (record b { count = suc b.count })

-- The loop of `uart_apb_write`.
pub send : Line → ℕ → (todo i : ℕ) → (ℕ → ℕ) → Bus → Io (Unit {0})
send l fuel zero i src b = some (tt, b)
send l fuel (suc todo) i src b =
    poll_then tx_ready l fuel b (λ b. send l fuel todo (suc i) src (reg8_write 0 (src i) b))

-- `uart_apb_read` into a buffer that may be NULL: the result and the buffer's content. The rest of
-- its body is `read_size`.
abbrev pub read_size :
    Line → ℕ → (ℕ → ℕ) → ℕ → Option Callback → Port → Bus → Io (ℕ × Option (ℕ → ℕ))
read_size l fuel dst size cb p b = elim (size == 0) [
  | true ↦ some ((error, some dst), b)
  | false ↦ elim (receive l fuel size 0 dst b) [
    | none ↦ none
    | some r ↦ some ((size, some r.0), call_back cb p r.1)
  ]
]

pub apb_read :
    Line → ℕ → Option Port → Option (ℕ → ℕ) → ℕ → Option Callback → Bus → Io (ℕ × Option (ℕ → ℕ))
apb_read l fuel iface none size cb b =
    with_port (error, none) iface b (λ p b. some ((error, none), b))
apb_read l fuel iface (some dst) size cb b =
    with_port (error, some dst) iface b (read_size l fuel dst size cb)

-- `uart_apb_write` from a buffer that may be NULL.
abbrev pub write_size : Line → ℕ → (ℕ → ℕ) → ℕ → Option Callback → Port → Bus → Io ℕ
write_size l fuel src size cb p b = elim (size == 0) [
  | true ↦ some (error, b)
  | false ↦ elim (send l fuel size 0 src b) [
    | none ↦ none
    | some r ↦ poll_then tx_ready l fuel r.1 (λ b. some (size, call_back cb p b))
  ]
]

pub apb_write : Line → ℕ → Option Port → Option (ℕ → ℕ) → ℕ → Option Callback → Bus → Io ℕ
apb_write l fuel iface none size cb b = with_port error iface b (λ p b. some (error, b))
apb_write l fuel iface (some src) size cb b =
    with_port error iface b (write_size l fuel src size cb)

-- `chi_interface_api_t`: an operation may be missing.
pub record Api : Type 0 where
  pub api_open : Option (Option Port → Bus → Io ℕ)
  pub api_close : Option (Option Port → Bus → Io ℕ)
  pub api_read :
      Option (Option Port → Option (ℕ → ℕ) → ℕ → Option Callback → Bus → Io (ℕ × Option (ℕ → ℕ)))
  pub api_write : Option (Option Port → Option (ℕ → ℕ) → ℕ → Option Callback → Bus → Io ℕ)
  pub api_flush : Option (Option Port → Bus → Io ℕ)

-- `default_uart_api`
abbrev pub default_uart_api : Line → ℕ → Api
default_uart_api l fuel = record {
  api_open = some apb_open;
  api_close = some apb_close;
  api_read = some (apb_read l fuel);
  api_write = some (apb_write l fuel);
  api_flush = some (apb_flush l fuel);
}

-- `chi_interface_t`
pub record Interface : Type 0 where
  pub api : Option Api
  pub port : Port

-- `if (!iface || !iface->api || !iface->api->op) return -1; return iface->api->op(iface, ...);`
abbrev pub dispatch :
    {A F : Type 0} → A → (Api → Option F) → Option Interface → Bus → (F → Port → Io A) → Io A
dispatch fail field none b call = some (fail, b)
dispatch fail field (some i) b call = elim i.api [
  | none ↦ some (fail, b)
  | some api ↦ elim (field api) [ none ↦ some (fail, b) | some f ↦ call f i.port ]
]

unfoldable pub iface_open : Option Interface → Bus → Io ℕ
iface_open iface b = dispatch error (λ api. api.api_open) iface b (λ f p. f (some p) b)

pub iface_close : Option Interface → Bus → Io ℕ
iface_close iface b = dispatch error (λ api. api.api_close) iface b (λ f p. f (some p) b)

pub iface_flush : Option Interface → Bus → Io ℕ
iface_flush iface b = dispatch error (λ api. api.api_flush) iface b (λ f p. f (some p) b)

pub iface_read :
    Option Interface → Option (ℕ → ℕ) → ℕ → Option Callback → Bus → Io (ℕ × Option (ℕ → ℕ))
iface_read iface dst size cb b =
    dispatch (error, dst) (λ api. api.api_read) iface b (λ f p. f (some p) dst size cb b)

pub iface_write : Option Interface → Option (ℕ → ℕ) → ℕ → Option Callback → Bus → Io ℕ
iface_write iface src size cb b =
    dispatch error (λ api. api.api_write) iface b (λ f p. f (some p) src size cb b)

-- `HARDWARE_BACKEND_*`
pub data Backend : Type 0 where
  gvsoc : Backend
  rtl : Backend
  asic : Backend

-- A `char` of the host, which is unsigned, as a buffer of one byte.
abbrev pub one_char : ℕ → ℕ → ℕ
one_char c i = c

-- `uart_putc`, `uart_getc` and `uart_flush` of an ASIC with the driver, on `default_uart_inst`
pub uart_putc : Line → ℕ → Port → ℕ → Bus → Io ℕ
uart_putc l fuel inst c b = elim (apb_write l fuel (some inst) (some (one_char c)) 1 none b) [
  | none ↦ none
  | some r ↦ elim (apb_flush l fuel (some inst) r.1) [ none ↦ none | some f ↦ some (c, f.1) ]
]

pub uart_getc : Line → ℕ → Port → ℕ → Bus → Io ℕ
uart_getc l fuel inst c b = elim (apb_read l fuel (some inst) (some (one_char c)) 1 none b) [
  | none ↦ none
  | some r ↦ some (if r.0.0 == 1 then first r.0.1 else error, r.1)
]
  where
    first : Option (ℕ → ℕ) → ℕ
    first none = error
    first (some dst) = dst 0

pub uart_flush : Line → ℕ → Port → Bus → Io ℕ
uart_flush l fuel inst b = apb_flush l fuel (some inst) b
