-- ===== src/Log.antt =====
-- The output of the host: the stream of host/runtime/src/stdio.c over the functions of
-- host/runtime/src/putc.c for every backend, and printf_log of host/runtime/src/log.c. The C library
-- is a parameter.
pub mod Message
mod Tests
use chimera_sdk.Base.{
  ℕ, suc, ◌≡◌, Bool, true, false, Option, none, some, List, [], ◌∷◌, ◌++◌, length,
}
use chimera_sdk.Uart.{
  Line, Bus, Port, Io, error, uart_putc, uart_getc, uart_flush, Backend, gvsoc, rtl, asic,
}

-- The UART's bus, and the words written to the addresses of the simulators.
pub record Console : Type 0 where
  pub bus : Bus
  pub simulated : List (ℕ × ℕ)

-- A result and the console behind it; `none` if the rounds of a loop ran out.
abbrev pub Run : Type 0
Run = Option (ℕ × Console)

-- The build: the backend, and `CHIMERA_DRIVER_UART`; and the device behind it.
pub record Build : Type 0 where
  pub backend : Backend
  pub driver_uart : Bool
  pub line : Line
  pub default_uart_inst : Port

abbrev pub on_bus : Io ℕ → Console → Run
on_bus none s = none
on_bus (some r) s = some (r.0, record s { bus = r.1 })

abbrev pub simulate : ℕ → ℕ → Console → Run
simulate address c s = some (c, record s { simulated = s.simulated ++ ((address, c) ∷ []) })

-- `uart_putc`, `uart_getc` and `uart_flush` of the build; `c` of the second is what the variable holds
-- before.
pub console_putc : Build → ℕ → ℕ → Console → Run
console_putc b fuel c s = elim b.backend [
  | asic ↦ elim b.driver_uart [
    | true ↦ on_bus (uart_putc b.line fuel b.default_uart_inst c s.bus) s
    | false ↦ some (error, s)
  ]
  | rtl ↦ simulate 0x30004FFC c s
  | gvsoc ↦ simulate 0x03004000 c s
]

pub console_getc : Build → ℕ → ℕ → Console → Run
console_getc b fuel c s = elim b.backend [
  | asic ↦ elim b.driver_uart [
    | true ↦ on_bus (uart_getc b.line fuel b.default_uart_inst c s.bus) s
    | false ↦ some (error, s)
  ]
  | rtl ↦ some (error, s)
  | gvsoc ↦ some (error, s)
]

pub console_flush : Build → ℕ → Console → Run
console_flush b fuel s = elim b.backend [
  | asic ↦ elim b.driver_uart [
    | true ↦ on_bus (uart_flush b.line fuel b.default_uart_inst s.bus) s
    | false ↦ some (error, s)
  ]
  | rtl ↦ some (error, s)
  | gvsoc ↦ some (error, s)
]

-- `stdout`: `FDEV_SETUP_STREAM(uart_putc, uart_getc, uart_flush, _FDEV_SETUP_RW)`
pub record Stream : Type 0 where
  pub put : ℕ → Console → Run
  pub get : ℕ → Console → Run
  pub flush_stream : Console → Run

abbrev pub stdout : Build → ℕ → Stream
stdout b fuel = record {
  put = console_putc b fuel;
  get = console_getc b fuel;
  flush_stream = console_flush b fuel;
}

-- `vfprintf` of the C library on a stream and a text already formatted.
abbrev pub Vfprintf : Type 0
Vfprintf = Stream → List ℕ → Console → Run

-- "[HOST ] "
abbrev pub tag : List ℕ
tag = 91 ∷ 72 ∷ 79 ∷ 83 ∷ 84 ∷ 32 ∷ 93 ∷ 32 ∷ []

-- `printf_log`
pub printf_log : Vfprintf → Build → ℕ → List ℕ → Console → Run
printf_log vfprintf b fuel text s = elim (vfprintf (stdout b fuel) tag s) [
  | none ↦ none
  | some r ↦ vfprintf (stdout b fuel) text r.1
]
