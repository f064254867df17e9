-- ===== src/Padframe.antt =====
-- The pads of targets/chimera-convolve: host/src/padframe_gpio.c and host/src/padframe_hyperbus.c,
-- with the offsets and fields of shared/inc/regs/padframe_gpio_regs.h and padframe_hyperbus_regs.h.
-- The bit-field operations are those of OpenTitan's `sw/device/lib/base/bitfield.h`, which the
-- build fetches: they are the parameter `bits`.
pub mod Laws
pub mod Gpio
pub mod Hyper
pub mod Digits
mod Tests
use chimera_sdk.Base.{
  ℕ, ◌+◌, ◌%◌, ◌^◌, List, [], ◌∷◌, Bool, true, false, not, bit_and, u8, u32, ◌==◌, if◌then◌else◌,
}
use chimera_sdk.Mmio.{Regs, write32}

-- `bitfield_field32_t`
pub record Field : Type 0 where
  pub mask : ℕ
  pub index : ℕ

-- The operations of `bitfield.h` that the drivers call.
pub record Bitfield : Type 0 where
  pub bit32_write : ℕ → ℕ → Bool → ℕ
  pub bit32_read : ℕ → ℕ → Bool
  pub field32_write : ℕ → Field → ℕ → ℕ
  pub field32_read : ℕ → Field → ℕ

abbrev pub padframe_gpio_base : ℕ
padframe_gpio_base = 0x30002000

abbrev pub padframe_hyperbus_base : ℕ
padframe_hyperbus_base = 0x30003000

-- The parts of a pad's configuration, one for each pair of functions.
pub data Part : Type 0 where
  chip2pad drv pde pue rxe slw smt trie : Part

-- `…_CFG_<part>_BIT`, and `…_CFG_DRV_FIELD`
abbrev pub bit_of : Part → ℕ
bit_of chip2pad = 0
bit_of drv = 1
bit_of pde = 3
bit_of pue = 4
bit_of rxe = 5
bit_of slw = 6
bit_of smt = 7
bit_of trie = 8

abbrev pub drv_field : Field
drv_field = record { mask = 0x3; index = 1 }

-- The conversions between `uint8_t` and `bool` at the calls.
abbrev pub to_bool : ℕ → Bool
to_bool value = not (value == 0)

abbrev pub of_bool : Bool → ℕ
of_bool b = if b then 1 else 0

-- The word with one part written, and the part read.
abbrev pub part_write : Bitfield → Part → ℕ → ℕ → ℕ
part_write bits drv value reg = bits.field32_write reg drv_field value
part_write bits p value reg = bits.bit32_write reg (bit_of p) (to_bool value)

abbrev pub part_read : Bitfield → Part → ℕ → ℕ
part_read bits drv reg = u8 (bits.field32_read reg drv_field)
part_read bits p reg = of_bool (bits.bit32_read reg (bit_of p))

-- The offsets of a pad's two registers.
pub record Pad : Type 0 where
  pub cfg : ℕ
  pub mux_sel : ℕ

-- The functions of one pad: `padframe_aon_gpio_<n>_cfg_<part>_set` and `_get`, `…_mux_set` and
-- `…_mux_get`.
pub record PadDriver : Type 0 where
  pub cfg_set : Part → ℕ → Regs → Regs
  pub cfg_get : Part → Regs → ℕ
  pub mux_set : ℕ → Regs → Regs
  pub mux_get : Regs → ℕ

pub driver : Bitfield → Pad → PadDriver
driver bits pad =
    let cfg_address = padframe_gpio_base + pad.cfg in
    let mux_address = padframe_gpio_base + pad.mux_sel in
    record {
      cfg_set = λ part value regs.
          write32 cfg_address (part_write bits part value (regs cfg_address)) regs;
      cfg_get = λ part regs. part_read bits part (regs cfg_address);
      mux_set = λ mux_sel regs. write32 mux_address (bit_and (u32 mux_sel) 15) regs;
      mux_get = λ regs. bit_and (regs mux_address) 15;
    }

abbrev pub gpio_0 : Pad
gpio_0 = record { cfg = 0x4; mux_sel = 0x8 }

abbrev pub gpio_1 : Pad
gpio_1 = record { cfg = 0xc; mux_sel = 0x10 }

abbrev pub gpio_2 : Pad
gpio_2 = record { cfg = 0x14; mux_sel = 0x18 }

abbrev pub gpio_3 : Pad
gpio_3 = record { cfg = 0x1c; mux_sel = 0x20 }

abbrev pub gpio_4 : Pad
gpio_4 = record { cfg = 0x24; mux_sel = 0x28 }

abbrev pub gpio_5 : Pad
gpio_5 = record { cfg = 0x2c; mux_sel = 0x30 }

abbrev pub gpio_6 : Pad
gpio_6 = record { cfg = 0x34; mux_sel = 0x38 }

abbrev pub gpio_7 : Pad
gpio_7 = record { cfg = 0x3c; mux_sel = 0x40 }

abbrev pub gpio_8 : Pad
gpio_8 = record { cfg = 0x44; mux_sel = 0x48 }

abbrev pub gpio_9 : Pad
gpio_9 = record { cfg = 0x4c; mux_sel = 0x50 }

abbrev pub gpio_10 : Pad
gpio_10 = record { cfg = 0x54; mux_sel = 0x58 }

abbrev pub gpio_11 : Pad
gpio_11 = record { cfg = 0x5c; mux_sel = 0x60 }

abbrev pub gpio_12 : Pad
gpio_12 = record { cfg = 0x64; mux_sel = 0x68 }

abbrev pub gpio_13 : Pad
gpio_13 = record { cfg = 0x6c; mux_sel = 0x70 }

abbrev pub gpio_14 : Pad
gpio_14 = record { cfg = 0x74; mux_sel = 0x78 }

abbrev pub gpio_15 : Pad
gpio_15 = record { cfg = 0x7c; mux_sel = 0x80 }

abbrev pub gpio_pads : List Pad
gpio_pads =
    gpio_0 ∷ gpio_1 ∷ gpio_2 ∷ gpio_3 ∷ gpio_4 ∷ gpio_5 ∷ gpio_6 ∷ gpio_7 ∷ gpio_8 ∷ gpio_9
    ∷ gpio_10 ∷ gpio_11 ∷ gpio_12 ∷ gpio_13 ∷ gpio_14 ∷ gpio_15 ∷ []

-- `padframe_hyperbus_drv_strength_addr`
abbrev pub drv_strength_addr : ℕ
drv_strength_addr = padframe_hyperbus_base + 0x0

abbrev pub cs0 : Field
cs0 = record { mask = 0x3; index = 0 }

abbrev pub cs1 : Field
cs1 = record { mask = 0x3; index = 2 }

abbrev pub clk : Field
clk = record { mask = 0x3; index = 4 }

abbrev pub clkn : Field
clkn = record { mask = 0x3; index = 6 }

abbrev pub rst : Field
rst = record { mask = 0x3; index = 8 }

abbrev pub rwds : Field
rwds = record { mask = 0x3; index = 10 }

abbrev pub dq0 : Field
dq0 = record { mask = 0x3; index = 12 }

abbrev pub dq1 : Field
dq1 = record { mask = 0x3; index = 14 }

abbrev pub dq2 : Field
dq2 = record { mask = 0x3; index = 16 }

abbrev pub dq3 : Field
dq3 = record { mask = 0x3; index = 18 }

abbrev pub dq4 : Field
dq4 = record { mask = 0x3; index = 20 }

abbrev pub dq5 : Field
dq5 = record { mask = 0x3; index = 22 }

abbrev pub dq6 : Field
dq6 = record { mask = 0x3; index = 24 }

abbrev pub dq7 : Field
dq7 = record { mask = 0x3; index = 26 }

abbrev pub reserved : Field
reserved = record { mask = 0xf; index = 28 }

abbrev pub hyper_fields : List Field
hyper_fields =
    cs0 ∷ cs1 ∷ clk ∷ clkn ∷ rst ∷ rwds ∷ dq0 ∷ dq1 ∷ dq2 ∷ dq3 ∷ dq4 ∷ dq5 ∷ dq6 ∷ dq7 ∷ reserved
    ∷ []

-- `padframe_hyperbus_<pin>_cfg_drv_set` and `…_get`
pub drv_set : Bitfield → Field → ℕ → Regs → Regs
drv_set bits field value regs =
    write32 drv_strength_addr (bits.field32_write (regs drv_strength_addr) field value) regs

pub drv_get : Bitfield → Field → Regs → ℕ
drv_get bits field regs = u8 (bits.field32_read (regs drv_strength_addr) field)
