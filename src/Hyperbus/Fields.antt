-- ===== src/Hyperbus/Fields.antt =====
-- The pairs of functions of hyperbus.h as those of one register file: each writes and reads its own
-- register and no other.
use chimera_sdk.Base.{
  ℕ, zero, suc, ◌/◌, ◌<◌, ◌≡◌, ◌≢◌, ◌∙◌, ◌%◌, ◌^◌, refl, sym, ap, arith, List, [], ◌∷◌, get_elem?,
  some,
}
use mathlib.Core.Option.{some_inj}
use chimera_sdk.Mmio.{Regs, write32, write32_self, write32_ne}
use chimera_sdk.Hyperbus.Registers.{
  hyperbus_set_t_latency_access, hyperbus_get_t_latency_access, hyperbus_set_en_latency_additional,
  hyperbus_get_en_latency_additional, hyperbus_set_t_burst_max, hyperbus_get_t_burst_max,
  hyperbus_set_t_read_write_recovery, hyperbus_get_t_read_write_recovery,
  hyperbus_set_t_rx_clk_delay, hyperbus_get_t_rx_clk_delay, hyperbus_set_t_tx_clk_delay,
  hyperbus_get_t_tx_clk_delay, hyperbus_set_address_mask_msb, hyperbus_get_address_mask_msb,
  hyperbus_set_address_space, hyperbus_get_address_space, hyperbus_set_phys_in_use,
  hyperbus_get_phys_in_use, hyperbus_set_which_phy, hyperbus_get_which_phy,
  hyperbus_set_t_csh_cycles, hyperbus_get_t_csh_cycles, hyperbus_set_chip_start,
  hyperbus_get_chip_start, hyperbus_set_chip_end, hyperbus_get_chip_end, chip_start_offset,
  chip_end_offset,
}

-- The registers of the controller.
pub data Field : Type 0 where
  t_latency_access : Field
  en_latency_additional : Field
  t_burst_max : Field
  t_read_write_recovery : Field
  t_rx_clk_delay : Field
  t_tx_clk_delay : Field
  address_mask_msb : Field
  address_space : Field
  phys_in_use : Field
  which_phy : Field
  t_csh_cycles : Field
  chip_start : ℕ → Field
  chip_end : ℕ → Field

-- The setter and the getter of a register.
abbrev pub set : Field → ℕ → Regs → Regs
set t_latency_access = hyperbus_set_t_latency_access
set en_latency_additional = hyperbus_set_en_latency_additional
set t_burst_max = hyperbus_set_t_burst_max
set t_read_write_recovery = hyperbus_set_t_read_write_recovery
set t_rx_clk_delay = hyperbus_set_t_rx_clk_delay
set t_tx_clk_delay = hyperbus_set_t_tx_clk_delay
set address_mask_msb = hyperbus_set_address_mask_msb
set address_space = hyperbus_set_address_space
set phys_in_use = hyperbus_set_phys_in_use
set which_phy = hyperbus_set_which_phy
set t_csh_cycles = hyperbus_set_t_csh_cycles
set (chip_start chip) = hyperbus_set_chip_start chip
set (chip_end chip) = hyperbus_set_chip_end chip

abbrev pub get : Field → Regs → ℕ
get t_latency_access = hyperbus_get_t_latency_access
get en_latency_additional = hyperbus_get_en_latency_additional
get t_burst_max = hyperbus_get_t_burst_max
get t_read_write_recovery = hyperbus_get_t_read_write_recovery
get t_rx_clk_delay = hyperbus_get_t_rx_clk_delay
get t_tx_clk_delay = hyperbus_get_t_tx_clk_delay
get address_mask_msb = hyperbus_get_address_mask_msb
get address_space = hyperbus_get_address_space
get phys_in_use = hyperbus_get_phys_in_use
get which_phy = hyperbus_get_which_phy
get t_csh_cycles = hyperbus_get_t_csh_cycles
get (chip_start chip) = hyperbus_get_chip_start chip
get (chip_end chip) = hyperbus_get_chip_end chip

-- The controller has two chips.
abbrev pub IsField : Field → Type 0
IsField (chip_start chip) = chip < 2
IsField (chip_end chip) = chip < 2
IsField t_latency_access = Unit
IsField en_latency_additional = Unit
IsField t_burst_max = Unit
IsField t_read_write_recovery = Unit
IsField t_rx_clk_delay = Unit
IsField t_tx_clk_delay = Unit
IsField address_mask_msb = Unit
IsField address_space = Unit
IsField phys_in_use = Unit
IsField which_phy = Unit
IsField t_csh_cycles = Unit

abbrev offset : Field → ℕ
offset t_latency_access = 0x0
offset en_latency_additional = 0x4
offset t_burst_max = 0x8
offset t_read_write_recovery = 0xc
offset t_rx_clk_delay = 0x10
offset t_tx_clk_delay = 0x14
offset address_mask_msb = 0x18
offset address_space = 0x1c
offset phys_in_use = 0x20
offset which_phy = 0x24
offset t_csh_cycles = 0x28
offset (chip_start chip) = chip_start_offset chip
offset (chip_end chip) = chip_end_offset chip

-- The width of its field.
abbrev pub width : Field → ℕ
width t_latency_access = 4
width en_latency_additional = 1
width t_burst_max = 16
width t_read_write_recovery = 4
width t_rx_clk_delay = 4
width t_tx_clk_delay = 4
width address_mask_msb = 5
width address_space = 1
width phys_in_use = 1
width which_phy = 1
width t_csh_cycles = 4
width (chip_start chip) = 32
width (chip_end chip) = 32

-- The registers in the order of their offsets.
abbrev layout : List Field
layout =
    t_latency_access
    ∷ en_latency_additional
    ∷ t_burst_max
    ∷ t_read_write_recovery
    ∷ t_rx_clk_delay
    ∷ t_tx_clk_delay
    ∷ address_mask_msb
    ∷ address_space
    ∷ phys_in_use
    ∷ which_phy
    ∷ t_csh_cycles
    ∷ chip_start 0
    ∷ chip_end 0
    ∷ chip_start 1
    ∷ chip_end 1
    ∷ []

offset_lem : (f : Field) → IsField f → get_elem? layout (offset f / 4) ≡ some f
offset_lem t_latency_access is_field = refl
offset_lem en_latency_additional is_field = refl
offset_lem t_burst_max is_field = refl
offset_lem t_read_write_recovery is_field = refl
offset_lem t_rx_clk_delay is_field = refl
offset_lem t_tx_clk_delay is_field = refl
offset_lem address_mask_msb is_field = refl
offset_lem address_space is_field = refl
offset_lem phys_in_use is_field = refl
offset_lem which_phy is_field = refl
offset_lem t_csh_cycles is_field = refl
offset_lem (chip_start zero) is_field = refl
offset_lem (chip_start (suc zero)) is_field = refl
offset_lem (chip_start (suc (suc chip))) is_field = absurd (omega (arith, is_field))
offset_lem (chip_end zero) is_field = refl
offset_lem (chip_end (suc zero)) is_field = refl
offset_lem (chip_end (suc (suc chip))) is_field = absurd (omega (arith, is_field))

-- Two registers at the same offset are the same.
offset_inj : (f g : Field) → IsField f → IsField g → offset f ≡ offset g → f ≡ g
offset_inj f g f_is g_is e =
    some_inj.0 (sym (offset_lem f f_is) ∙ ap (λ a. get_elem? layout (a / 4)) e ∙ offset_lem g g_is)

set_lem :
    (f : Field) (val : ℕ) (regs : Regs)
    → set f val regs ≡ write32 (offset f) (val % 2 ^ width f) regs
set_lem t_latency_access val regs = refl
set_lem en_latency_additional val regs = refl
set_lem t_burst_max val regs = refl
set_lem t_read_write_recovery val regs = refl
set_lem t_rx_clk_delay val regs = refl
set_lem t_tx_clk_delay val regs = refl
set_lem address_mask_msb val regs = refl
set_lem address_space val regs = refl
set_lem phys_in_use val regs = refl
set_lem which_phy val regs = refl
set_lem t_csh_cycles val regs = refl
set_lem (chip_start chip) val regs = refl
set_lem (chip_end chip) val regs = refl

get_lem : (f : Field) (regs : Regs) → get f regs ≡ regs (offset f)
get_lem t_latency_access regs = refl
get_lem en_latency_additional regs = refl
get_lem t_burst_max regs = refl
get_lem t_read_write_recovery regs = refl
get_lem t_rx_clk_delay regs = refl
get_lem t_tx_clk_delay regs = refl
get_lem address_mask_msb regs = refl
get_lem address_space regs = refl
get_lem phys_in_use regs = refl
get_lem which_phy regs = refl
get_lem t_csh_cycles regs = refl
get_lem (chip_start chip) regs = refl
get_lem (chip_end chip) regs = refl

-- For every two different registers of the controller, the windows of its two chips included, and
-- each value: after the setter of the first, its getter gives the bits of the value that fit the
-- register's field, and the getter of the second gives what it gave before.
pub get-set :
    (f g : Field) (val : ℕ) (regs : Regs)
    → IsField f
    → IsField g
    → g ≢ f
    → (get f (set f val regs) ≡ val % 2 ^ width f) × (get g (set f val regs) ≡ get g regs)
get-set f g val regs f_is g_is ne = (
  get_lem f (set f val regs)
      ∙ rw (set_lem f val regs) (write32_self (offset f) (val % 2 ^ width f) regs),
  get_lem g (set f val regs)
      ∙ rw (set_lem f val regs) (
          write32_ne (offset f) (offset g) (val % 2 ^ width f) regs
            (λ e. ne (offset_inj g f g_is f_is e)))
      ∙ sym (get_lem g regs),
)
