-- ===== src/Hyperbus/Registers.antt =====
-- The setters and getters of host/drivers/hyperbus/hyperbus.h, one pair for each register of the
-- controller. The registers are named by their offset from `base`, with the offsets of
-- hyperbus_regs.h. A store reaches the whole register; the hardware keeps the low bits that are the
-- register's field by the masks of hyperbus_regs.h and the widths in hyperbus.h.
use chimera_sdk.Base.{ℕ, ◌+◌, ◌*◌, ◌%◌, ◌^◌}
use chimera_sdk.Mmio.{Regs, write32}

-- `HYPERBUS_CHIP_START_REG_OFFSET` and `HYPERBUS_CHIP_END_REG_OFFSET`
abbrev pub chip_start_offset : ℕ → ℕ
chip_start_offset chip = 11 * 4 + chip * 8

abbrev pub chip_end_offset : ℕ → ℕ
chip_end_offset chip = 11 * 4 + chip * 8 + 4

abbrev pub hyperbus_set_t_latency_access : ℕ → Regs → Regs
hyperbus_set_t_latency_access val regs = write32 0x0 (val % 2 ^ 4) regs

abbrev pub hyperbus_get_t_latency_access : Regs → ℕ
hyperbus_get_t_latency_access regs = regs 0x0

abbrev pub hyperbus_set_en_latency_additional : ℕ → Regs → Regs
hyperbus_set_en_latency_additional val regs = write32 0x4 (val % 2 ^ 1) regs

abbrev pub hyperbus_get_en_latency_additional : Regs → ℕ
hyperbus_get_en_latency_additional regs = regs 0x4

abbrev pub hyperbus_set_t_burst_max : ℕ → Regs → Regs
hyperbus_set_t_burst_max val regs = write32 0x8 (val % 2 ^ 16) regs

abbrev pub hyperbus_get_t_burst_max : Regs → ℕ
hyperbus_get_t_burst_max regs = regs 0x8

abbrev pub hyperbus_set_t_read_write_recovery : ℕ → Regs → Regs
hyperbus_set_t_read_write_recovery val regs = write32 0xc (val % 2 ^ 4) regs

abbrev pub hyperbus_get_t_read_write_recovery : Regs → ℕ
hyperbus_get_t_read_write_recovery regs = regs 0xc

abbrev pub hyperbus_set_t_rx_clk_delay : ℕ → Regs → Regs
hyperbus_set_t_rx_clk_delay val regs = write32 0x10 (val % 2 ^ 4) regs

abbrev pub hyperbus_get_t_rx_clk_delay : Regs → ℕ
hyperbus_get_t_rx_clk_delay regs = regs 0x10

abbrev pub hyperbus_set_t_tx_clk_delay : ℕ → Regs → Regs
hyperbus_set_t_tx_clk_delay val regs = write32 0x14 (val % 2 ^ 4) regs

abbrev pub hyperbus_get_t_tx_clk_delay : Regs → ℕ
hyperbus_get_t_tx_clk_delay regs = regs 0x14

abbrev pub hyperbus_set_address_mask_msb : ℕ → Regs → Regs
hyperbus_set_address_mask_msb val regs = write32 0x18 (val % 2 ^ 5) regs

abbrev pub hyperbus_get_address_mask_msb : Regs → ℕ
hyperbus_get_address_mask_msb regs = regs 0x18

abbrev pub hyperbus_set_address_space : ℕ → Regs → Regs
hyperbus_set_address_space val regs = write32 0x1c (val % 2 ^ 1) regs

abbrev pub hyperbus_get_address_space : Regs → ℕ
hyperbus_get_address_space regs = regs 0x1c

abbrev pub hyperbus_set_phys_in_use : ℕ → Regs → Regs
hyperbus_set_phys_in_use val regs = write32 0x20 (val % 2 ^ 1) regs

abbrev pub hyperbus_get_phys_in_use : Regs → ℕ
hyperbus_get_phys_in_use regs = regs 0x20

abbrev pub hyperbus_set_which_phy : ℕ → Regs → Regs
hyperbus_set_which_phy val regs = write32 0x24 (val % 2 ^ 1) regs

abbrev pub hyperbus_get_which_phy : Regs → ℕ
hyperbus_get_which_phy regs = regs 0x24

abbrev pub hyperbus_set_t_csh_cycles : ℕ → Regs → Regs
hyperbus_set_t_csh_cycles val regs = write32 0x28 (val % 2 ^ 4) regs

abbrev pub hyperbus_get_t_csh_cycles : Regs → ℕ
hyperbus_get_t_csh_cycles regs = regs 0x28

abbrev pub hyperbus_set_chip_start : (chip start_addr : ℕ) → Regs → Regs
hyperbus_set_chip_start chip start_addr regs =
    write32 (chip_start_offset chip) (start_addr % 2 ^ 32) regs

abbrev pub hyperbus_get_chip_start : (chip : ℕ) → Regs → ℕ
hyperbus_get_chip_start chip regs = regs (chip_start_offset chip)

abbrev pub hyperbus_set_chip_end : (chip end_addr_noninclusive : ℕ) → Regs → Regs
hyperbus_set_chip_end chip end_addr_noninclusive regs =
    write32 (chip_end_offset chip) (end_addr_noninclusive % 2 ^ 32) regs

abbrev pub hyperbus_get_chip_end : (chip : ℕ) → Regs → ℕ
hyperbus_get_chip_end chip regs = regs (chip_end_offset chip)

abbrev pub hyperbus_set_chip_range : (chip start_addr end_addr_noninclusive : ℕ) → Regs → Regs
hyperbus_set_chip_range chip start_addr end_addr_noninclusive regs =
    hyperbus_set_chip_end chip end_addr_noninclusive (hyperbus_set_chip_start chip start_addr regs)
