-- ===== src/Hyperbus.antt =====
-- The HyperBus controller, host/drivers/hyperbus/hyperbus.c and hyperbus.h. A register keeps the low
-- bits of a word that is written, as many as its field has.
pub mod Registers
pub mod Fields
mod Tests
use native.Mathlib.Nat.{mod-eq_of_lt}
use chimera_sdk.Base.{
  ℕ, ◌+◌, ◌*◌, ◌-◌, ◌%◌, ◌^◌, ◌<◌, ◌≤◌, ◌≡◌, refl, arith, Bool, true, false, not, ◌||◌, u32, sub32,
  if◌then◌else◌,
}
use chimera_sdk.Mmio.{Regs, write32}
use chimera_sdk.Hyperbus.Registers.{
  hyperbus_set_t_latency_access, hyperbus_set_en_latency_additional, hyperbus_set_t_burst_max,
  hyperbus_set_t_read_write_recovery, hyperbus_set_t_rx_clk_delay, hyperbus_set_t_tx_clk_delay,
  hyperbus_set_address_mask_msb, hyperbus_set_address_space, hyperbus_set_phys_in_use,
  hyperbus_set_which_phy, hyperbus_set_t_csh_cycles, hyperbus_set_chip_start,
  hyperbus_get_chip_start, hyperbus_set_chip_end, hyperbus_get_chip_end, chip_start_offset,
  chip_end_offset,
}

-- `hyperram_cfg_t`; the two arrays have one entry for each of the two chips.
pub record HyperramCfg : Type 0 where
  pub t_latency_access : ℕ
  pub en_latency_additional : ℕ
  pub t_burst_max : ℕ
  pub t_read_write_recovery : ℕ
  pub t_rx_clk_delay : ℕ
  pub t_tx_clk_delay : ℕ
  pub address_mask_msb : ℕ
  pub address_space : ℕ
  pub phys_in_use : ℕ
  pub which_phy : ℕ
  pub t_csh_cycles : ℕ
  pub chip_base : ℕ × ℕ
  pub chip_space : ℕ × ℕ

-- One round of the loop over the chips.
chip_write : ℕ → ℕ → ℕ → Regs → Regs
chip_write chip base space regs =
    hyperbus_set_chip_end chip (u32 (base + space)) (hyperbus_set_chip_start chip base regs)

-- The setters in the order of `hyperram_cfg_write`.
base_write : HyperramCfg → Regs → Regs
base_write cfg regs = hyperbus_set_t_csh_cycles cfg.t_csh_cycles (
    hyperbus_set_which_phy cfg.which_phy (
      hyperbus_set_phys_in_use cfg.phys_in_use (
        hyperbus_set_address_space cfg.address_space (
          hyperbus_set_address_mask_msb cfg.address_mask_msb (
            hyperbus_set_t_tx_clk_delay cfg.t_tx_clk_delay (
              hyperbus_set_t_rx_clk_delay cfg.t_rx_clk_delay (
                hyperbus_set_t_read_write_recovery cfg.t_read_write_recovery (
                  hyperbus_set_t_burst_max cfg.t_burst_max (
                    hyperbus_set_en_latency_additional cfg.en_latency_additional
                      (hyperbus_set_t_latency_access cfg.t_latency_access regs))))))))))

-- `hyperram_cfg_write`: the result, -1 as a word, with the registers. The Booleans say that the
-- pointers are not `NULL`.
pub hyperram_cfg_write : Bool → Bool → HyperramCfg → Regs → ℕ × Regs
hyperram_cfg_write base_ptr cfg_ptr cfg regs =
    if not base_ptr || not cfg_ptr then (2 ^ 32 - 1, regs) else (
      0,
      chip_write 1 cfg.chip_base.1 cfg.chip_space.1
          (chip_write 0 cfg.chip_base.0 cfg.chip_space.0 (base_write cfg regs)),
    )

-- `hyperram_cfg_read`
pub hyperram_cfg_read : Regs → HyperramCfg
hyperram_cfg_read regs = record {
  t_latency_access = regs 0x0;
  en_latency_additional = regs 0x4;
  t_burst_max = regs 0x8;
  t_read_write_recovery = regs 0xc;
  t_rx_clk_delay = regs 0x10;
  t_tx_clk_delay = regs 0x14;
  address_mask_msb = regs 0x18;
  address_space = regs 0x1c;
  phys_in_use = regs 0x20;
  which_phy = regs 0x24;
  t_csh_cycles = regs 0x28;
  chip_base = (hyperbus_get_chip_start 0 regs, hyperbus_get_chip_start 1 regs);
  chip_space = (
    sub32 (hyperbus_get_chip_end 0 regs) (hyperbus_get_chip_start 0 regs),
    sub32 (hyperbus_get_chip_end 1 regs) (hyperbus_get_chip_start 1 regs),
  );
}

-- `hyperram_cfg_default`
pub hyperram_cfg_default : ℕ → ℕ → HyperramCfg
hyperram_cfg_default chip_base chip_size = record {
  t_latency_access = 0x6;
  en_latency_additional = 0x0;
  t_burst_max = 350;
  t_read_write_recovery = 0x6;
  t_rx_clk_delay = 0x8;
  t_tx_clk_delay = 0x8;
  address_mask_msb = 25;
  address_space = 0x0;
  phys_in_use = 0x0;
  which_phy = 0x0;
  t_csh_cycles = 0x1;
  chip_base = (u32 (chip_base + 0 * chip_size), u32 (chip_base + 1 * chip_size));
  chip_space = (chip_size, chip_size);
}

-- Each value fits its register's field, and the bases and sizes of the chips are words.
pub record IsHyperramCfg (cfg : HyperramCfg) : Type 0 where
  pub t_latency_access_lt : cfg.t_latency_access < 2 ^ 4
  pub en_latency_additional_lt : cfg.en_latency_additional < 2 ^ 1
  pub t_burst_max_lt : cfg.t_burst_max < 2 ^ 16
  pub t_read_write_recovery_lt : cfg.t_read_write_recovery < 2 ^ 4
  pub t_rx_clk_delay_lt : cfg.t_rx_clk_delay < 2 ^ 4
  pub t_tx_clk_delay_lt : cfg.t_tx_clk_delay < 2 ^ 4
  pub address_mask_msb_lt : cfg.address_mask_msb < 2 ^ 5
  pub address_space_lt : cfg.address_space < 2 ^ 1
  pub phys_in_use_lt : cfg.phys_in_use < 2 ^ 1
  pub which_phy_lt : cfg.which_phy < 2 ^ 1
  pub t_csh_cycles_lt : cfg.t_csh_cycles < 2 ^ 4
  pub base_lt : (cfg.chip_base.0 < 2 ^ 32) × (cfg.chip_base.1 < 2 ^ 32)
  pub space_lt : (cfg.chip_space.0 < 2 ^ 32) × (cfg.chip_space.1 < 2 ^ 32)

word_lem : (n : ℕ) → u32 n % 2 ^ 32 ≡ u32 n
word_lem n = omega arith

-- A window's size comes back from its two ends, even if the end wraps.
window : (base space : ℕ) → base < 2 ^ 32 → space < 2 ^ 32 → sub32 (u32 (base + space)) base ≡ space
window base space base_lt space_lt = omega arith

-- A configuration whose values fit the registers' fields and that is written without a `NULL` pointer
-- reads back unchanged, windows that wrap around the address space included.
pub hyperram_cfg_read-write :
    (cfg : HyperramCfg) (regs : Regs)
    → IsHyperramCfg cfg
    → (hyperram_cfg_read (hyperram_cfg_write true true cfg regs).1 ≡ cfg)
      × ((hyperram_cfg_write true true cfg regs).0 ≡ 0)
unfolding hyperram_cfg_read hyperram_cfg_write chip_write base_write write32
hyperram_cfg_read-write cfg regs words = (
  rw
      (
        mod-eq_of_lt words.t_latency_access_lt,
        mod-eq_of_lt words.en_latency_additional_lt,
        mod-eq_of_lt words.t_burst_max_lt,
        mod-eq_of_lt words.t_read_write_recovery_lt,
        mod-eq_of_lt words.t_rx_clk_delay_lt,
        mod-eq_of_lt words.t_tx_clk_delay_lt,
        mod-eq_of_lt words.address_mask_msb_lt,
        mod-eq_of_lt words.address_space_lt,
        mod-eq_of_lt words.phys_in_use_lt,
        mod-eq_of_lt words.which_phy_lt,
        mod-eq_of_lt words.t_csh_cycles_lt,
        mod-eq_of_lt words.base_lt.0,
        mod-eq_of_lt words.base_lt.1,
        word_lem (cfg.chip_base.0 + cfg.chip_space.0),
        word_lem (cfg.chip_base.1 + cfg.chip_space.1),
        window cfg.chip_base.0 cfg.chip_space.0 words.base_lt.0 words.space_lt.0,
        window cfg.chip_base.1 cfg.chip_space.1 words.base_lt.1 words.space_lt.1,
      )
      refl,
  refl,
)

-- With the default configuration for a base and a size whose two windows end below 2 ^ 32, the first
-- chip's window starts at the base, the second one starts where the first ends, and each has the
-- size.
pub hyperram_cfg_default_lem :
    (base size : ℕ) (regs : Regs)
    → base + 2 * size < 2 ^ 32
    → let r = (hyperram_cfg_write true true (hyperram_cfg_default base size) regs).1 in
      (r (chip_start_offset 0) ≡ base)
      × (r (chip_end_offset 0) ≡ r (chip_start_offset 1))
      × (r (chip_start_offset 1) ≡ base + size)
      × (r (chip_end_offset 1) ≡ base + size + size)
unfolding hyperram_cfg_write hyperram_cfg_default chip_write base_write write32
hyperram_cfg_default_lem base size regs fits = (omega arith, omega arith, omega arith, omega arith)
