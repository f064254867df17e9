-- ===== src/Hyperbus/Tests.antt =====
-- The default configuration of a controller with two chips of 8 MiB, written and read.
use chimera_sdk.Base.{◌≡◌, arith, true}
use chimera_sdk.Mmio.{Regs}
use chimera_sdk.Hyperbus.{
  HyperramCfg, hyperram_cfg_write, hyperram_cfg_read, hyperram_cfg_default, IsHyperramCfg,
  hyperram_cfg_read-write,
}
use chimera_sdk.Hyperbus.Fields.{chip_start, chip_end, get, set, get-set}

abbrev reset_regs : Regs
reset_regs = λ a. 0

abbrev cfg : HyperramCfg
cfg = hyperram_cfg_default 0x80000000 0x800000

cfg-IsHyperramCfg : IsHyperramCfg cfg
unfolding hyperram_cfg_default
cfg-IsHyperramCfg = record {
  t_latency_access_lt = omega arith;
  en_latency_additional_lt = omega arith;
  t_burst_max_lt = omega arith;
  t_read_write_recovery_lt = omega arith;
  t_rx_clk_delay_lt = omega arith;
  t_tx_clk_delay_lt = omega arith;
  address_mask_msb_lt = omega arith;
  address_space_lt = omega arith;
  phys_in_use_lt = omega arith;
  which_phy_lt = omega arith;
  t_csh_cycles_lt = omega arith;
  base_lt = (omega arith, omega arith);
  space_lt = (omega arith, omega arith);
}

hyperram_cfg_read-write_example :
    (hyperram_cfg_read (hyperram_cfg_write true true cfg reset_regs).1 ≡ cfg)
    × ((hyperram_cfg_write true true cfg reset_regs).0 ≡ 0)
hyperram_cfg_read-write_example = hyperram_cfg_read-write cfg reset_regs cfg-IsHyperramCfg

-- The end of the second chip's window is set; its start keeps its value.
get-set_example :
    (get (chip_end 1) (set (chip_end 1) 0x81000000 reset_regs) ≡ 0x81000000)
    × (get (chip_start 1) (set (chip_end 1) 0x81000000 reset_regs) ≡ get (chip_start 1) reset_regs)
get-set_example =
    get-set (chip_end 1) (chip_start 1) 0x81000000 reset_regs (omega arith) (omega arith) (λ e. cc)
