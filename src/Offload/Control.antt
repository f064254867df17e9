-- ===== src/Offload/Control.antt =====
-- Clock gates and resets: the writes to all clusters.
use chimera_sdk.Base.{
  ℕ, ◌+◌, ◌*◌, ◌/◌, ◌%◌, ◌^◌, some, ◌≡◌, refl, arith, ltb, leb, ◌==◌, ◌&&◌, if◌then◌else◌,
}
use chimera_sdk.Mmio.{Regs, write32}
use chimera_sdk.Offload.{
  soc_ctrl_base, return_reg, Soc, setup_interrupt_handler, set_clock_gating, set_reset,
  set_all_clock_gating, set_all_reset,
}

-- The register at `b` after a write of `enable` to the low bytes of the five words from `first` on.
abbrev pub enabled : ℕ → ℕ → Regs → ℕ → ℕ
enabled first enable regs b =
    if leb first b && ltb b (first + 20) && b % 4 == 0 then regs b / 256 * 256 + enable else regs b

-- `setAll_snitchCluster_clockGating` is the five single calls in turn: it writes the low bytes of
-- the clusters' gate registers and changes nothing else.
pub set_all_clock_gating_lem :
    (enable : ℕ) (regs : Regs) (b : ℕ)
    → (set_all_clock_gating enable regs b ≡ enabled (soc_ctrl_base + 0x34) enable regs b)
      × (set_all_clock_gating enable regs b
          ≡ set_clock_gating 4 enable
              (set_clock_gating 3 enable (
                set_clock_gating 2 enable
                  (set_clock_gating 1 enable (set_clock_gating 0 enable regs))))
              b)
unfolding set_all_clock_gating set_clock_gating write32
set_all_clock_gating_lem enable regs b = (ground arith, refl)

-- `setAll_snitchCluster_reset` is the five single calls in turn: it writes the low bytes of the
-- clusters' reset registers and changes nothing else.
pub set_all_reset_lem :
    (enable : ℕ) (regs : Regs) (b : ℕ)
    → (set_all_reset enable regs b ≡ enabled (soc_ctrl_base + 0x20) enable regs b)
      × (set_all_reset enable regs b
          ≡ set_reset 4 enable
              (set_reset 3 enable
                (set_reset 2 enable (set_reset 1 enable (set_reset 0 enable regs))))
              b)
unfolding set_all_reset set_reset write32
set_all_reset_lem enable regs b = (ground arith, refl)

-- `setup_snitchCluster_interruptHandler` stores a pointer of 64 bits: the handler register gets its
-- low word, and the return register of cluster 0 behind it is overwritten by its high word.
pub setup_interrupt_handler_lem :
    (handler : ℕ) (soc : Soc)
    → let t = setup_interrupt_handler handler soc in
      (t.regs (soc_ctrl_base + 0x8) ≡ handler % 2 ^ 32)
      × (return_reg 0 ≡ some (soc_ctrl_base + 0xc))
      × (t.regs (soc_ctrl_base + 0xc) ≡ handler / 2 ^ 32)
unfolding setup_interrupt_handler write32
setup_interrupt_handler_lem handler soc = (refl, refl, refl)
