-- ===== src/Mmio.antt =====
-- A file of memory-mapped registers, `reg32` of host/runtime/inc/util.h: a word at each address.
use chimera_sdk.Base.{ℕ, ◌≡◌, ◌≢◌, refl, arith, ◌==◌, if◌then◌else◌}

abbrev pub Regs : Type 0
Regs = ℕ → ℕ

-- `*reg32(base, offs) = val`; the read is `regs a`.
unfoldable pub write32 : ℕ → ℕ → Regs → Regs
write32 a v regs b = if b == a then v else regs b

pub write32_self : (a v : ℕ) (regs : Regs) → write32 a v regs a ≡ v
unfolding write32
write32_self a v regs = ground arith

pub write32_ne : (a b v : ℕ) (regs : Regs) → b ≢ a → write32 a v regs b ≡ regs b
unfolding write32
write32_ne a b v regs ne = ground arith

pub write32_iff : (a b v : ℕ) (regs : Regs) → write32 a v regs b ≡ (if b == a then v else regs b)
unfolding write32
write32_iff a b v regs = refl
