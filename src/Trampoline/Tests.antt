-- ===== src/Trampoline/Tests.antt =====
-- The last core of the second cluster on a layout like that of the linker script.
use chimera_sdk.Base.{
  ◌+◌, ◌-◌, ◌*◌, ◌/◌, ◌≡◌, refl, true, false, arith, u32, some, ltb, if◌then◌else◌,
}
use chimera_sdk.Offload.{Soc}
use chimera_sdk.Offload.Whole.{offload_cluster}
use chimera_sdk.Trampoline.{Core, Layout, exec_all, trampoline, sp, tp, a0}
use chimera_sdk.Trampoline.Entry.{IsShared, offload-enters}
use chimera_sdk.Trampoline.Tls.{IsOrdered, init_tls, init_tls-overruns}

abbrev layout : Layout
layout = record {
  global_pointer = 0x30000800;
  shared_data = 0x48000000;
  off_stack = 384;
  off_func = 24;
  off_args = 204;
  tdata_start = 0x30002000;
  tdata_end = 0x30002010;
  tbss_start = 0x30002010;
  tbss_end = 0x30002030;
}

abbrev soc : Soc
soc = record {
  regs = λ a. 0;
  function = λ i. 0x30000100 + i;
  args = λ i. 7;
  stack = λ i. 0x10020000;
}

-- The memory of a core: the three arrays at their places.
abbrev view : Soc → Core
view s = record {
  mhartid = 18;
  pc = 0;
  x = λ r. 0;
  mem = λ a.
      if ltb a (0x48000000 + 204)
      then s.function ((a - (0x48000000 + 24)) / 4)
      else if ltb a (0x48000000 + 384)
      then s.args ((a - (0x48000000 + 204)) / 4)
      else s.stack ((a - (0x48000000 + 384)) / 4);
}

view-IsShared : (s : Soc) → IsShared layout s (view s)
view-IsShared s = record {
  function_at = λ i lt.
      let at : u32 (0x48000000 + 24 + 4 * i) ≡ 0x48000000 + 24 + 4 * i = omega arith in
      let idx : (0x48000000 + 24 + 4 * i - (0x48000000 + 24)) / 4 ≡ i = omega arith in
      let below : ltb (0x48000000 + 24 + 4 * i) (0x48000000 + 204) ≡ true = ground arith in
      rw (at, below, idx) refl;
  args_at = λ i lt.
      let at : u32 (0x48000000 + 204 + 4 * i) ≡ 0x48000000 + 204 + 4 * i = omega arith in
      let idx : (0x48000000 + 204 + 4 * i - (0x48000000 + 204)) / 4 ≡ i = omega arith in
      let above : ltb (0x48000000 + 204 + 4 * i) (0x48000000 + 204) ≡ false = ground arith in
      let below : ltb (0x48000000 + 204 + 4 * i) (0x48000000 + 384) ≡ true = ground arith in
      rw (at, above, below, idx) refl;
  stack_at = λ i lt.
      let at : u32 (0x48000000 + 384 + 4 * i) ≡ 0x48000000 + 384 + 4 * i = omega arith in
      let idx : (0x48000000 + 384 + 4 * i - (0x48000000 + 384)) / 4 ≡ i = omega arith in
      let above : ltb (0x48000000 + 384 + 4 * i) (0x48000000 + 204) ≡ false = ground arith in
      let over : ltb (0x48000000 + 384 + 4 * i) (0x48000000 + 384) ≡ false = ground arith in
      rw (at, above, over, idx) refl;
}

offload-enters_example :
    (t : Soc) × (offload_cluster 1 0x30000100 0x30000000 7 (λ i. 0x10020000) 1 (λ i. 0) 0 soc
      ≡ some t)
    × ((exec_all (trampoline layout) (view t)).pc ≡ 0x30000100)
    × ((exec_all (trampoline layout) (view t)).x a0 ≡ 7)
    × ((exec_all (trampoline layout) (view t)).x tp ≡ 0x1001FFD0)
    × ((exec_all (trampoline layout) (view t)).x sp ≡ 0x1001FFD0)
offload-enters_example =
    offload-enters 0 0x30000100 0x30000000 7 (λ i. 0x10020000) 1 8 (λ i. 0) 0 soc layout view
      (omega arith) (omega arith) (λ i lt. absurd (omega (arith, lt))) (λ e. omega (arith, e))
      view-IsShared (λ t. refl) refl

-- A layout with 256 bytes of other data between the two sections.
abbrev gapped : Layout
gapped = record layout { tbss_start = 0x30002110; tbss_end = 0x30002130 }

layout-IsOrdered : IsOrdered layout 0x10020000
layout-IsOrdered = record {
  tdata = omega arith;
  between = omega arith;
  tbss = omega arith;
  words = omega arith;
  room = omega arith;
  stack_word = omega arith;
}

gapped-IsOrdered : IsOrdered gapped 0x10020000
gapped-IsOrdered = record {
  tdata = omega arith;
  between = omega arith;
  tbss = omega arith;
  words = omega arith;
  room = omega arith;
  stack_word = omega arith;
}

init_tls-overruns_example : init_tls gapped 0x1001FFD0 (λ a. a) 0x100200F0 ≡ 0
init_tls-overruns_example =
    init_tls-overruns gapped 0x10020000 (λ a. a) 0x100200F0 gapped-IsOrdered (omega arith)
      (omega arith) (omega arith)
