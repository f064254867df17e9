-- ===== src/Trampoline/Tls.antt =====
-- The thread-local storage that `snrt_init` of devices/snitch_cluster/runtime/init.c sets up at the
-- thread pointer of the trampoline. Memory is taken by bytes here.
use chimera_sdk.Base.{
  ℕ, ◌+◌, ◌-◌, ◌^◌, ◌≤◌, ◌<◌, ◌≡◌, ◌⊎◌, inl, inr, refl, arith, true, false, ◌&&◌, leb, ltb, sub32,
  if◌then◌else◌,
}
use chimera_sdk.Trampoline.{Layout}
use chimera_sdk.Trampoline.Entry.{thread_pointer}

-- `memcpy` from a source apart from the target, and `memset`.
abbrev pub copy : (target source size : ℕ) → (ℕ → ℕ) → ℕ → ℕ
copy target source size mem a =
    if leb target a && ltb a (target + size) then mem (source + (a - target)) else mem a

abbrev pub fill : (target byte size : ℕ) → (ℕ → ℕ) → ℕ → ℕ
fill target byte size mem a = if leb target a && ltb a (target + size) then byte else mem a

abbrev pub size_tdata : Layout → ℕ
size_tdata l = sub32 l.tdata_end l.tdata_start

abbrev pub size_tbss : Layout → ℕ
size_tbss l = sub32 l.tbss_end l.tbss_start

-- The first part of `snrt_init`, with the thread pointer `tp`.
unfoldable pub init_tls : Layout → ℕ → (ℕ → ℕ) → ℕ → ℕ
init_tls l tp mem =
    let tbss_off = sub32 l.tbss_start l.tdata_start in
    fill (tp + tbss_off) 0 (size_tbss l) (copy tp l.tdata_start (size_tdata l) mem)

-- The sections in the order of the linker script, and a stack that has room for them.
pub record IsOrdered (l : Layout) (stack : ℕ) : Type 0 where
  pub tdata : l.tdata_start ≤ l.tdata_end
  pub between : l.tdata_end ≤ l.tbss_start
  pub tbss : l.tbss_start ≤ l.tbss_end
  pub words : l.tbss_end < 2 ^ 32
  pub room : (l.tdata_end - l.tdata_start) + (l.tbss_end - l.tbss_start) ≤ stack
  pub stack_word : stack < 2 ^ 32

thread_pointer_lem :
    (l : Layout) (stack : ℕ)
    → IsOrdered l stack
    → (thread_pointer l stack + (size_tdata l + size_tbss l) ≡ stack)
      × (size_tdata l ≡ l.tdata_end - l.tdata_start)
      × (size_tbss l ≡ l.tbss_end - l.tbss_start)
      × (sub32 l.tbss_start l.tdata_start ≡ size_tdata l + (l.tbss_start - l.tdata_end))
thread_pointer_lem l stack o =
    let data_is : size_tdata l ≡ l.tdata_end - l.tdata_start =
      omega (arith, o.tdata, o.between, o.tbss, o.words) in
    let bss_is : size_tbss l ≡ l.tbss_end - l.tbss_start =
      omega (arith, o.tdata, o.between, o.tbss, o.words) in
    let sum : sub32 (sub32 stack (l.tdata_end - l.tdata_start)) (l.tbss_end - l.tbss_start)
          + ((l.tdata_end - l.tdata_start) + (l.tbss_end - l.tbss_start))
        ≡ stack =
      omega (arith, o.room, o.stack_word) in
    (
      rw (data_is, bss_is) sum,
      data_is,
      bss_is,
      rw data_is (omega (arith, o.tdata, o.between, o.tbss, o.words)),
    )

-- The two steps for sections of `d` and `b` bytes with a gap of `g`.
module _ (tp source d g b : ℕ) (mem : ℕ → ℕ) where
  abbrev set_up : ℕ → ℕ
  set_up = fill (tp + (d + g)) 0 b (copy tp source d mem)

  copied : (i : ℕ) → i < d → set_up (tp + i) ≡ mem (source + i)
  copied i lt =
      let at : source + (tp + i - tp) ≡ source + i = omega arith in
      let not_yet : (leb (tp + (d + g)) (tp + i) && ltb (tp + i) (tp + (d + g) + b)) ≡ false =
        ground arith in
      let inside : (leb tp (tp + i) && ltb (tp + i) (tp + d)) ≡ true = ground arith in
      rw (not_yet, inside, at) refl

  zeroed : (a : ℕ) → tp + (d + g) ≤ a → a < tp + (d + g) + b → set_up a ≡ 0
  zeroed a from to = ground arith

  unchanged : (a : ℕ) → (a < tp) ⊎ (tp + (d + g) + b ≤ a) → set_up a ≡ mem a
  unchanged a out = ground arith

-- For sections in the order of the linker script and a stack with room for them, at the thread pointer
-- that the trampoline takes from the stack pointer: the initial data is copied to the thread pointer,
-- the bytes of the zeroed section, at its distance from the data, are 0, and a byte below the thread
-- pointer, or above the stack pointer by the gap between the two sections or more, is unchanged.
pub init_tls-initialises :
    (l : Layout) (stack : ℕ) (mem : ℕ → ℕ) (i j a : ℕ)
    → IsOrdered l stack
    → i < size_tdata l
    → j < size_tbss l
    → (a < thread_pointer l stack) ⊎ (stack + (l.tbss_start - l.tdata_end) ≤ a)
    → let tp = thread_pointer l stack in
      (init_tls l tp mem (tp + i) ≡ mem (l.tdata_start + i))
      × (init_tls l tp mem (tp + (l.tbss_start - l.tdata_start) + j) ≡ 0)
      × (init_tls l tp mem a ≡ mem a)
unfolding init_tls
init_tls-initialises l stack mem i j a o i_lt j_lt out =
    let (sum, data_is, bss_is, off) = thread_pointer_lem l stack o in
    let gap = l.tbss_start - l.tdata_end in
    let apart : l.tbss_start - l.tdata_start ≡ size_tdata l + (l.tbss_start - l.tdata_end) =
      rw data_is (omega (arith, o.tdata, o.between)) in
    rw (off, apart)
      (
        copied (thread_pointer l stack) l.tdata_start (size_tdata l) gap (size_tbss l) mem i i_lt,
        zeroed (thread_pointer l stack) l.tdata_start (size_tdata l) gap (size_tbss l) mem
            (thread_pointer l stack + (size_tdata l + gap) + j) (omega arith) (omega (arith, j_lt)),
        unchanged (thread_pointer l stack) l.tdata_start (size_tdata l) gap (size_tbss l) mem a
            (elim out [ inl below ↦ inl below | inr above ↦ inr (omega (arith, sum, above)) ]),
      )

-- For sections in the order of the linker script and a stack with room for them, at the thread pointer
-- that the trampoline takes from the stack pointer: a byte that lies above the stack pointer by less
-- than the gap between the two sections, and no further below the end of the gap than the length of
-- the zeroed section, becomes 0, although the core was given only what is below the stack pointer.
pub init_tls-overruns :
    (l : Layout) (stack : ℕ) (mem : ℕ → ℕ) (a : ℕ)
    → IsOrdered l stack
    → stack ≤ a
    → a < stack + (l.tbss_start - l.tdata_end)
    → stack + (l.tbss_start - l.tdata_end) ≤ a + size_tbss l
    → init_tls l (thread_pointer l stack) mem a ≡ 0
unfolding init_tls
init_tls-overruns l stack mem a o above below near =
    let (sum, data_is, bss_is, off) = thread_pointer_lem l stack o in
    let gap = l.tbss_start - l.tdata_end in
    rw off (
      zeroed (thread_pointer l stack) l.tdata_start (size_tdata l) gap (size_tbss l) mem a
        (omega (arith, sum, near)) (omega (arith, sum, below)))
