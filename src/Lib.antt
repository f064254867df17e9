-- ===== src/Lib.antt =====
-- The Chimera SDK: runtime and drivers for the host of a Chimera system-on-chip and its Snitch
-- clusters.
--
-- The host allocates memory in the memory island, measures and sets its clock, sleeps on the CLINT
-- timer, configures the HyperBus memory and the pads, and offloads functions to the clusters through
-- trampolines in shared memory and the SOC control registers. The cores of the clusters run what the
-- trampolines lead to, and print through shared memory with the help of the host, which prints on its
-- UART.
--
-- Base, Mmio: shared helpers. Numbers are natural numbers; the wrap of a machine word is written
--   out as `u32`, `u64` or `% modulus`. Mmio is `reg32` of host/runtime/inc/util.h.
-- Alloc: host/runtime/src/alloc.c and inc/alloc.h. `walk`, `after_walk` and `bump` are the loop and
--   the rest of `region_malloc`, `malloc` and `free` are memory_island_malloc and
--   memory_island_free. FirstFit is about the walk, Valid has the invariant, Malloc the branches of
--   the two operations, Client the steps of a client, Sound and History any sequence of steps,
--   Overflow requests near SIZE_MAX.
-- Clint: host/drivers/clint32/clint32.c and host/runtime/src/clint.c. The hardware counters are
--   functions of the number of bus accesses so far. Read is about clint_get_mtime, Order about the
--   comparison and the deadline, Spin about the waiting loops, Freq, Measure and Total about
--   clint_get_core_freq, Sleep about the compare registers, the sleep and the trap handler.
-- Clint64: host/drivers/clint64/clint64.c. Torn is about the reading by two words, Spin about the
--   waiting loops, Freq about the frequency, Equal about the 32-bit driver beside this one.
-- Offload: host/drivers/cluster/offload_snitchCluster.c with the cores and harts of chimera-open.
--   Stacks is about the stack pointers, Launch about the trampolines and the software interrupts,
--   Wait about the polling loops, Whole about an offload with its wait, Control about clock gates,
--   resets and the interrupt handler.
-- Trampoline: trampoline.c and trampoline.h of targets/chimera-open/devices/snitch_cluster, instruction
--   by instruction. Entry joins them to the offload: from the host's call to the function that a core
--   enters. Busy is about the busy registers, Convolve
--   about those of chimera-convolve, Tls about the thread-local storage that snrt_init of
--   devices/snitch_cluster/runtime/init.c sets up there.
-- Start: snrt_init and snrt_exit of devices/snitch_cluster/runtime/init.c over the thread-local storage
--   of Trampoline.Tls; the Snitch library is a record of parameters. Dma states what is relied on in
--   its DMA, Image in its allocator and in the linked image, Load is about snrt_init, Exit about snrt_exit beside the host's polling.
-- Putc: devices/snitch_cluster/runtime/putc.c with the host's loop of
--   tests/snitchCluster/snrt/src_host/test_host.c and that of the test runner. Phase has the invariant of
--   a call, Stages and Moves what one fact says of it and the steps through it, Keep all steps; Output is
--   about what is printed, Progress about the end of a call, Complete about any flush, Runner about the
--   test runner. A store behind a buffer sets `overrun`; from there on the separate arrays of the model
--   stand for no state of the program, and what is said of messages is said of runs without one.
-- Uart: host/drivers/uart_apb, host/hal/src/interface_api.c and the UART streams of
--   host/runtime/src/putc.c. Transfer is about the loops, Device about what the writes mean to a 16550,
--   Stream about characters and refused calls.
-- Log: the output of the host for every backend, host/runtime/src/putc.c, stdio.c and log.c; vfprintf of
--   the C library is a parameter. Message follows a text of printf_log to the UART.
-- Runner: test_cluster of targets/chimera-convolve/host/src/test.c. Supervise is about the loop with the
--   time limit, Outcome about the result, Rates about the 32-bit arithmetic, Clusters about the clocks
--   and resets of the clusters tested; in these, what the clusters and the timer show is a function of
--   the round. Layout is the offload driver with the cores and harts of chimera-convolve, Offloads the
--   loop over the clusters tested, Watch the supervision loop on the bus (Count, Verdict and Total),
--   Whole a run of the clusters from their set-up to their clock gates (Collect and Finish), Session the
--   whole function over the models of the clock switch and of that run (Choice, Ends, Turn, Bypassed and
--   Skips).
-- Fll: host/drivers/fll/fll.c and calculate_fll_params of host/runtime/src/fll.c. Clz and Params are
--   about the choice of multiplier and divider, TooHigh about targets beyond a word, Config about the
--   configuration register.
-- Switch: configure_fll and restore_default_freq of host/runtime/src/fll.c and host/runtime/src/uart.c,
--   over the models of the loops, the timer and the UART; OpenTitan's dif_gpio_write is a parameter with
--   its promises as hypotheses, which Tests fulfils with a board of 32 pins. Serial is about the UART
--   behind a measurement, Clock about the single branches, Outcome about whole calls, Bypass about the
--   pin during the writes, Total about termination, Pins about the pins behind the restored clock.
-- Hyperbus: host/drivers/hyperbus. Registers has the setters and getters of hyperbus.h, whose registers
--   keep as many low bits as their fields have, Fields is about them as one register file.
-- Padframe: padframe_gpio.c and padframe_hyperbus.c of targets/chimera-convolve/host/src. Laws states
--   what they rely on in OpenTitan's bitfield.h, which is not part of the repository; Digits has a
--   concrete instance; Gpio and Hyper are about the two drivers.
--
-- Fuel. The walk along the free list has one round for each block and one for its end. A reading of
-- the timer has two rounds, which suffice if the timer advances by less than 2 ^ 32 over six
-- accesses. The waiting loops have one round more than the accesses until the timer, the busy
-- register or the return register has changed; the loops of a measurement of the clock have one round
-- more than the accesses over which the timer gains the reference ticks. A status loop of the UART has as many rounds as the
-- device takes at most to become ready. The supervision loop of Supervise has two rounds more than pass
-- before the time limit; that of Watch, of which each round makes more than one access, has one round
-- more than the accesses until the timer passes the deadline.
--
-- Interrupts and the device change memory only through the counters and polled registers given as
-- functions; in Putc the cores and the host take turns at single accesses to shared memory, which is
-- sequentially consistent there. The mutex of the cores belongs to the Snitch library, which is not
-- part of the repository.
--
-- Not modelled: delay loops, traces and the formatting of texts, start code and
-- linker scripts, which are assembly or constants; the ITA library under third_party.
pub mod Base
pub mod Mmio
pub mod Alloc
pub mod Clint
pub mod Clint64
pub mod Offload
pub mod Fll
pub mod Hyperbus
pub mod Padframe
pub mod Putc
pub mod Uart
pub mod Trampoline
pub mod Runner
pub mod Switch
pub mod Start
pub mod Log
