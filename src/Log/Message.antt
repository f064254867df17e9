-- ===== src/Log/Message.antt =====
-- A message of `printf_log` on its way to the UART or the simulator.
use mathlib.Core.List.{append-nil, append_assoc}
use chimera_sdk.Base.{
  ℕ, ◌≤◌, ◌≡◌, ◌≢◌, ◌∙◌, refl, sym, ap, true, false, some, List, [], ◌∷◌, ◌++◌, length,
}
use chimera_sdk.Uart.{tx_ready, tx_empty, asic}
use chimera_sdk.Uart.Transfer.{IsReadyWithin}
use chimera_sdk.Uart.Device.{Device, apply_all, latched}
use chimera_sdk.Uart.Stream.{uart_putc-transmits}
use chimera_sdk.Log.{
  Console, Run, Build, on_bus, console_putc, Stream, stdout, Vfprintf, tag, printf_log,
}

-- The stream takes the characters of a text one after the other, each with success.
pub data Takes (put : ℕ → Console → Run) : List ℕ → Console → Console → Type 0 where
  nothing : (s : Console) → Takes put [] s s
  one_more :
      {c : ℕ} {cs : List ℕ} {s t u : Console}
      → put c s ≡ some (c, t)
      → Takes put cs t u
      → Takes put (c ∷ cs) s u

-- What is relied on in `vfprintf`: where the stream takes the text, it is handed over in order and once,
-- and its length returned.
abbrev pub IsVfprintf : Vfprintf → Type 0
IsVfprintf vfprintf =
    (f : Stream) (text : List ℕ) (s t : Console)
    → Takes f.put text s t
    → vfprintf f text s ≡ some (length text, t)

-- The device with more bytes transmitted.
abbrev pub with_sent : Device → List ℕ → Device
with_sent d sent = record d { transmitted = d.transmitted ++ sent }

-- An ASIC with the driver and a UART port with an address.
pub record IsAsic (b : Build) : Type 0 where
  pub backend_at : b.backend ≡ asic
  pub driver : b.driver_uart ≡ true
  pub address : b.default_uart_inst.base ≢ 0

console_putc-transmits :
    (b : Build) (k fuel : ℕ) (d : Device) (c : ℕ) (s : Console)
    → IsAsic b
    → IsReadyWithin tx_ready b.line k
    → IsReadyWithin tx_empty b.line k
    → k ≤ fuel
    → latched (apply_all d s.bus.writes) ≡ false
    → (t : Console) × (console_putc b fuel c s ≡ some (c, t))
      × (apply_all d t.bus.writes ≡ with_sent (apply_all d s.bus.writes) (c ∷ []))
unfolding console_putc
console_putc-transmits b k fuel d c s build ready empty le closed =
    let (bus, written, sent, _) =
      uart_putc-transmits b.line k fuel d b.default_uart_inst c s.bus ready empty le build.address
        closed in
    (
      record s { bus = bus },
      rw (build.backend_at, build.driver, console_putc, written, on_bus) refl,
      sent,
    )

sent_more :
    (d e : Device) (c : ℕ) (cs : List ℕ) {x : Device}
    → e ≡ with_sent d (c ∷ [])
    → x ≡ with_sent e cs
    → x ≡ with_sent d (c ∷ cs)
sent_more d e c cs first rest =
    rest
    ∙ rw first
        (ap (λ bytes. record d { transmitted = bytes }) (append_assoc d.transmitted (c ∷ []) cs))

-- A text goes through the stream to the UART.
text-transmits :
    (b : Build) (k fuel : ℕ) (d : Device) (text : List ℕ) (s : Console)
    → IsAsic b
    → IsReadyWithin tx_ready b.line k
    → IsReadyWithin tx_empty b.line k
    → k ≤ fuel
    → latched (apply_all d s.bus.writes) ≡ false
    → (t : Console) × Takes (console_putc b fuel) text s t
      × (apply_all d t.bus.writes ≡ with_sent (apply_all d s.bus.writes) text)
text-transmits b k fuel d [] s build ready empty le closed = (
  s,
  nothing s,
  ap (λ bytes. record (apply_all d s.bus.writes) { transmitted = bytes })
      (sym (append-nil (apply_all d s.bus.writes).transmitted)),
)
text-transmits b k fuel d (c ∷ cs) s build ready empty le closed =
    let (t, taken, sent) = console_putc-transmits b k fuel d c s build ready empty le closed in
    let still : latched (apply_all d t.bus.writes) ≡ false = rw sent closed in
    let (u, rest, more) = text-transmits b k fuel d cs t build ready empty le still in
    (
      u,
      one_more taken rest,
      sent_more (apply_all d s.bus.writes) (apply_all d t.bus.writes) c cs sent more,
    )

sent_both :
    (d e : Device) (xs ys : List ℕ) {x : Device}
    → e ≡ with_sent d xs
    → x ≡ with_sent e ys
    → x ≡ with_sent d (xs ++ ys)
sent_both d e xs ys first rest =
    rest
    ∙ rw first (ap (λ bytes. record d { transmitted = bytes }) (append_assoc d.transmitted xs ys))

-- On an ASIC with the UART driver, with a C library whose `vfprintf` hands over each character once and
-- in order, a port with an address, a transmitter that becomes ready and empty within `k` status
-- reads whenever it is asked, and a device with a closed divisor latch: `printf_log` returns, and the
-- device has transmitted the tag and then the text, behind what it had transmitted before and with
-- nothing else changed. The result is the length of the text, without the tag.
pub printf_log-transmits :
    (vfprintf : Vfprintf) (b : Build) (k fuel : ℕ) (d : Device) (text : List ℕ) (s : Console)
    → IsVfprintf vfprintf
    → IsAsic b
    → IsReadyWithin tx_ready b.line k
    → IsReadyWithin tx_empty b.line k
    → k ≤ fuel
    → latched (apply_all d s.bus.writes) ≡ false
    → (t : Console) × (printf_log vfprintf b fuel text s ≡ some (length text, t))
      × (apply_all d t.bus.writes ≡ with_sent (apply_all d s.bus.writes) (tag ++ text))
unfolding printf_log
printf_log-transmits vfprintf b k fuel d text s good build ready empty le closed =
    let (t, first, sent) = text-transmits b k fuel d tag s build ready empty le closed in
    let still : latched (apply_all d t.bus.writes) ≡ false = rw sent closed in
    let (u, rest, more) = text-transmits b k fuel d text t build ready empty le still in
    (
      u,
      rw (good (stdout b fuel) tag s t first, printf_log) (good (stdout b fuel) text t u rest),
      sent_both (apply_all d s.bus.writes) (apply_all d t.bus.writes) tag text sent more,
    )
