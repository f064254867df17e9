-- ===== src/Putc/Output.antt =====
-- What the host prints of the cores' messages, and where a core stores its characters.
use native.Mathlib.Nat.{le_refl}
use chimera_sdk.Base.{
  [], ◌∷◌, ℕ, ◌≤◌, ◌<◌, ◌%◌, ◌^◌, zero, suc, ◌≡◌, ◌++◌, refl, sym, ◌∙◌, false, arith,
}
use chimera_sdk.Putc.{
  to_host, to_host, prefix, putc_buffer_len, update, syscall_addr, data_addr, idle, cleared, took,
  System, message, put_char, put, Notify, to_device, Step, putc, acquire, post, ring, see, clear,
  release, poll, take, write, tell, retire, Reach, start, step, IsInitial,
}
use chimera_sdk.Putc.Phase.{outside}
use chimera_sdk.Putc.Stages.{lock-eq-zero, inside-cleared, owner, host_took}
use chimera_sdk.Putc.Moves.{owner_out}
use chimera_sdk.Putc.Keep.{Reach-IsPhase}

pub unlocked-output :
    {base : ℕ} {s t : System}
    → IsInitial s
    → Reach base to_device s t
    → t.lock ≡ 0
    → t.output ≡ t.spoken
unlocked-output z r unlocked =
    let (g, p) = Reach-IsPhase z r in
    let is_free = lock-eq-zero g (sym p.lock ∙ unlocked) in (rw is_free at p).output

-- With the host of test_host.c and from a state before the first character: two cores are never
-- between the acquisition and the release of the mutex together.
pub mutex-IsExclusive :
    {base : ℕ} {s t : System} (i j : ℕ)
    → IsInitial s
    → Reach base to_device s t
    → outside (t.pc i) ≡ false
    → outside (t.pc j) ≡ false
    → i ≡ j
mutex-IsExclusive {t} i j z r in_i in_j =
    let (g, p) = Reach-IsPhase z r in
    let (f, own, in_f) = owner g i (t.pc i) (p.cores i) in_i in
    let (f', own', in_f') = owner g j (t.pc j) (p.cores j) in_j in cc (own, own')

-- With the host of test_host.c and from a state before the first character: when a core has seen the
-- host's answer and cleared it, its whole message has been printed, behind the messages of the
-- flushes that have returned and with nothing after it.
pub flush-IsPrinted :
    {base : ℕ} {s t : System} (i : ℕ)
    → IsInitial s
    → Reach base to_device s t
    → t.pc i ≡ cleared
    → t.output ≡ t.spoken ++ message base t i
flush-IsPrinted {t} i z r at_i =
    let (g, p) = Reach-IsPhase z r in
    let (f, own, in_f) = owner g i (t.pc i) (p.cores i) (rw at_i refl) in
    (rw (own, inside-cleared f (rw at_i at in_f)) at p).output

-- With the host of test_host.c and from a state before the first character: the call that the host
-- serves is always a `sys_write` with the buffer and the length of a core in its flush, so the
-- branch for an unknown call is never taken.
pub served-IsWrite :
    {base : ℕ} {s t : System} (a : ℕ)
    → IsInitial s
    → Reach base to_device s t
    → t.host ≡ took a
    → (h : ℕ) × (a ≡ syscall_addr base h)
      × (t.header a ≡ record { number = 64; buf = data_addr base h; len = t.size h })
served-IsWrite {base} {s} {t} a z r at_h =
    let (g, p) = Reach-IsPhase z r in
    let (h, is_taken, addr) = host_took base g (sym p.host ∙ at_h) in
    (h, sym addr, rw (sym addr) (p.filled h (owner_out h (rw is_taken at p))))

put-within :
    (base : ℕ) (s : System) (i c : ℕ)
    → s.overrun ≡ false
    → s.size i < putc_buffer_len
    → (put base s i c).overrun ≡ false
put-within base s i c within lt = ground (arith, within, lt)

-- Nothing was stored behind a buffer, no buffer holds more characters than it has room for, and that of
-- a core outside a flush has room for one more.
pub record IsRoomy (s : System) : Type 0 where
  pub within : s.overrun ≡ false
  pub room : (i : ℕ) → (s.size i ≤ putc_buffer_len) × (s.pc i ≡ idle → s.size i < putc_buffer_len)

Step-IsRoomy : {base : ℕ} {way : Notify} {s t : System} → Step base way s t → IsRoomy s → IsRoomy t
Step-IsRoomy {base} {s} (putc i c at_i e) h = rw e (record {
  within = put-within base s i c h.within ((h.room i).1 at_i);
  room = λ j. ground (arith, (h.room i).1 at_i, h.room j);
})
Step-IsRoomy (acquire i at_i unlocked e) h =
    rw e (record { within = h.within; room = λ j. ground (arith, h.room j) })
Step-IsRoomy (post i at_i e) h =
    rw e (record { within = h.within; room = λ j. ground (arith, h.room j) })
Step-IsRoomy (ring i at_i e) h =
    rw e (record { within = h.within; room = λ j. ground (arith, h.room j) })
Step-IsRoomy (see i at_i set e) h =
    rw e (record { within = h.within; room = λ j. ground (arith, h.room j) })
Step-IsRoomy (clear i at_i e) h =
    rw e (record { within = h.within; room = λ j. ground (arith, h.room j) })
Step-IsRoomy (release i at_i e) h =
    rw e (record { within = h.within; room = λ j. ground (arith, h.room j) })
Step-IsRoomy (poll at_h may set e) h = rw e (record { within = h.within; room = λ j. h.room j })
Step-IsRoomy (take a at_h e) h = rw e (record { within = h.within; room = λ j. h.room j })
Step-IsRoomy (write a at_h e) h = rw e (record { within = h.within; room = λ j. h.room j })
Step-IsRoomy {way = to_device} (tell a at_h e) h =
    rw e (record { within = h.within; room = λ j. h.room j })
Step-IsRoomy {way = to_host} (tell a at_h e) h =
    rw e (record { within = h.within; room = λ j. h.room j })
Step-IsRoomy (retire e) h = rw e (record { within = h.within; room = λ j. h.room j })

-- With either host: no step stores a character behind a buffer, if there was room at the start.
pub Reach-IsRoomy :
    {base : ℕ} {way : Notify} {s t : System} → IsRoomy s → Reach base way s t → IsRoomy t
Reach-IsRoomy h start = h
Reach-IsRoomy h (step r st) = Step-IsRoomy st (Reach-IsRoomy h r)

-- With the host of test_host.c and from a state before the first character, with room in every buffer:
-- whenever the mutex is free, what the host has printed is the history of the flushes that have
-- returned: the message of each, as its core left it, whole, once and in the order of their returns;
-- and no core has ever stored a character behind its buffer.
pub output-eq-spoken :
    {base : ℕ} {s t : System}
    → IsInitial s
    → IsRoomy s
    → Reach base to_device s t
    → t.lock ≡ 0
    → (t.output ≡ t.spoken) × (t.overrun ≡ false)
output-eq-spoken z h r unlocked = (unlocked-output z r unlocked, (Reach-IsRoomy h r).within)

prefix-update : (f : ℕ → ℕ) (m n c : ℕ) → m ≤ n → prefix (update f n c) m ≡ prefix f m
unfolding prefix
prefix-update f zero n c h = refl
prefix-update f (suc m) n c h = rw (prefix-update f m n c (omega arith)) (ground arith)

-- A character stored below 2 ^ 32 - 1 becomes the last of its core's message.
message-put_char_self :
    (base : ℕ) (s : System) (i c : ℕ)
    → s.size i < putc_buffer_len
    → message base (put_char base s i c) i ≡ message base s i ++ (c ∷ [])
unfolding prefix
message-put_char_self base s i c h =
    let last : prefix (update (s.chars (data_addr base i)) (s.size i) c) (s.size i)
        ≡ prefix (s.chars (data_addr base i)) (s.size i) =
      prefix-update (s.chars (data_addr base i)) (s.size i) (s.size i) c (le_refl (s.size i)) in
    let small : suc (s.size i) % 2 ^ 32 ≡ suc (s.size i) = omega (arith, h) in
    ground (arith, last, small)
