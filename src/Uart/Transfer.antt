-- ===== src/Uart/Transfer.antt =====
-- The loops of the UART driver: they end, and every byte is moved once, when the device is ready.
use native.Mathlib.Nat.{add-zero}
use mathlib.Core.List.{append-nil, append_assoc}
use mathlib.Core.Path.{subst}
use mathlib.Core.Option.{some_inj}
use chimera_sdk.Base.{
  ℕ, zero, suc, ◌+◌, ◌*◌, ◌≤◌, ◌<◌, ◌≡◌, ◌≢◌, ◌∙◌, refl, sym, ap, arith, ◌⊎◌, Bool, Option-cases,
  true, Bool-cases, inl, inr, none, some, List, [], ◌∷◌, ◌++◌, map, ◌==◌, ==-ne, if◌then◌else◌,
}
use chimera_sdk.Uart.{
  with_port, Port, Line, Write, Bus, reg8_write, rx_ready, tx_ready, poll, poll_then, Io, receive,
  send,
}

-- A port with an address is not refused.
pub with_port-some :
    {A : Type 0} (fail : A) (p : Port) (b : Bus) (op : Port → Bus → Io A)
    → p.base ≢ 0
    → with_port fail (some p) b op ≡ op p b
with_port-some fail p b op ne = rw (==-ne p.base 0 ne, with_port) refl

-- The device becomes ready within `k` reads of the status, whenever it is asked.
abbrev pub IsReadyWithin : (ℕ → Bool) → Line → ℕ → Type 0
IsReadyWithin test l k = (n : ℕ) → (j : ℕ) × (j < k) × (test (l.status (n + j)) ≡ true)

-- A poll that ends at access `n`, after a read that passed the test.
abbrev pub IsAsked : (ℕ → Bool) → Line → ℕ → ℕ → ℕ → Type 0
IsAsked test l k n m = (j : ℕ) × (m ≡ suc j) × (n ≤ j) × (j < n + k) × (test (l.status j) ≡ true)

pub poll-total :
    (test : ℕ → Bool) (l : Line) (fuel n j : ℕ)
    → j < fuel
    → test (l.status (n + j)) ≡ true
    → (m : ℕ) × (poll test l fuel n ≡ some m) × IsAsked test l (suc j) n m
unfolding poll
poll-total test l zero n j lt ready = absurd (omega arith)
poll-total test l (suc fuel) n zero lt ready =
    let now : test (l.status n) ≡ true = rw add-zero at ready in
    (suc n, rw (now, poll) refl, (n, refl, omega arith, omega arith, now))
poll-total test l (suc fuel) n (suc j) lt ready = elim (Bool-cases (test (l.status n))) [
  | inl now ↦ (suc n, rw (now, poll) refl, (n, refl, omega arith, omega arith, now))
  | inr later ↦
      let shift : n + suc j ≡ suc n + j = omega arith in
      let (m, e, (i, at, after, before, set)) =
        poll-total test l fuel (suc n) j (omega arith) (rw shift at ready) in
      (m, rw (later, poll) e, (i, at, omega (arith, after), omega (arith, before), set))
]

-- A status loop ends with enough rounds, and what follows goes on from there.
pub poll_then-total :
    {A : Type 0} (test : ℕ → Bool) (l : Line) (k fuel : ℕ) (b : Bus) (go : Bus → Io A)
    → IsReadyWithin test l k
    → k ≤ fuel
    → (m : ℕ) × (poll_then test l fuel b go ≡ go (record b { count = m }))
      × IsAsked test l k b.count m
poll_then-total test l k fuel b go ready le =
    let (j, lt, now) = ready b.count in
    let (m, e, asked) = poll-total test l fuel b.count j (omega (arith, lt, le)) now in
    let (i, at, after, before, set) = asked in
    (m, rw (e, poll_then) refl, (i, at, after, omega (arith, before, lt), set))

-- The writes of a transfer: each to the holding register, right after a status read that found it
-- empty.
abbrev pub IsPaced : Line → List Write → Type 0
IsPaced l [] = Unit {0}
IsPaced l (w ∷ ws) =
    (w.offset ≡ 0) × ((j : ℕ) × (w.time ≡ suc j) × (tx_ready (l.status j) ≡ true)) × IsPaced l ws

-- The bytes from index `i` on.
abbrev pub bytes : (ℕ → ℕ) → ℕ → ℕ → List ℕ
bytes src zero i = []
bytes src (suc todo) i = src i ∷ bytes src todo (suc i)

abbrev pub byte_of : Write → ℕ
byte_of w = w.byte

-- If the holding register comes empty within `k` status reads whenever it is asked, the loop of
-- `uart_apb_write` ends: it writes the bytes in order, once each, to the holding register, each right
-- after a status read that found it empty, in at most `k + 1` accesses a byte.
pub send-total :
    (l : Line) (k fuel todo i : ℕ) (src : ℕ → ℕ) (b : Bus)
    → IsReadyWithin tx_ready l k
    → k ≤ fuel
    → (b' : Bus) × (ws : List Write) × (send l fuel todo i src b ≡ some (tt, b'))
      × (b'.writes ≡ b.writes ++ ws)
      × (map byte_of ws ≡ bytes src todo i)
      × IsPaced l ws
      × (b'.count ≤ b.count + (k + 1) * todo)
unfolding send
send-total l k fuel zero i src b ready le =
    (b, [], refl, sym (append-nil b.writes), refl, tt, omega arith)
send-total l k fuel (suc todo) i src b ready le =
    let go : Bus → Io (Unit {0}) = λ b. send l fuel todo (suc i) src (reg8_write 0 (src i) b) in
    let (m, e, (j, at, after, before, set)) = poll_then-total tx_ready l k fuel b go ready le in
    let w : Write = record { time = m; offset = 0; byte = src i } in
    let next : Bus = reg8_write 0 (src i) (record b { count = m }) in
    let (b', ws, sent, log, content, paced, within) =
      send-total l k fuel todo (suc i) src next ready le in
    (
      b',
      w ∷ ws,
      e ∙ sent,
      log ∙ append_assoc b.writes (w ∷ []) ws,
      ap (λ xs. src i ∷ xs) content,
      (refl, (j, at, set), paced),
      omega (arith, within, at, before),
    )

-- What a receiving loop leaves in the buffer: from index `i` on, each byte from the receiver buffer
-- right after a status read that found it filled.
abbrev pub IsReceived : Line → (ℕ → ℕ) → (todo i n : ℕ) → Type 0
IsReceived l dst zero i n = Unit {0}
IsReceived l dst (suc todo) i n =
    (t : ℕ) × (n ≤ t)
    × (rx_ready (l.status t) ≡ true)
    × (dst i ≡ l.received (t + 1))
    × IsReceived l dst todo (suc i) (t + 2)

receive_round :
    (l : Line) (fuel todo i : ℕ) (dst : ℕ → ℕ) (b : Bus) {m : ℕ}
    → poll rx_ready l fuel b.count ≡ some m
    → receive l fuel (suc todo) i dst b
      ≡ receive l fuel todo
          (suc i)
          (λ j. if j == i then l.received m else dst j)
          (record b { count = suc m })
unfolding receive
receive_round l fuel todo i dst b e = rw (e, poll_then) refl

receive_stuck :
    (l : Line) (fuel todo i : ℕ) (dst : ℕ → ℕ) (b : Bus)
    → poll rx_ready l fuel b.count ≡ none
    → receive l fuel (suc todo) i dst b ≡ none
unfolding receive
receive_stuck l fuel todo i dst b e = rw (e, poll_then) refl

-- If the loop of `uart_apb_read` ends: nothing before the index it starts at and nothing behind the
-- last byte has changed, and nothing has been written to the device.
pub receive-kept :
    (l : Line) (fuel todo i : ℕ) (dst : ℕ → ℕ) (b : Bus) {dst' : ℕ → ℕ} {b' : Bus} (j : ℕ)
    → receive l fuel todo i dst b ≡ some (dst', b')
    → (j < i) ⊎ (i + todo ≤ j)
    → (dst' j ≡ dst j) × (b'.writes ≡ b.writes)
unfolding receive
receive-kept l fuel zero i dst b {dst'} {b'} j e out =
    let same : (dst, b) ≡ (dst', b') = some_inj.0 e in
    (sym (ap (λ r. r.0 j) same), sym (ap (λ r. r.1.writes) same))
receive-kept l fuel (suc todo) i dst b j e out =
    elim (Option-cases (poll rx_ready l fuel b.count)) [
      | inl stuck ↦ absurd (cc (receive_stuck l fuel todo i dst b stuck, e))
      | inr (m, ends) ↦
          let rest =
            receive-kept l fuel todo (suc i) _ _ j
              (sym (receive_round l fuel todo i dst b ends) ∙ e) (further i todo j out) in
          (rest.0 ∙ ground (arith, out), rest.1)
    ]
  where
    further : (i todo j : ℕ) → (j < i) ⊎ (i + suc todo ≤ j) → (j < suc i) ⊎ (suc i + todo ≤ j)
    further i todo j (inl before) = inl (omega (arith, before))
    further i todo j (inr behind) = inr (omega (arith, behind))

-- If a byte arrives within `k` status reads whenever it is asked for, the loop of `uart_apb_read`
-- ends, with `k` rounds for each byte, and the buffer holds the bytes in the order in which they
-- were taken, each taken once and right after a status read that announced it.
pub receive-total :
    (l : Line) (k fuel todo i : ℕ) (dst : ℕ → ℕ) (b : Bus)
    → IsReadyWithin rx_ready l k
    → k ≤ fuel
    → (dst' : ℕ → ℕ) × (b' : Bus) × (receive l fuel todo i dst b ≡ some (dst', b'))
      × IsReceived l dst' todo i b.count
unfolding receive
receive-total l k fuel zero i dst b ready le = (dst, b, refl, tt)
receive-total l k fuel (suc todo) i dst b ready le =
    let put : ℕ → ℕ → ℕ = λ m j. if j == i then l.received m else dst j in
    let go : Bus → Io (ℕ → ℕ) =
      λ b. receive l fuel todo (suc i) (put b.count) (record b { count = suc b.count }) in
    let (m, e, (t, at, after, before, set)) = poll_then-total rx_ready l k fuel b go ready le in
    let next : Bus = record b { count = suc m } in
    let (dst', b', got, taken) = receive-total l k fuel todo (suc i) (put m) next ready le in
    let kept = receive-kept l fuel todo (suc i) (put m) next i got (inl (omega arith)) in
    let put_here : put m i ≡ l.received m = ground arith in
    let when : m ≡ t + 1 = omega (arith, at) in
    let after_m : suc m ≡ t + 2 = omega (arith, at) in
    (
      dst',
      b',
      e ∙ got,
      (
        t,
        after,
        set,
        kept.0 ∙ put_here ∙ ap l.received when,
        subst (λ c. IsReceived l dst' todo (suc i) c) after_m taken,
      ),
    )
