-- ===== src/Putc/Progress.antt =====
-- A flush that has the mutex can always be finished, by steps of its core and of the host.
use chimera_sdk.Base.{◌∙◌, ℕ, ◌≡◌, ◌≢◌, ◌++◌, refl, true, false, List, arith}
use chimera_sdk.Putc.{
  update, Pc, idle, want, holding, posted, waiting, woken, cleared, System, message, Notify,
  to_device, Step, post, ring, see, clear, release, poll, take, write, tell, Reach, start, step,
  IsInitial,
}
use chimera_sdk.Putc.Phase.{
  Part, hold, call, seen, taken, shown, told, done, busy, IsPhase, inside, outside,
}
use chimera_sdk.Putc.Stages.{owner, inside-eq-holding, shown_told}
use chimera_sdk.Putc.Moves.{
  post-IsPhase, ring-IsPhase, see-IsPhase, clear-IsPhase, poll-IsPhase, take-IsPhase, write-IsPhase,
  tell-IsPhase,
}
use chimera_sdk.Putc.Keep.{Reach-IsPhase}

pub before :
    {base : ℕ} {way : Notify} {s t u : System}
    → Step base way s t
    → Reach base way t u
    → Reach base way s u
before st start = step start st
before st (step r last) = step (before st r) last

pub update_ne {ℓ} : {A : Type ℓ} (f : ℕ → A) (h : ℕ) (a : A) (j : ℕ) → j ≢ h → update f h a j ≡ f j
update_ne f h a j ne = ground arith

-- The other cores' places and buffers and the busy register are the same in both states.
pub record IsApart (h : ℕ) (s u : System) : Type 0 where
  pub pcs : (j : ℕ) → j ≢ h → u.pc j ≡ s.pc j
  pub sizes : (j : ℕ) → j ≢ h → u.size j ≡ s.size j
  pub chars : u.chars ≡ s.chars
  pub runs : u.running ≡ s.running

-- From `s`, the mutex comes free with the output `m`, by steps of core `h` and the host.
abbrev pub Ends : ℕ → ℕ → List ℕ → System → Type 0
Ends base h m s =
    (u : System) × Reach base to_device s u
    × (u.lock ≡ 0)
    × (u.output ≡ m)
    × (u.pc h ≡ idle)
    × IsApart h s u

IsApart-trans : {h : ℕ} {s t u : System} → IsApart h s t → IsApart h t u → IsApart h s u
IsApart-trans a b = record {
  pcs = λ j ne. b.pcs j ne ∙ a.pcs j ne;
  sizes = λ j ne. b.sizes j ne ∙ a.sizes j ne;
  chars = b.chars ∙ a.chars;
  runs = b.runs ∙ a.runs;
}

module _ {base : ℕ} where
  pub then :
      {h : ℕ} {m : List ℕ} {s t : System}
      → Step base to_device s t
      → IsApart h s t
      → Ends base h m t
      → Ends base h m s
  then st apart (u, r, unlocked, out, home, rest) =
      (u, before st r, unlocked, out, home, IsApart-trans apart rest)

  from_done :
      (h : ℕ) (s : System) (at : Pc)
      → IsPhase base (busy h done) s
      → s.pc h ≡ at
      → inside done at ≡ true
      → Ends base h (s.spoken ++ message base s h) s
  from_done h s cleared p at_h e = (
    _,
    step start (release h at_h refl),
    refl,
    p.output,
    ground arith,
    record { pcs = update_ne s.pc h idle; sizes = update_ne s.size h 0; chars = refl; runs = refl },
  )
  from_done h s idle p at_h e = cc
  from_done h s want p at_h e = cc
  from_done h s holding p at_h e = cc
  from_done h s posted p at_h e = cc
  from_done h s waiting p at_h e = cc
  from_done h s woken p at_h e = cc

  at_cleared :
      (h : ℕ) (s : System)
      → IsPhase base (busy h done) s
      → s.pc h ≡ cleared
      → Ends base h (s.spoken ++ message base s h) s
  at_cleared h s p at_h = from_done h s cleared p at_h refl

  at_woken :
      (h : ℕ) (s : System)
      → IsPhase base (busy h told) s
      → s.pc h ≡ woken
      → Ends base h (s.spoken ++ message base s h) s
  at_woken h s p at_h =
      then (clear h at_h refl)
        (record { pcs = update_ne s.pc h cleared; sizes = λ j ne. refl; chars = refl; runs = refl })
        (at_cleared h _ (clear-IsPhase h p at_h) (ground arith))

  at_waiting :
      (h : ℕ) (s : System)
      → IsPhase base (busy h told) s
      → s.pc h ≡ waiting
      → Ends base h (s.spoken ++ message base s h) s
  at_waiting h s p at_h =
      let set : s.host_to_device ≢ 0 = λ z. omega (arith, p.answer, z) in
      then (see h at_h set refl)
        (record { pcs = update_ne s.pc h woken; sizes = λ j ne. refl; chars = refl; runs = refl })
        (at_woken h _ (see-IsPhase h p at_h) (ground arith))

  at_posted :
      (h : ℕ) (s : System)
      → IsPhase base (busy h told) s
      → s.pc h ≡ posted
      → Ends base h (s.spoken ++ message base s h) s
  at_posted h s p at_h =
      then (ring h at_h refl)
        (record { pcs = update_ne s.pc h waiting; sizes = λ j ne. refl; chars = refl; runs = refl })
        (at_waiting h _ (ring-IsPhase h told p at_h refl) (ground arith))

  from_told :
      (h : ℕ) (s : System) (at : Pc)
      → IsPhase base (busy h told) s
      → s.pc h ≡ at
      → inside told at ≡ true
      → Ends base h (s.spoken ++ message base s h) s
  from_told h s posted p at_h e = at_posted h s p at_h
  from_told h s waiting p at_h e = at_waiting h s p at_h
  from_told h s woken p at_h e = at_woken h s p at_h
  from_told h s idle p at_h e = cc
  from_told h s want p at_h e = cc
  from_told h s holding p at_h e = cc
  from_told h s cleared p at_h e = cc

  from_shown :
      (h : ℕ) (s : System)
      → IsPhase base (busy h shown) s
      → Ends base h (s.spoken ++ message base s h) s
  from_shown h s p =
      let q = tell-IsPhase h p in
      then (tell _ p.host refl)
        (record { pcs = λ j ne. refl; sizes = λ j ne. refl; chars = refl; runs = refl })
        (from_told h _ (s.pc h) q refl (shown_told (s.pc h) (ground (arith, p.cores h))))

  from_taken :
      (h : ℕ) (s : System)
      → IsPhase base (busy h taken) s
      → Ends base h (s.spoken ++ message base s h) s
  from_taken h s p =
      then (write _ p.host refl)
        (record { pcs = λ j ne. refl; sizes = λ j ne. refl; chars = refl; runs = refl })
        (from_shown h _ (write-IsPhase h p))

  from_seen :
      (h : ℕ) (s : System)
      → IsPhase base (busy h seen) s
      → Ends base h (s.spoken ++ message base s h) s
  from_seen h s p =
      then (take _ p.host refl)
        (record { pcs = λ j ne. refl; sizes = λ j ne. refl; chars = refl; runs = refl })
        (from_taken h _ (take-IsPhase h p))

  from_call :
      (h : ℕ) (s : System)
      → s.running ≡ true
      → IsPhase base (busy h call) s
      → Ends base h (s.spoken ++ message base s h) s
  from_call h s on p =
      let set : s.device_to_host ≢ 0 = λ z. omega (arith, p.call, z) in
      then (poll p.host on set refl)
        (record { pcs = λ j ne. refl; sizes = λ j ne. refl; chars = refl; runs = refl })
        (from_seen h _ (poll-IsPhase h p))

  from_hold :
      (h : ℕ) (s : System)
      → s.running ≡ true
      → IsPhase base (busy h hold) s
      → s.pc h ≡ holding
      → Ends base h (s.spoken ++ message base s h) s
  from_hold h s on p at_h =
      then (post h at_h refl)
        (record { pcs = update_ne s.pc h posted; sizes = λ j ne. refl; chars = refl; runs = refl })
        (from_call h _ on (post-IsPhase h p at_h))

  pub from_busy :
      (h : ℕ) (f : Part) (s : System)
      → s.running ≡ true
      → IsPhase base (busy h f) s
      → inside f (s.pc h) ≡ true
      → Ends base h (s.spoken ++ message base s h) s
  from_busy h hold s on p e = from_hold h s on p (inside-eq-holding (s.pc h) e)
  from_busy h call s on p e = from_call h s on p
  from_busy h seen s on p e = from_seen h s p
  from_busy h taken s on p e = from_taken h s p
  from_busy h shown s on p e = from_shown h s p
  from_busy h told s on p e = from_told h s (s.pc h) p refl e
  from_busy h done s on p e = from_done h s (s.pc h) p refl e

-- A core that holds the mutex can end its call.
pub flush-ends :
    {base : ℕ} {s t : System} (i : ℕ)
    → IsInitial s
    → Reach base to_device s t
    → t.running ≡ true
    → outside (t.pc i) ≡ false
    → Ends base i (t.spoken ++ message base t i) t
flush-ends {t} i z r on in_i =
    let (g, p) = Reach-IsPhase z r in
    let (f, own, in_f) = owner g i (t.pc i) (p.cores i) in_i in
    from_busy i f t on (rw own at p) in_f
