-- ===== src/Proc/System.antt =====
-- The kernel as a system of steps: what holds in every state that it reaches from the start.
use osin32bits.Base.{ℕ, ◌<◌, ◌≡◌, refl, ◌≢◌, true, ok, List, none, arith, update, subst, sym, ap}
use osin32bits.Proc.Types.{nr_slots, interrupt, Message, Ipc, Kernel, set_ipc, ldt_seg_linear}
use osin32bits.Proc.Schedule.{runnable}
use osin32bits.Proc.Schedule.Choice.{Chosen, Chosen-ldt_rw}
use osin32bits.Proc.Waits.{waits}
use osin32bits.Proc.Queues.{snoc_at}
use osin32bits.Proc.Dequeue.{erase_at}
use osin32bits.Proc.Inv.{Idle, Status, idle, is_sending, is_receiving, unused, Inv, IsFlat}
use osin32bits.Proc.Blocking.{Awake}
use osin32bits.Proc.Send.{Sent, delivered, appended}
use osin32bits.Proc.Receive.{Received, interrupted, taken, waiting}

-- The slot of `Init`, which loops for ever and makes no system call.
abbrev pub init_slot : ℕ
init_slot = 7

pub record WellFormed (s : Kernel) (q : ℕ → List ℕ) : Type 0 where
  pub inv : Inv s.ipc q
  pub flat : IsFlat s
  pub ready : s.p_proc_ready < nr_slots
  pub runs : runnable (s.ipc s.p_proc_ready) ≡ true
  pub idler : runnable (s.ipc init_slot) ≡ true
  pub priority : 0 < (s.sched init_slot).priority
  pub outside : waits s.ipc interrupt ≡ none

runnable-Idle : {r : Ipc} → Status r → runnable r ≡ true → Idle r
runnable-Idle (idle i) h = i
runnable-Idle (is_sending i) h = absurd (ground arith)
runnable-Idle (is_receiving i) h = absurd (ground arith)
runnable-Idle (unused e) h = absurd (ground arith)

pub IsFlat-same : (s t : Kernel) → t.ldt_rw ≡ s.ldt_rw → IsFlat s → IsFlat t
unfolding ldt_seg_linear
IsFlat-same s t e flat p h = rw e (flat p h)

module _ (s : Kernel) (q : ℕ → List ℕ) (v : WellFormed s q) where
  pub awake : s.p_proc_ready ≢ init_slot → Awake s s.p_proc_ready
  awake ne = record {
    other = init_slot;
    slot = omega arith;
    apart = ground arith;
    runs = v.idler;
    priority = v.priority;
  }

  pub caller-Idle : Idle (s.ipc s.p_proc_ready)
  caller-Idle = runnable-Idle (v.inv.status s.p_proc_ready v.ready) v.runs

  -- A new choice of the scheduler keeps the rest.
  pub Chosen-WellFormed :
      (q' : ℕ → List ℕ) (t : Kernel)
      → Chosen (record s { ipc = t.ipc }) t
      → Inv t.ipc q'
      → runnable (t.ipc init_slot) ≡ true
      → waits t.ipc interrupt ≡ none
      → WellFormed t q'
  Chosen-WellFormed q' t c inv idler outside = record {
    inv = inv;
    flat = IsFlat-same s t (Chosen-ldt_rw c) v.flat;
    ready = c.slot;
    runs = c.runs;
    idler = idler;
    priority = omega (arith, c.priorities init_slot, v.priority);
    outside = outside;
  }

  -- So does a change of tables and messages alone that stops nobody.
  frame-WellFormed :
      (q' : ℕ → List ℕ) (t : Kernel)
      → t ≡ record s { ipc = t.ipc; mem = t.mem }
      → Inv t.ipc q'
      → ((p : ℕ) → p < nr_slots → runnable (s.ipc p) ≡ true → runnable (t.ipc p) ≡ true)
      → waits t.ipc interrupt ≡ none
      → WellFormed t q'
  frame-WellFormed q' t e inv keeps outside =
      let ready : t.p_proc_ready ≡ s.p_proc_ready = ap (λ (k : Kernel). k.p_proc_ready) e in
      let sched : t.sched ≡ s.sched = ap (λ (k : Kernel). k.sched) e in
      record {
        inv = inv;
        flat = IsFlat-same s t (ap (λ (k : Kernel). k.ldt_rw) e) v.flat;
        ready = rw ready v.ready;
        runs = rw ready (keeps s.p_proc_ready v.ready v.runs);
        idler = keeps init_slot (omega arith) v.idler;
        priority = rw sched v.priority;
        outside = outside;
      }

  -- The change is a write to one process of the table, and to messages.
  pub set_ipc-WellFormed :
      (q' : ℕ → List ℕ) (mem : ℕ → Message) (p : ℕ) (r : Ipc) (t : Kernel)
      → t ≡ set_ipc (record s { mem = mem }) p r
      → Inv t.ipc q'
      → p < nr_slots
      → (runnable (s.ipc p) ≡ true → runnable r ≡ true)
      → WellFormed t q'
  set_ipc-WellFormed q' mem p r t e inv h keeps =
      frame-WellFormed q' t
        (subst (λ (k : Kernel). k ≡ record s { ipc = k.ipc; mem = k.mem }) (sym e) refl) inv
        (λ j hj run. rw ipc (still j run)) (rw ipc out)
    where
      ipc : t.ipc ≡ update s.ipc p r
      ipc = ap (λ (k : Kernel). k.ipc) e

      still : (j : ℕ) → runnable (s.ipc j) ≡ true → runnable (update s.ipc p r j) ≡ true
      still j run = ground (arith, keeps)

      out : waits (update s.ipc p r) interrupt ≡ none
      out = ground (arith, v.outside)

  pub msg_send-WellFormed :
      (dest m : ℕ) (t : Kernel)
      → Sent s q s.p_proc_ready dest m (ok t)
      → s.p_proc_ready ≢ init_slot
      → dest < nr_slots
      → (q' : ℕ → List ℕ) × WellFormed t q'
  msg_send-WellFormed dest m t (delivered a t' e inv) ne hd =
      (q, set_ipc-WellFormed q _ dest _ t e inv hd (λ _. refl))
  msg_send-WellFormed dest m t (appended a t' same c inv) ne hd = (
    snoc_at q dest s.p_proc_ready,
    Chosen-WellFormed (snoc_at q dest s.p_proc_ready) t c inv
        (ground (arith, v.idler, same.flags init_slot))
        (ground (arith, v.outside, v.ready, same.flags interrupt)),
  )

  pub msg_receive-WellFormed :
      (src m : ℕ) (t : Kernel)
      → Received s q s.p_proc_ready src m (ok t)
      → s.p_proc_ready ≢ init_slot
      → (q' : ℕ → List ℕ) × WellFormed t q'
  msg_receive-WellFormed src m t (interrupted a t' e inv) ne =
      (q, set_ipc-WellFormed q _ s.p_proc_ready _ t e inv v.ready (λ run. run))
  msg_receive-WellFormed src m t (taken a from sv t' frame same mem inv) ne = (
    erase_at q s.p_proc_ready from,
    frame-WellFormed (erase_at q s.p_proc_ready from) t frame inv
        (λ p h run. ground (arith, same.flags p)) (ground (arith, v.outside, same.flags interrupt)),
  )
  msg_receive-WellFormed src m t (waiting qt nobody t' e c inv) ne = (
    q,
    Chosen-WellFormed q t c inv (rw e (ground (arith, v.idler)))
        (rw e (ground (arith, v.outside, v.ready))),
  )
