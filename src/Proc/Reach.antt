-- ===== src/Proc/Reach.antt =====
-- The kernel as a step relation, and what holds in every state that it reaches from the start.
use osin32bits.Base.{
  lt→ltb, ℕ, ◌+◌, ◌<◌, ◌≡◌, refl, ◌≢◌, ◌⊎◌, inl, inr, ok, List, [], none, some, arith, leb,
  Bool-cases, ◌∙◌, subst, sym,
}
use osin32bits.Protect.{base_of}
use osin32bits.Proc.Types.{
  nr_tasks, nr_native_procs, nr_slots, any, interrupt, Message, Kernel, ldt_seg_linear,
}
use osin32bits.Proc.Ipc.{send, receive, sys_sendrec, inform_int}
use osin32bits.Proc.Waits.{waits}
use osin32bits.Proc.Inv.{Status, idle, unused, Inv, IsFlat}
use osin32bits.Proc.Interrupt.{clock_handler}
use osin32bits.Proc.Boot.{
  zero_ipc, started, kernel_main, kernel_main-ipc, kernel_main-priority, kernel_main-ldt_rw,
  kernel_main-p_proc_ready,
}
use osin32bits.Proc.System.{
  init_slot, WellFormed, IsFlat-same, msg_send-WellFormed, msg_receive-WellFormed,
}
use osin32bits.Proc.Syscall.{stamped, Calls, send-Sent, receive-Received, stamped-WellFormed}
use osin32bits.Mm.{Mm, Forked, do_fork}
use osin32bits.Proc.Forking.{CanFork, do_fork-child_entry, child_entry-WellFormed}
use osin32bits.Proc.Tick.{inform_int-WellFormed, clock_handler-WellFormed}

-- One step: a system call by the process that runs, a device interrupt, a clock tick, a fork or
-- what processes do outside the kernel. A step runs to its end before the next one starts: an
-- interrupt that comes within a system call or a handler is not a step, though kernel/kernel.asm
-- enables interrupts there. `Init` makes no call, since it only loops; a SEND goes to a process of
-- the table, and `do_fork` copies a process that waits and to whom nobody
-- sends.
pub data Step (s : Kernel) : Kernel → Type 0 where
  sends :
      {t : Kernel} (dest m : ℕ)
      → Calls s m
      → dest < nr_slots
      → s.p_proc_ready ≢ dest
      → sys_sendrec s send dest m s.p_proc_ready ≡ ok t
      → Step s t
  receives :
      {t : Kernel} (src m : ℕ)
      → Calls s m
      → ((src < nr_slots) ⊎ ((src ≡ any) ⊎ (src ≡ interrupt)))
      → s.p_proc_ready ≢ src
      → sys_sendrec s receive src m s.p_proc_ready ≡ ok t
      → Step s t
  informs : {t : Kernel} (task : ℕ) → task < nr_slots → inform_int s task ≡ ok t → Step s t
  ticks : {t : Kernel} → clock_handler s ≡ ok t → Step s t
  -- The task MM makes a child, for a process that waits for the answer.
  forks :
      (m : Mm) (pid : ℕ) (f : Forked)
      → m.kernel ≡ s
      → do_fork m pid ≡ ok (some f)
      → CanFork s pid f.child_pid
      → Step s f.mm.kernel
  -- Processes run outside the kernel: they write messages, and interrupt handlers set the flag
  -- of a pressed key and the depth of nested interrupts.
  runs :
      (mem : ℕ → Message) (key depth : ℕ)
      → Step s (record s { mem = mem; key_pressed = key; k_reenter = depth })

-- The states that follow the start of the kernel on the machine state `s₀`.
pub data Reach (s₀ : Kernel) : Kernel → Type 0 where
  booted : Reach s₀ (kernel_main s₀)
  next : {s t : Kernel} → Reach s₀ s → Step s t → Reach s₀ t

ok-injective : {s t : Kernel} → ok s ≡ ok t → s ≡ t
ok-injective e = cc

Step-WellFormed :
    {s t : Kernel} (q : ℕ → List ℕ)
    → Step s t
    → WellFormed s q
    → (q' : ℕ → List ℕ) × WellFormed t q'
Step-WellFormed {s} {t} q (sends dest m c h ne run) v =
    msg_send-WellFormed (stamped s m s.p_proc_ready) q (stamped-WellFormed s q v m c) dest m t
      (rw run at (send-Sent s q v m c dest h ne)) c.no_init h
Step-WellFormed {s} {t} q (receives src m c h ne run) v =
    msg_receive-WellFormed (stamped s m s.p_proc_ready) q (stamped-WellFormed s q v m c) src m t
      (rw run at (receive-Received s q v m c src h ne)) c.no_init
Step-WellFormed {s} {t} q (informs task h run) v =
    let (u, e, w) = inform_int-WellFormed s q task v h in
    (q, subst (λ k. WellFormed k q) (ok-injective (sym e ∙ run)) w)
Step-WellFormed {s} {t} q (ticks run) v =
    let (u, e, w) = clock_handler-WellFormed s q v in
    (q, subst (λ k. WellFormed k q) (ok-injective (sym e ∙ run)) w)
Step-WellFormed {s} q (forks m pid f e run can) v = (
  q,
  rw (do_fork-child_entry m pid f run)
      (child_entry-WellFormed m q (rw e v) pid f.child_pid f.child_base (rw e can)),
)
Step-WellFormed {s} q (runs mem key depth) v = (
  q,
  record {
    inv = v.inv;
    flat = IsFlat-same s (record s { mem = mem; key_pressed = key; k_reenter = depth }) refl v.flat;
    ready = v.ready;
    runs = v.runs;
    idler = v.idler;
    priority = v.priority;
    outside = v.outside;
  },
)

-- The machine before `kernel_main`: the kernel's data segment starts at 0, and the memory before the
-- process table does not look like a process that is sending.
pub record IsMachine (s : Kernel) : Type 0 where
  pub flat : base_of s.kernel_ds ≡ 0
  pub outside : waits s.ipc interrupt ≡ none

abbrev pub no_queues : ℕ → List ℕ
no_queues d = []

module _ (s : Kernel) (h : IsMachine s) where
  slot_ipc : (j : ℕ) → j < nr_slots → (kernel_main s).ipc j ≡ started j zero_ipc
  slot_ipc j g = rw (kernel_main-ipc s j, lt→ltb j nr_slots g)

  started-Status : (j : ℕ) → Status (started j zero_ipc)
  started-Status j = elim (Bool-cases (leb (nr_tasks + nr_native_procs) j)) [
    | inl e ↦ rw e (unused refl)
    | inr e ↦ rw e (idle (record { flags = refl; msg = refl; recvfrom = refl; sendto = refl }))
  ]

  nobody_waits : (p : ℕ) → p < nr_slots → waits (kernel_main s).ipc p ≡ none
  nobody_waits p g = ground (arith, slot_ipc p g)

  pub kernel_main-Inv : Inv (kernel_main s).ipc no_queues
  kernel_main-Inv = record {
    queues = record {
      chain = λ d g. rw (slot_ipc d g) (ground arith);
      distinct = λ d g. tt;
      below = λ d g. tt;
      apart = λ d e p g i a b. cc;
    };
    status = λ p g. rw (slot_ipc p g) (started-Status p);
    member = λ d p g i. cc;
    queued = λ p d g e. cc (nobody_waits p g);
    trail = λ p g. ([], nobody_waits p g);
  }

  pub kernel_main-IsFlat : IsFlat (kernel_main s)
  unfolding ldt_seg_linear
  kernel_main-IsFlat p g =
      rw (kernel_main-ldt_rw s p (lt→ltb p (nr_tasks + nr_native_procs) g)) h.flat

  pub kernel_main-WellFormed : WellFormed (kernel_main s) no_queues
  kernel_main-WellFormed = record {
    inv = kernel_main-Inv;
    flat = kernel_main-IsFlat;
    ready = rw (kernel_main-p_proc_ready s) (omega arith);
    runs = rw (kernel_main-p_proc_ready s, slot_ipc 0 (omega arith));
    idler = rw (slot_ipc init_slot (omega arith));
    priority = rw (kernel_main-priority s init_slot refl) (omega arith);
    outside = rw (kernel_main-ipc s interrupt) h.outside;
  }

-- On a machine whose kernel data segment starts at 0, and whose memory before the process table
-- does not look like a sending process, every state that follows the start of the kernel by steps
-- that each run to their end without an interrupt within them is well formed for some queues. The
-- steps are SEND to another process of the table and RECEIVE from one, ANY or INTERRUPT, by any
-- process but `Init`, device interrupts, clock ticks, a `do_fork` for a process that waits for a
-- message while nobody sends to it or to the slot of the child, and writes of messages outside the
-- kernel; SEND to ANY or INTERRUPT and other forks are left out. Well formed is: each sending
-- process stands in exactly one queue, that of its destination, no process waits for itself through
-- others, every process is idle, sending, receiving or unused with the fields that go with it, and
-- the process that is chosen can run.
pub Reach-WellFormed :
    {s₀ s : Kernel} → IsMachine s₀ → Reach s₀ s → (q : ℕ → List ℕ) × WellFormed s q
Reach-WellFormed {s₀} h booted = (no_queues, kernel_main-WellFormed s₀ h)
Reach-WellFormed h (next r st) = let (q, v) = Reach-WellFormed h r in Step-WellFormed q st v
