-- ===== src/Proc/Interrupt.antt =====
-- kernel/proc.c `inform_int`, and kernel/clock.c.
use osin32bits.Base.{
  ℕ, ◌+◌, ◌-◌, ◌<◌, ◌≡◌, refl, inl, inr, Bool, not, ◌&&◌, ◌||◌, ok, Run, ◌>>=◌, List, arith, ◌==◌,
  ltb, leb, if◌then◌else◌, has_flag, update, Bool-cases,
}
use osin32bits.Proc.Types.{
  nr_slots, sending, receiving, any, interrupt, hard_int, Message, Ipc, Kernel, set_ipc,
}
use osin32bits.Proc.Schedule.{schedule}
use osin32bits.Proc.Ipc.{inform_int}
use osin32bits.Proc.Inv.{Status, idle, is_sending, is_receiving, unused, Inv, Inv-SameLinks}
use osin32bits.Proc.Blocking.{served}

abbrev pub max_ticks : ℕ
max_ticks = 0x7FFFABCD

abbrev pub task_tty : ℕ
task_tty = 0

-- The counters that `clock_handler` moves first.
unfoldable pub count_tick : Kernel → Kernel
count_tick s =
    let r = s.sched s.p_proc_ready in
    record s {
      ticks = (if leb max_ticks (s.ticks + 1) then 0 else s.ticks + 1);
      sched =
          (if r.ticks == 0
            then s.sched
            else update s.sched s.p_proc_ready (record r { ticks = r.ticks - 1 }));
    }

unfoldable pub clock_handler : Kernel → Run Kernel
clock_handler s = do
  let s' = count_tick s
  t ← (if s'.key_pressed == 0 then ok s' else inform_int s' task_tty)
  if not (t.k_reenter == 0)
      then ok t
      else (if ltb 0 (t.sched t.p_proc_ready).ticks then ok t else schedule 2 t)

-- Whether the process waits for an interrupt.
abbrev pub awaits_int : Ipc → Bool
awaits_int p = has_flag p.p_flags receiving && (p.p_recvfrom == interrupt || p.p_recvfrom == any)

-- What `inform_int` does to the process: it wakes up, or finds the interrupt pending later.
abbrev pub informed : Ipc → Ipc
informed p =
    if awaits_int p then record (served p) { has_int_msg = 0 } else record p { has_int_msg = 1 }

-- The messages after `inform_int`.
abbrev pub informed_mem : Kernel → ℕ → ℕ → Message
informed_mem s task =
    let p = s.ipc task in
    if awaits_int p
    then update s.mem p.p_msg (record (s.mem p.p_msg) { source = interrupt; type = hard_int })
    else s.mem

informed-Status : {r : Ipc} → Status r → Status (informed r)
informed-Status (idle i) = idle (ground arith)
informed-Status (is_sending i) = is_sending (ground arith)
informed-Status {r} (is_receiving i) = elim (Bool-cases (awaits_int r)) [
  | inl e ↦ rw e (idle (record { flags = refl; msg = refl; recvfrom = refl; sendto = i.sendto }))
  | inr e ↦ rw e (
      is_receiving
        (record { flags = i.flags; msg = i.msg; recvfrom = i.recvfrom; sendto = i.sendto }))
]
informed-Status (unused e) = unused (ground arith)

-- Who waits to send stays so.
informed-sending :
    {r : Ipc} → Status r → has_flag (informed r).p_flags sending ≡ has_flag r.p_flags sending
informed-sending (idle i) = ground arith
informed-sending (is_sending i) = ground arith
informed-sending (is_receiving i) = ground arith
informed-sending (unused e) = ground arith

informed-Inv :
    (f : ℕ → Ipc) (q : ℕ → List ℕ) (task : ℕ)
    → Inv f q
    → task < nr_slots
    → Inv (update f task (informed (f task))) q
informed-Inv f q task v h =
    Inv-SameLinks (record { next = λ p. ground arith; first = λ p. ground arith })
      (λ p. ground (arith, informed-sending (v.status task h))) status v
  where
    status : (p : ℕ) → p < nr_slots → Status (update f task (informed (f task)) p)
    status p g = elim (Bool-cases (p == task)) [
      | inl e ↦ rw e (informed-Status (v.status task h))
      | inr e ↦ rw e (v.status p g)
    ]

-- Under the invariant `inform_int` for a process of the table returns: it wakes the process if it
-- waits for an interrupt or for any message, and otherwise leaves the interrupt pending; no other
-- process changes, and the invariant holds for the same queues.
pub inform_int-informed :
    (s : Kernel) (q : ℕ → List ℕ) (task : ℕ)
    → Inv s.ipc q
    → task < nr_slots
    → (inform_int s task
        ≡ ok (set_ipc (record s { mem = informed_mem s task }) task (informed (s.ipc task))))
      × Inv (update s.ipc task (informed (s.ipc task))) q
unfolding inform_int
inform_int-informed s q task v h = (runs (v.status task h), informed-Inv s.ipc q task v h)
  where
    runs :
        Status (s.ipc task)
        → inform_int s task
          ≡ ok (set_ipc (record s { mem = informed_mem s task }) task (informed (s.ipc task)))
    runs (idle i) = ground arith
    runs (is_sending i) = ground arith
    runs (is_receiving i) = ground arith
    runs (unused e) = ground arith
