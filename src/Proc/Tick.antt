-- ===== src/Proc/Tick.antt =====
-- kernel/clock.c: the clock interrupt keeps the invariant.
use osin32bits.Base.{
  ℕ, ◌<◌, ◌≡◌, refl, inl, inr, not, ok, List, arith, ◌==◌, ltb, if◌then◌else◌, Bool-cases, subst,
  sym,
}
use osin32bits.Proc.Types.{nr_slots, Kernel, set_ipc}
use osin32bits.Proc.Schedule.{schedule}
use osin32bits.Proc.Schedule.Choice.{Chosen, schedule-Chosen, Chosen-ipc}
use osin32bits.Proc.Ipc.{inform_int}
use osin32bits.Proc.Interrupt.{
  clock_handler, count_tick, task_tty, informed, informed_mem, inform_int-informed,
}
use osin32bits.Proc.System.{
  init_slot, WellFormed, IsFlat-same, Chosen-WellFormed, set_ipc-WellFormed,
}

count_tick-WellFormed : (s : Kernel) (q : ℕ → List ℕ) → WellFormed s q → WellFormed (count_tick s) q
unfolding count_tick
count_tick-WellFormed s q v = record {
  inv = v.inv;
  flat = IsFlat-same s (count_tick s) refl v.flat;
  ready = v.ready;
  runs = v.runs;
  idler = v.idler;
  priority = ground (arith, v.priority);
  outside = v.outside;
}

-- An interrupt handler that informs a task.
pub inform_int-WellFormed :
    (s : Kernel) (q : ℕ → List ℕ) (task : ℕ)
    → WellFormed s q
    → task < nr_slots
    → (t : Kernel) × (inform_int s task ≡ ok t) × WellFormed t q
inform_int-WellFormed s q task v h =
    let (e, inv) = inform_int-informed s q task v.inv h in
    (
      set_ipc (record s { mem = informed_mem s task }) task (informed (s.ipc task)),
      e,
      set_ipc-WellFormed s q v q (informed_mem s task) task (informed (s.ipc task)) _ refl inv h
          (λ run. ground arith),
    )

schedule-WellFormed :
    (s : Kernel) (q : ℕ → List ℕ)
    → WellFormed s q
    → (t : Kernel) × (schedule 2 s ≡ ok t) × WellFormed t q
schedule-WellFormed s q v =
    let (t, e, c) = schedule-Chosen s init_slot (omega arith) v.idler v.priority in
    let ipc : t.ipc ≡ s.ipc = Chosen-ipc c in
    let c' = subst (λ g. Chosen (record s { ipc = g }) t) (sym ipc) c in
    (t, e, Chosen-WellFormed s q v q t c' (rw ipc v.inv) (rw ipc v.idler) (rw ipc v.outside))

-- The part of `clock_handler` that wakes the terminal.
wake_tty-WellFormed :
    (s : Kernel) (q : ℕ → List ℕ)
    → WellFormed s q
    → (t : Kernel) × ((if s.key_pressed == 0 then ok s else inform_int s task_tty) ≡ ok t)
      × WellFormed t q
wake_tty-WellFormed s q v = elim (Bool-cases (s.key_pressed == 0)) [
  | inl e ↦ (s, rw e, v)
  | inr e ↦
      let (t, run, w) = inform_int-WellFormed s q task_tty v (omega arith) in (t, rw (e, run), w)
]

-- From every well-formed state `clock_handler` returns, to a state that is well formed for the same
-- queues.
pub clock_handler-WellFormed :
    (s : Kernel) (q : ℕ → List ℕ)
    → WellFormed s q
    → (t : Kernel) × (clock_handler s ≡ ok t) × WellFormed t q
unfolding clock_handler
clock_handler-WellFormed s q v =
    let (t, e, w) = wake_tty-WellFormed (count_tick s) q (count_tick-WellFormed s q v) in
    elim (Bool-cases (not (t.k_reenter == 0))) [
      | inl nested ↦ (t, rw (e, nested), w)
      | inr outer ↦ elim (Bool-cases (ltb 0 (t.sched t.p_proc_ready).ticks)) [
        | inl more ↦ (t, rw (e, outer, more), w)
        | inr spent ↦
            let (u, run, x) = schedule-WellFormed t q w in (u, rw (e, outer, spent, run), x)
      ]
    ]
