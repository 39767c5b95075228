-- ===== src/Proc/Schedule.antt =====
-- kernel/proc.c: `schedule`.
pub mod Choice
use osin32bits.Base.{
  ℕ, zero, suc, ◌+◌, Bool, ◌&&◌, Run, ok, fault, out_of_fuel, ◌==◌, ltb, update, if◌then◌else◌,
}
use osin32bits.Proc.Types.{nr_slots, Ipc, Sched, Kernel}

abbrev pub runnable : Ipc → Bool
runnable r = r.p_flags == 0

-- The first `for`: (greatest_ticks, p_proc_ready) after the slots `i`, `i + 1`, … of `n`.
unfoldable pub pick : (ipc : ℕ → Ipc) (sched : ℕ → Sched) → (n i : ℕ) → ℕ × ℕ → ℕ × ℕ
pick ipc sched zero i best = best
pick ipc sched (suc n) i (greatest, ready) = pick ipc sched n (i + 1) (
    if runnable (ipc i) && ltb greatest (sched i).ticks
    then ((sched i).ticks, i)
    else (greatest, ready))

-- The second `for`: every runnable process gets its priority as ticks.
unfoldable pub refill : (ipc : ℕ → Ipc) → (n i : ℕ) → (ℕ → Sched) → ℕ → Sched
refill ipc zero i sched = sched
refill ipc (suc n) i sched = refill ipc n (i + 1) (
    if runnable (ipc i)
    then update sched i (record (sched i) { ticks = (sched i).priority })
    else sched)

-- `while (!greatest_ticks)`, on fuel, when no interrupt handler changes the table meanwhile.
unfoldable pub schedule : ℕ → Kernel → Run Kernel
schedule zero s = fault out_of_fuel
schedule (suc fuel) s =
    let best = pick s.ipc s.sched nr_slots 0 (0, s.p_proc_ready) in
    let again =
      schedule fuel (record s { sched = refill s.ipc nr_slots 0 s.sched; p_proc_ready = best.1 }) in
    if best.0 == 0 then again else ok (record s { p_proc_ready = best.1 })
