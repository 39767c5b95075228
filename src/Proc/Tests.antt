-- ===== src/Proc/Tests.antt =====
-- Runs of the kernel on a machine whose memory is zero.
use osin32bits.Base.{Option, none, some, ℕ, ◌≡◌, refl, inl, inr, ok, Run, fault, List, arith}
use osin32bits.Proc.Types.{any, reset_msg, Kernel, va2la, ldt_seg_linear}
use osin32bits.Proc.Schedule.{schedule, pick, refill}
use osin32bits.Proc.Schedule.Choice.{Chosen, schedule-Chosen}
use osin32bits.Proc.Ipc.{
  send, receive, sys_sendrec, msg_send, msg_receive, block, deadlock, deadlock_loop, deliver,
  receive_any, wait_message,
}
use osin32bits.Proc.Interrupt.{clock_handler, count_tick}
use osin32bits.Proc.Send.{Sent, msg_send-Sent}
use osin32bits.Proc.Receive.{Received, msg_receive-Received}
use osin32bits.Proc.Boot.{
  zero_ipc, zero_sched, zero_descriptor, kernel_main, clear_procs, init_procs,
}
use osin32bits.Proc.System.{init_slot, WellFormed, caller-Idle, awake}
use osin32bits.Proc.Syscall.{stamped, Calls, send-Sent, receive-Received}
use osin32bits.Proc.Tick.{clock_handler-WellFormed}
use osin32bits.Proc.Forking.{CanFork}
use osin32bits.Mm.{Mm, Forked, do_fork, find_free, alloc_mem, child_entry}
use osin32bits.Proc.Reach.{
  Reach, forks, sends, receives, ticks, booted, next, IsMachine, no_queues, kernel_main-WellFormed,
  Reach-WellFormed,
}

abbrev machine : Kernel
machine = record {
  ipc = λ _. zero_ipc;
  sched = λ _. zero_sched;
  ldt_rw = λ _. zero_descriptor;
  kernel_ds = record zero_descriptor { attr1 = 0x93 };
  mem = λ _. reset_msg;
  p_proc_ready = 0;
  ticks = 0;
  k_reenter = 0;
  key_pressed = 0;
}

machine-IsMachine : IsMachine machine
machine-IsMachine = record { flat = refl; outside = refl }

abbrev run_or : Kernel → Run Kernel → Kernel
run_or s (ok t) = t
run_or s (fault e) = s

abbrev start : Kernel
start = kernel_main machine

start-WellFormed : WellFormed start no_queues
start-WellFormed = kernel_main-WellFormed machine machine-IsMachine

start-Calls : Calls start 100
unfolding kernel_main
start-Calls = record { no_init = omega arith; buffer = omega arith; from_user = refl }

send-Sent_example :
    Sent
      (stamped start 100 start.p_proc_ready)
      no_queues
      start.p_proc_ready
      3
      100
      (sys_sendrec start send 3 100 start.p_proc_ready)
unfolding kernel_main
send-Sent_example =
    send-Sent start no_queues start-WellFormed 100 start-Calls 3 (omega arith) (omega arith)

receive-Received_example :
    Received
      (stamped start 100 start.p_proc_ready)
      no_queues
      start.p_proc_ready
      any
      100
      (sys_sendrec start receive any 100 start.p_proc_ready)
unfolding kernel_main
receive-Received_example =
    receive-Received start no_queues start-WellFormed 100 start-Calls any (inr (inl refl))
      (omega arith)

-- The terminal waits for a message, the next process sends it one, and a clock tick comes.
abbrev after_receive : Kernel
after_receive = run_or start (sys_sendrec start receive any 100 0)

abbrev after_send : Kernel
after_send = run_or after_receive (sys_sendrec after_receive send 0 200 1)

abbrev after_tick : Kernel
after_tick = run_or after_send (clock_handler after_send)

Reach-WellFormed_example : (q : ℕ → List ℕ) × WellFormed after_tick q
unfolding kernel_main init_procs clear_procs sys_sendrec msg_receive receive_any wait_message block
    schedule pick refill msg_send deadlock deadlock_loop deliver clock_handler count_tick va2la
    ldt_seg_linear
Reach-WellFormed_example = Reach-WellFormed machine-IsMachine (
    next {s = after_send}
      (next {s = after_receive}
        (next {s = start} booted (receives any 100 start-Calls (inr (inl refl)) (omega arith) refl))
        (sends 0 200 (record { no_init = omega arith; buffer = omega arith; from_user = refl })
          (omega arith) (omega arith) refl))
      (ticks refl))

msg_send-Sent_example : Sent start no_queues 0 3 100 (msg_send start 0 3 100)
unfolding kernel_main
msg_send-Sent_example =
    msg_send-Sent start no_queues 0 3 100 start-WellFormed.inv start-WellFormed.flat (omega arith)
      (omega arith) (omega arith) (caller-Idle start no_queues start-WellFormed) (omega arith)
      (awake start no_queues start-WellFormed (omega arith))

msg_receive-Received_example : Received start no_queues 0 any 100 (msg_receive start 0 any 100)
unfolding kernel_main
msg_receive-Received_example =
    msg_receive-Received start no_queues 0 any 100 start-WellFormed.inv start-WellFormed.flat
      (omega arith) (inr (inl refl)) (omega arith) (caller-Idle start no_queues start-WellFormed)
      (omega arith) (awake start no_queues start-WellFormed (omega arith))

schedule-Chosen_example : (t : Kernel) × (schedule 2 start ≡ ok t) × Chosen start t
schedule-Chosen_example =
    schedule-Chosen start init_slot (omega arith) start-WellFormed.idler start-WellFormed.priority

clock_handler-WellFormed_example :
    (t : Kernel) × (clock_handler start ≡ ok t) × WellFormed t no_queues
clock_handler-WellFormed_example = clock_handler-WellFormed start no_queues start-WellFormed

-- A fork of the process that waits for a message.
abbrev forking : Mm
forking = record {
  kernel = after_receive;
  ldt_c = after_receive.ldt_rw;
  p_parent = λ _. 57;
  memory_size = 0x2000000;
  memory = λ _. 0;
}

abbrev forked_or : Mm → Run (Option Forked) → Forked
forked_or m (ok (some f)) = f
forked_or m (ok none) = record { child_pid = 0; mm = m; child_base = 0; caller_base = 0; size = 0 }
forked_or m (fault _) = record { child_pid = 0; mm = m; child_base = 0; caller_base = 0; size = 0 }

abbrev forked : Forked
forked = forked_or forking (do_fork forking 0)

forking-CanFork : CanFork after_receive 0 8
unfolding kernel_main init_procs clear_procs sys_sendrec msg_receive receive_any wait_message block
    schedule pick refill va2la ldt_seg_linear
forking-CanFork = record {
  parent_slot = omega arith;
  user_slot = omega arith;
  slot = omega arith;
  is_free = refl;
  waiting = refl;
  parent_first = refl;
  parent_next = refl;
  first = refl;
  next = refl;
}

forking-Reach : Reach machine forked.mm.kernel
unfolding kernel_main init_procs clear_procs sys_sendrec msg_receive receive_any wait_message block
    schedule pick refill va2la ldt_seg_linear do_fork find_free alloc_mem child_entry
forking-Reach =
    next {s = after_receive} {t = forked.mm.kernel}
      (next {s = start} booted (receives any 100 start-Calls (inr (inl refl)) (omega arith) refl))
      (forks forking 0 forked refl refl forking-CanFork)
