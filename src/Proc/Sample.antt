-- ===== src/Proc/Sample.antt =====
-- include/proc.h: a table of processes whose segments start at 0, for the tests.
use osin32bits.Proc.Types.{Kernel, reset_msg}
use osin32bits.Proc.Boot.{zero_ipc, zero_sched, zero_descriptor}

abbrev pub kernel : Kernel
kernel = record {
  ipc = λ _. zero_ipc;
  sched = λ _. zero_sched;
  ldt_rw = λ _. zero_descriptor;
  kernel_ds = zero_descriptor;
  mem = λ _. reset_msg;
  p_proc_ready = 0;
  ticks = 0;
  k_reenter = 0;
  key_pressed = 0;
}
