-- ===== src/Proc/Syscall.antt =====
-- kernel/proc.c `sys_sendrec`: the two system calls of message passing.
use osin32bits.Base.{
  lt→ltb, ℕ, ◌<◌, ◌≡◌, refl, ◌≢◌, ◌⊎◌, inl, inr, true, false, ◌||◌, List, arith, ◌==◌, ltb, update,
}
use osin32bits.Proc.Types.{nr_slots, any, interrupt, Kernel}
use osin32bits.Proc.Ipc.{send, receive, sys_sendrec, msg_send, msg_receive}
use osin32bits.Proc.Inv.{linear, va2la-ok}
use osin32bits.Proc.Send.{Sent, msg_send-Sent}
use osin32bits.Proc.Receive.{IsSource, Received, msg_receive-Received}
use osin32bits.Proc.System.{init_slot, WellFormed, awake, caller-Idle, IsFlat-same}

-- The message of the caller carries its source before it goes on.
abbrev pub stamped : Kernel → (m caller : ℕ) → Kernel
stamped s m caller = record s {
  mem = update s.mem (linear s caller m) (record (s.mem (linear s caller m)) { source = caller });
}

-- A system call: the process that runs is not `Init`, passes a buffer, and is not in the kernel.
pub record Calls (s : Kernel) (m : ℕ) : Type 0 where
  pub no_init : s.p_proc_ready ≢ init_slot
  pub buffer : m ≢ 0
  pub from_user : s.k_reenter ≡ 0

module _ (s : Kernel) (q : ℕ → List ℕ) (v : WellFormed s q) (m : ℕ) (c : Calls s m) where
  pub sys_sendrec-send :
      (dest : ℕ)
      → dest < nr_slots
      → s.p_proc_ready ≢ dest
      → sys_sendrec s send dest m s.p_proc_ready
        ≡ msg_send (stamped s m s.p_proc_ready) s.p_proc_ready dest m
  unfolding sys_sendrec
  sys_sendrec-send dest h ne =
      let in_range : ltb dest nr_slots ≡ true = lt→ltb dest nr_slots h in
      let apart : (s.p_proc_ready == dest) ≡ false = ground arith in
      let calm : (s.k_reenter == 0) ≡ true = ground (arith, c.from_user) in
      rw (calm, in_range, va2la-ok s s.p_proc_ready m v.flat, apart)

  pub sys_sendrec-receive :
      (src : ℕ)
      → ((src < nr_slots) ⊎ ((src ≡ any) ⊎ (src ≡ interrupt)))
      → s.p_proc_ready ≢ src
      → sys_sendrec s receive src m s.p_proc_ready
        ≡ msg_receive (stamped s m s.p_proc_ready) s.p_proc_ready src m
  unfolding sys_sendrec
  sys_sendrec-receive src h ne =
      let in_range : (ltb src nr_slots || src == any || src == interrupt) ≡ true = ground arith in
      let apart : (s.p_proc_ready == src) ≡ false = ground arith in
      let calm : (s.k_reenter == 0) ≡ true = ground (arith, c.from_user) in
      rw (calm, in_range, va2la-ok s s.p_proc_ready m v.flat, apart)

  pub stamped-WellFormed : WellFormed (stamped s m s.p_proc_ready) q
  stamped-WellFormed = record {
    inv = v.inv;
    flat = IsFlat-same s (stamped s m s.p_proc_ready) refl v.flat;
    ready = v.ready;
    runs = v.runs;
    idler = v.idler;
    priority = v.priority;
    outside = v.outside;
  }

  -- The system call `sendrec(SEND, dest, m)` by the running process, which is not `Init`, in a
  -- well-formed state outside the kernel, to another process of the table: it does what `Sent` says
  -- of `msg_send` with the message stamped with the number of the caller.
  pub send-Sent :
      (dest : ℕ)
      → dest < nr_slots
      → s.p_proc_ready ≢ dest
      → Sent
          (stamped s m s.p_proc_ready)
          q
          s.p_proc_ready
          dest
          m
          (sys_sendrec s send dest m s.p_proc_ready)
  send-Sent dest h ne =
      let w = stamped-WellFormed in
      rw (sys_sendrec-send dest h ne) (
        msg_send-Sent (stamped s m s.p_proc_ready) q s.p_proc_ready dest m w.inv w.flat v.ready h ne
          (caller-Idle (stamped s m s.p_proc_ready) q w) c.buffer
          (awake (stamped s m s.p_proc_ready) q w c.no_init))

  -- The system call `sendrec(RECEIVE, src, m)` by the running process, which is not `Init`, in a
  -- well-formed state outside the kernel, from another process of the table, ANY or INTERRUPT: it
  -- does what `Received` says of `msg_receive` once the buffer is stamped with the number of the
  -- caller.
  pub receive-Received :
      (src : ℕ)
      → ((src < nr_slots) ⊎ ((src ≡ any) ⊎ (src ≡ interrupt)))
      → s.p_proc_ready ≢ src
      → Received
          (stamped s m s.p_proc_ready)
          q
          s.p_proc_ready
          src
          m
          (sys_sendrec s receive src m s.p_proc_ready)
  receive-Received src h ne =
      let w = stamped-WellFormed in
      rw (sys_sendrec-receive src h ne) (
        msg_receive-Received (stamped s m s.p_proc_ready) q s.p_proc_ready src m w.inv w.flat
          v.ready (source h) ne (caller-Idle (stamped s m s.p_proc_ready) q w) c.buffer
          (awake (stamped s m s.p_proc_ready) q w c.no_init))
    where
      source :
          ((src < nr_slots) ⊎ ((src ≡ any) ⊎ (src ≡ interrupt))) → IsSource s.ipc s.p_proc_ready src
      source (inl h) = inl h
      source (inr (inl e)) = inr (inl e)
      source (inr (inr e)) = inr (inr (e, λ w. ground (arith, v.outside)))
