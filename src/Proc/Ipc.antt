-- ===== src/Proc/Ipc.antt =====
-- kernel/proc.c: message passing between processes. A process is named by its index in the table.
use osin32bits.Base.{
  ℕ, zero, suc, Bool, true, false, not, ◌&&◌, ◌||◌, Option, none, some, Run, ok, fault, assertion,
  panic, ◌>>=◌, ◌>>◌, assert, finished, ◌==◌, ltb, update, if◌then◌else◌, has_flag, set_flag,
  clear_flag,
}
use osin32bits.Proc.Types.{
  nr_slots, sending, receiving, interrupt, any, no_task, hard_int, reset_msg, Ipc, Kernel, va2la,
  copy_message, set_ipc,
}
use osin32bits.Proc.Schedule.{schedule}

-- Rounds that the loops over the process table are given.
abbrev pub table_fuel : ℕ
table_fuel = 38

-- `block`; two rounds of `schedule` suffice while some process can run.
unfoldable pub block : Kernel → ℕ → Run Kernel
block s p = do assert (not ((s.ipc p).p_flags == 0)); schedule 2 s

-- `unblock`
abbrev pub unblock : Ipc → Run (Unit {0})
unblock p = assert (p.p_flags == 0)

-- The loop of `deadlock`: whether the chain of senders from `p` leads back to `src`.
unfoldable pub deadlock_loop : (fuel : ℕ) → (ℕ → Ipc) → (src p : ℕ) → Option Bool
deadlock_loop zero f src p = none
deadlock_loop (suc fuel) f src p =
    let rest = deadlock_loop fuel f src (f p).p_sendto in
    if has_flag (f p).p_flags sending
    then (if (f p).p_sendto == src then some true else rest)
    else some false

-- The `do … while` that prints the chain once a cycle is found.
unfoldable pub print_chain : (fuel : ℕ) → (ℕ → Ipc) → (src p : ℕ) → Run (Unit {0})
print_chain zero f src p = finished none
print_chain (suc fuel) f src p =
    let rest = print_chain fuel f src (f p).p_sendto in
    do assert (not ((f p).p_msg == 0)); if (f p).p_sendto == src then ok tt else rest

unfoldable pub deadlock : (ℕ → Ipc) → (src dest : ℕ) → Run Bool
deadlock f src dest = do
  found ← finished (deadlock_loop table_fuel f src dest)
  if found then (do print_chain table_fuel f src dest; ok true) else ok false

-- `while (p->next_sending) p = p->next_sending;`
unfoldable pub last_sending : (fuel : ℕ) → (ℕ → Ipc) → ℕ → Option ℕ
last_sending zero f p = none
last_sending (suc fuel) f p = elim (f p).next_sending [
  | none ↦ some p
  | some n ↦ last_sending fuel f n
]

-- The branch of `msg_send` where `dest` is waiting for the message.
unfoldable pub deliver : Kernel → (sender dest m : ℕ) → Run Kernel
deliver s sender dest m = do
  let d = s.ipc dest
  let c = s.ipc sender
  assert (not (d.p_msg == 0))
  assert (not (m == 0))
  to ← va2la s dest d.p_msg
  from ← va2la s sender m
  let d' = record d { p_msg = 0; p_flags = clear_flag d.p_flags receiving; p_recvfrom = no_task }
  unblock d'
  assert (d'.p_sendto == no_task)
  assert (c.p_flags == 0)
  assert (c.p_msg == 0)
  assert (c.p_recvfrom == no_task)
  assert (c.p_sendto == no_task)
  ok (set_ipc (copy_message s to from) dest d')

-- `sender->next_sending = 0;`
abbrev pub clear_next : (ℕ → Ipc) → ℕ → ℕ → Ipc
clear_next f p = update f p (record (f p) { next_sending = none })

-- Appends to the sending queue: `q_sending` if it is empty, else the last `next_sending`.
unfoldable pub append_sender : (ℕ → Ipc) → (sender dest : ℕ) → Run (ℕ → Ipc)
append_sender f sender dest = elim (f dest).q_sending [
  | none ↦ ok (clear_next (update f dest (record (f dest) { q_sending = some sender })) sender)
  | some first ↦ do
    p ← finished (last_sending table_fuel f first)
    ok (clear_next (update f p (record (f p) { next_sending = some sender })) sender)
]

-- The branch of `msg_send` where `dest` is not waiting for the message.
unfoldable pub enqueue : Kernel → (sender dest m : ℕ) → Run Kernel
enqueue s sender dest m = do
  let c = s.ipc sender
  let flags = set_flag c.p_flags sending
  assert (flags == sending)
  let c' = record c { p_flags = flags; p_sendto = dest; p_msg = m }
  f ← append_sender (update s.ipc sender c') sender dest
  t ← block (record s { ipc = f }) sender
  assert ((t.ipc sender).p_flags == sending)
  assert (not ((t.ipc sender).p_msg == 0))
  assert ((t.ipc sender).p_recvfrom == no_task)
  assert ((t.ipc sender).p_sendto == dest)
  ok t

unfoldable pub msg_send : Kernel → (current dest m : ℕ) → Run Kernel
msg_send s current dest m = do
  assert (not (current == dest))
  cycle ← deadlock s.ipc current dest
  if cycle
      then fault panic
      else (if has_flag (s.ipc dest).p_flags receiving
            && ((s.ipc dest).p_recvfrom == current || (s.ipc dest).p_recvfrom == any)
          then deliver s current dest m
          else enqueue s current dest m)

-- A pending interrupt is taken as a message.
unfoldable pub receive_int : Kernel → (who m : ℕ) → Run Kernel
receive_int s who m = do
  let r = s.ipc who
  assert (not (m == 0))
  to ← va2la s who m
  let msg = record reset_msg { source = interrupt; type = hard_int }
  assert (r.p_flags == 0)
  assert (r.p_msg == 0)
  assert (r.p_sendto == no_task)
  ok (set_ipc (record s { mem = update s.mem to msg }) who (record r { has_int_msg = 0 }))

-- The assertions on the receiver and the sender once a sender is chosen.
unfoldable pub check_pair : (ℕ → Ipc) → (who from : ℕ) → Run (Unit {0})
check_pair f who from = do
  assert ((f who).p_flags == 0)
  assert ((f who).p_msg == 0)
  assert ((f who).p_recvfrom == no_task)
  assert ((f who).p_sendto == no_task)
  assert ((f from).p_flags == sending)
  assert (not ((f from).p_msg == 0))
  assert ((f from).p_recvfrom == no_task)
  assert ((f from).p_sendto == who)

-- The walk along the queue that ends at `src`; the result is `prev`. Its assertion, that `src` is
-- sending, is the test that guards the walk.
unfoldable pub find_prev :
    (fuel : ℕ) → (ℕ → Ipc) → (src : ℕ) → (prev p : Option ℕ) → Option (Option ℕ)
find_prev zero f src prev p = none
find_prev (suc fuel) f src prev none = some prev
find_prev (suc fuel) f src prev (some p) = elim (p == src) [
  | true ↦ some prev
  | false ↦ find_prev fuel f src (some p) (f p).next_sending
]

-- `prev->next_sending = p_from->next_sending; p_from->next_sending = 0;`
unfoldable pub unlink : (ℕ → Ipc) → (from prev : ℕ) → ℕ → Ipc
unlink f from prev =
    let g = update f prev (record (f prev) { next_sending = (f from).next_sending }) in
    update g from (record (g from) { next_sending = none })

-- `q_sending = p_from->next_sending; p_from->next_sending = 0;`
unfoldable pub unlink_first : (ℕ → Ipc) → (who from : ℕ) → ℕ → Ipc
unlink_first f who from =
    let g = update f who (record (f who) { q_sending = (f from).next_sending }) in
    update g from (record (g from) { next_sending = none })

abbrev pub is_null : Option ℕ → Bool
is_null none = true
is_null (some _) = false

abbrev pub is_at : Option ℕ → ℕ → Bool
is_at none q = false
is_at (some p) q = p == q

-- The sender leaves the queue of `who`.
unfoldable pub dequeue : (ℕ → Ipc) → (who from : ℕ) → Option ℕ → Run (ℕ → Ipc)
dequeue f who from prev =
    if is_at (f who).q_sending from
    then (do assert (is_null prev); ok (unlink_first f who from))
    else elim prev [ none ↦ fault assertion | some p ↦ ok (unlink f from p) ]

-- `if (copyok)`: the message is copied and the sender goes on.
unfoldable pub take_message : Kernel → (who from : ℕ) → Option ℕ → (m : ℕ) → Run Kernel
take_message s who from prev m = do
  f ← dequeue s.ipc who from prev
  assert (not (m == 0))
  assert (not ((f from).p_msg == 0))
  to ← va2la s who m
  src ← va2la s from (f from).p_msg
  let c = record (f from) {
    p_msg = 0;
    p_sendto = no_task;
    p_flags = clear_flag (f from).p_flags sending;
  }
  unblock c
  ok (set_ipc (copy_message (record s { ipc = f }) to src) from c)

-- Nobody is sending: the caller blocks.
unfoldable pub wait_message : Kernel → (who src m : ℕ) → Run Kernel
wait_message s who src m = do
  let r = s.ipc who
  let r' = record r { p_flags = set_flag r.p_flags receiving; p_msg = m; p_recvfrom = src }
  t ← block (set_ipc s who r') who
  assert ((t.ipc who).p_flags == receiving)
  assert (not ((t.ipc who).p_msg == 0))
  assert (not ((t.ipc who).p_recvfrom == no_task))
  assert ((t.ipc who).p_sendto == no_task)
  assert ((t.ipc who).has_int_msg == 0)
  ok t

unfoldable pub receive_any : Kernel → (who m : ℕ) → Run Kernel
receive_any s who m = elim (s.ipc who).q_sending [
  | none ↦ wait_message s who any m
  | some from ↦ do check_pair s.ipc who from; take_message s who from none m
]

unfoldable pub receive_from : Kernel → (who src m : ℕ) → Run Kernel
receive_from s who src m =
    if has_flag (s.ipc src).p_flags sending && (s.ipc src).p_sendto == who
    then (do
      assert (not (is_null (s.ipc who).q_sending))
      prev ← finished (find_prev table_fuel s.ipc src none (s.ipc who).q_sending)
      check_pair s.ipc who src
      take_message s who src prev m)
    else wait_message s who src m

unfoldable pub msg_receive : Kernel → (current src m : ℕ) → Run Kernel
msg_receive s current src m = do
  assert (not (current == src))
  if not ((s.ipc current).has_int_msg == 0) && (src == any || src == interrupt)
      then receive_int s current m
      else (if src == any then receive_any s current m else receive_from s current src m)

-- `inform_int`; the two writes to the message go to `p_msg` itself, without `va2la`.
unfoldable pub inform_int : Kernel → ℕ → Run Kernel
inform_int s task =
    let p = s.ipc task in
    if has_flag p.p_flags receiving && (p.p_recvfrom == interrupt || p.p_recvfrom == any)
    then (do
      let msg = record (s.mem p.p_msg) { source = interrupt; type = hard_int }
      let p' = record p {
        p_msg = 0;
        has_int_msg = 0;
        p_flags = clear_flag p.p_flags receiving;
        p_recvfrom = no_task;
      }
      unblock p'
      assert (p'.p_sendto == no_task)
      ok (set_ipc (record s { mem = update s.mem p.p_msg msg }) task p'))
    else ok (set_ipc s task (record p { has_int_msg = 1 }))

abbrev pub send : ℕ
send = 1

abbrev pub receive : ℕ
receive = 2

-- `sys_sendrec`, with the process that makes the system call.
unfoldable pub sys_sendrec : Kernel → (function src_dest m caller : ℕ) → Run Kernel
sys_sendrec s function src_dest m caller = do
  assert (s.k_reenter == 0)
  assert (ltb src_dest nr_slots || src_dest == any || src_dest == interrupt)
  la ← va2la s caller m
  let s' = record s { mem = update s.mem la (record (s.mem la) { source = caller }) }
  assert (not (caller == src_dest))
  if function == send
      then msg_send s' caller src_dest m
      else (if function == receive then msg_receive s' caller src_dest m else fault panic)
