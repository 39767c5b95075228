-- ===== src/Proc/Send.antt =====
-- kernel/proc.c: `msg_send` on every branch.
use osin32bits.Base.{
  ℕ, ◌<◌, ◌≡◌, refl, ◌≢◌, inl, inr, true, false, ok, Run, fault, panic, List, arith, ◌==◌, has,
  Bool-cases,
}
use osin32bits.Proc.Types.{nr_slots, Kernel, copy_message, set_ipc}
use osin32bits.Proc.Ipc.{msg_send}
use osin32bits.Proc.Waits.{waits, Trail}
use osin32bits.Proc.Queues.{SameBut, snoc_at}
use osin32bits.Proc.Inv.{Idle, Inv, IsFlat, linear}
use osin32bits.Proc.Schedule.Choice.{Chosen}
use osin32bits.Proc.Blocking.{Awake, accepts, served, blocked_table, accepts-IsReceiving}
use osin32bits.Proc.Enqueue.{
  deadlock-Trail, deliver-served, served-Inv, enqueue-appended, blocked-Inv,
}

-- The outcomes of `msg_send`, for queues `q`.
pub data Sent (s : Kernel) (q : ℕ → List ℕ) (sender dest m : ℕ) : Run Kernel → Type 0 where
  -- `dest` waits for the sender, itself or through others: the kernel panics.
  refused :
      (xs : List ℕ)
      → Trail (waits s.ipc) dest xs
      → has sender xs ≡ true
      → Sent s q sender dest m (fault panic)
  -- `dest` was waiting: it gets the message and can run, and nobody else is touched.
  delivered :
      accepts (s.ipc dest) sender ≡ true
      → (t : Kernel)
      → t
        ≡ set_ipc
            (copy_message s (linear s dest (s.ipc dest).p_msg) (linear s sender m))
            dest
            (served (s.ipc dest))
      → Inv t.ipc q
      → Sent s q sender dest m (ok t)
  -- The sender blocks, as the last in the queue of `dest`; no message is copied, and another
  -- process is chosen.
  appended :
      accepts (s.ipc dest) sender ≡ false
      → (t : Kernel) → SameBut (blocked_table s.ipc sender dest m) t.ipc
      → Chosen (record s { ipc = t.ipc }) t
      → Inv t.ipc (snoc_at q dest sender)
      → Sent s q sender dest m (ok t)

-- `msg_send` under the invariant, for a caller that can run, another process of the table as
-- destination, a message that is not null, and some third process that can run: it has one of the
-- outcomes of `Sent`. It panics exactly if the destination waits for the caller, itself or through
-- others; else it delivers the message if the destination waits for it, and else it blocks the
-- caller as the last of the queue. When it returns the invariant holds, for the queues changed in
-- this way.
pub msg_send-Sent :
    (s : Kernel) (q : ℕ → List ℕ) (sender dest m : ℕ)
    → Inv s.ipc q
    → IsFlat s
    → sender < nr_slots
    → dest < nr_slots
    → sender ≢ dest
    → Idle (s.ipc sender)
    → m ≢ 0
    → Awake s sender
    → Sent s q sender dest m (msg_send s sender dest m)
unfolding msg_send
msg_send-Sent s q sender dest m v flat hs hd ne calls m_ne awake =
    let (xs, t) = v.trail dest hd in
    let apart : (sender == dest) ≡ false = ground arith in
    rw (apart, deadlock-Trail s q v sender dest m hs hd ne calls m_ne xs t)
      (elim (Bool-cases (has sender xs)) [
        | inl cycle ↦ rw cycle (refused xs t cycle)
        | inr free ↦ rw free (elim (Bool-cases (accepts (s.ipc dest) sender)) [
          | inl e ↦
              let r = accepts-IsReceiving sender (v.status dest hd) e in
              rw (e, deliver-served s q v sender dest m hs hd ne calls m_ne flat r)
                (delivered e _ refl (served-Inv s q v sender dest m hs hd ne calls m_ne r))
          | inr e ↦
              let (t', eq, same, qs, ch) =
                enqueue-appended s q v sender dest m hs hd ne calls m_ne awake in
              rw (e, eq)
                (appended e t' same ch
                  (blocked-Inv s q v sender dest m hs hd ne calls m_ne t'.ipc same qs xs t free))
        ])
      ])
