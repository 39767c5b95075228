-- ===== src/Proc/Blocking.antt =====
-- Processes that are blocked: who can send to whom, and what a blocked process looks like.
use osin32bits.Base.{
  ℕ, ◌<◌, ◌≡◌, ◌≢◌, Bool, true, ◌&&◌, ◌||◌, some, none, arith, ◌==◌, has_flag, update,
}
use osin32bits.Proc.Types.{nr_slots, sending, receiving, no_task, any, Ipc, Kernel}
use osin32bits.Proc.Schedule.{runnable}
use osin32bits.Proc.Waits.{waits}
use osin32bits.Proc.Inv.{IsReceiving, Status, idle, is_sending, is_receiving, unused}

-- Some process other than `p` can run, with a positive priority.
pub record Awake (s : Kernel) (p : ℕ) : Type 0 where
  pub other : ℕ
  pub slot : other < nr_slots
  pub apart : other ≢ p
  pub runs : runnable (s.ipc other) ≡ true
  pub priority : 0 < (s.sched other).priority

-- The process `d` waits for a message that `p` may send.
abbrev pub accepts : Ipc → ℕ → Bool
accepts d p = has_flag d.p_flags receiving && (d.p_recvfrom == p || d.p_recvfrom == any)

-- `dest` after its message has come.
abbrev pub served : Ipc → Ipc
served d = record d { p_msg = 0; p_flags = 0; p_recvfrom = no_task }

-- A sender that is blocked.
abbrev pub blocked_on : Ipc → (dest m : ℕ) → Ipc
blocked_on c dest m = record c { p_flags = sending; p_sendto = dest; p_msg = m }

-- The table with the sender blocked, before it is put into the queue.
abbrev pub blocked_table : (ℕ → Ipc) → (sender dest m : ℕ) → ℕ → Ipc
blocked_table f sender dest m = update f sender (blocked_on (f sender) dest m)

pub waits-none : (f : ℕ → Ipc) (p : ℕ) → (f p).p_flags ≡ 0 → waits f p ≡ none
waits-none f p e = ground arith

pub waits-some : (f : ℕ → Ipc) (p : ℕ) → (f p).p_flags ≡ sending → waits f p ≡ some (f p).p_sendto
waits-some f p e = ground arith

-- A process that waits to send has a message.
pub waits-msg : (f : ℕ → Ipc) (p d : ℕ) → Status (f p) → waits f p ≡ some d → (f p).p_msg ≢ 0
waits-msg f p d (idle i) h = absurd (ground arith)
waits-msg f p d (is_sending i) h = i.msg
waits-msg f p d (is_receiving i) h = i.msg
waits-msg f p d (unused e) h = absurd (ground arith)

pub accepts-IsReceiving : {d : Ipc} (p : ℕ) → Status d → accepts d p ≡ true → IsReceiving d
accepts-IsReceiving p (idle i) h = absurd (ground arith)
accepts-IsReceiving p (is_sending i) h = absurd (ground arith)
accepts-IsReceiving p (is_receiving i) h = i
accepts-IsReceiving p (unused e) h = absurd (ground arith)
