-- ===== src/Proc/Inv.antt =====
-- The invariant of message passing: what a process is waiting for shows in its flags, a blocked
-- sender stands in exactly one queue, that of the process it sends to, and nobody waits in a cycle.
use osin32bits.Base.{ℕ, ◌+◌, ◌%◌, ◌^◌, ◌<◌, ◌≡◌, ◌≢◌, some, true, ok, List, arith, fun_ext, has}
use osin32bits.Proc.Types.{
  nr_slots, nr_tasks, nr_native_procs, sending, receiving, free_slot, no_task, Ipc, Kernel,
  ldt_seg_linear, va2la,
}
use osin32bits.Proc.Chain.{next_of, Chain-frame}
use osin32bits.Proc.Waits.{waits, Trail}
use osin32bits.Proc.Queues.{Queues}

pub record Idle (r : Ipc) : Type 0 where
  pub flags : r.p_flags ≡ 0
  pub msg : r.p_msg ≡ 0
  pub recvfrom : r.p_recvfrom ≡ no_task
  pub sendto : r.p_sendto ≡ no_task

pub record IsSending (r : Ipc) : Type 0 where
  pub flags : r.p_flags ≡ sending
  pub msg : r.p_msg ≢ 0
  pub recvfrom : r.p_recvfrom ≡ no_task

pub record IsReceiving (r : Ipc) : Type 0 where
  pub flags : r.p_flags ≡ receiving
  pub msg : r.p_msg ≢ 0
  pub recvfrom : r.p_recvfrom ≢ no_task
  pub sendto : r.p_sendto ≡ no_task

pub data Status (r : Ipc) : Type 0 where
  idle : Idle r → Status r
  is_sending : IsSending r → Status r
  is_receiving : IsReceiving r → Status r
  unused : r.p_flags ≡ free_slot → Status r

pub record Inv (f : ℕ → Ipc) (q : ℕ → List ℕ) : Type 0 where
  pub queues : Queues f q
  pub status : (p : ℕ) → p < nr_slots → Status (f p)
  pub member : (d p : ℕ) → d < nr_slots → has p (q d) ≡ true → (p < nr_slots) × (waits f p ≡ some d)
  pub queued : (p d : ℕ) → p < nr_slots → waits f p ≡ some d → (d < nr_slots) × (has p (q d) ≡ true)
  pub trail : (p : ℕ) → p < nr_slots → (xs : List ℕ) × Trail (waits f) p xs

-- The segments of the tasks and of the native processes start at 0.
abbrev pub IsFlat : Kernel → Type 0
IsFlat s = (p : ℕ) → p < nr_tasks + nr_native_procs → ldt_seg_linear s p ≡ 0

-- The linear address of a virtual one.
abbrev pub linear : Kernel → ℕ → ℕ → ℕ
linear s pid va = (ldt_seg_linear s pid + va) % 2 ^ 32

pub va2la-ok : (s : Kernel) (pid va : ℕ) → IsFlat s → va2la s pid va ≡ ok (linear s pid va)
unfolding va2la
va2la-ok s pid va flat = ground (arith, flat pid)

-- Two tables with the same queue pointers.
pub record SameLinks (f f' : ℕ → Ipc) : Type 0 where
  pub next : (p : ℕ) → (f' p).next_sending ≡ (f p).next_sending
  pub first : (p : ℕ) → (f' p).q_sending ≡ (f p).q_sending

pub Queues-SameLinks : {f f' : ℕ → Ipc} {q : ℕ → List ℕ} → SameLinks f f' → Queues f q → Queues f' q
Queues-SameLinks {f} {f'} {q} same v = record {
  chain = λ d h. rw (same.first d) (
      Chain-frame (next_of f) (next_of f') (f d).q_sending (q d) (λ x _. same.next x)
        (v.chain d h));
  distinct = v.distinct;
  below = v.below;
  apart = v.apart;
}

pub Status-same :
    {r : Ipc} (r' : Ipc)
    → r'.p_flags ≡ r.p_flags
    → r'.p_msg ≡ r.p_msg
    → r'.p_recvfrom ≡ r.p_recvfrom
    → r'.p_sendto ≡ r.p_sendto
    → Status r
    → Status r'
Status-same r' a b c d (idle i) = idle (ground arith)
Status-same r' a b c d (is_sending i) = is_sending (ground arith)
Status-same r' a b c d (is_receiving i) = is_receiving (ground arith)
Status-same r' a b c d (unused e) = unused (ground arith)

-- A change that touches neither the queues nor who waits for whom.
pub Inv-SameLinks :
    {f f' : ℕ → Ipc} {q : ℕ → List ℕ}
    → SameLinks f f'
    → ((p : ℕ) → waits f' p ≡ waits f p)
    → ((p : ℕ) → p < nr_slots → Status (f' p))
    → Inv f q
    → Inv f' q
Inv-SameLinks {f} {f'} {q} same w st v = record {
  queues = Queues-SameLinks same v.queues;
  status = st;
  member = λ d p h i. rw (w p) (v.member d p h i);
  queued = λ p d h e. v.queued p d h (rw (← w p) e);
  trail = λ p h. rw (fun_ext w) (v.trail p h);
}
