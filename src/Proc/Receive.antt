-- ===== src/Proc/Receive.antt =====
-- kernel/proc.c: `msg_receive` on every branch.
use osin32bits.Base.{
  ℕ, ◌<◌, ◌≡◌, refl, ◌≢◌, ◌⊎◌, inl, inr, Bool, true, false, not, ◌&&◌, ◌||◌, Option, some, ok, Run,
  fault, assertion, List, [], ◌∷◌, arith, ◌==◌, has_flag, update, has, Bool-cases, ==_refl,
}
use osin32bits.Proc.Types.{
  nr_slots, sending, no_task, any, interrupt, hard_int, reset_msg, Ipc, Kernel, set_ipc,
}
use osin32bits.Proc.Ipc.{
  take_message, wait_message, receive_any, receive_from, msg_receive, is_null,
}
use osin32bits.Proc.Schedule.Choice.{Chosen}
use osin32bits.Proc.Waits.{waits}
use osin32bits.Proc.Chain.{Chain, next_of}
use osin32bits.Proc.Queues.{SameBut}
use osin32bits.Proc.Dequeue.{prev_of, erase_at, dequeue-Queues}
use osin32bits.Proc.Inv.{Idle, Inv, IsFlat, linear}
use osin32bits.Proc.Blocking.{Awake}
use osin32bits.Proc.Taking.{
  released_table, waiting_for, acked, check_pair-ok, take_message-released, wait_message-waiting,
  wait_message-stops, waiting-Inv, receive_int-ok, receive_int-Inv,
}

-- Whether a pending interrupt answers a request for messages from `src`.
abbrev pub takes_int : Ipc → (src : ℕ) → Bool
takes_int r src = not (r.has_int_msg == 0) && (src == any || src == interrupt)

-- The sender that a request for messages from `src` is served from.
pub data Serves (f : ℕ → Ipc) (who : ℕ) (xs : List ℕ) (src : ℕ) : ℕ → Type 0 where
  -- the first in the queue, if any sender will do
  first : {from : ℕ} {ys : List ℕ} → src ≡ any → xs ≡ from ∷ ys → Serves f who xs src from
  -- the process that is asked for, if it is sending to `who`
  named : {from : ℕ} → src ≢ any → src ≡ from → waits f from ≡ some who → Serves f who xs src from

-- The outcomes of `msg_receive`, for queues `q`.
pub data Received (s : Kernel) (q : ℕ → List ℕ) (who src m : ℕ) : Run Kernel → Type 0 where
  -- A pending interrupt comes first, as a message of its own.
  interrupted :
      takes_int (s.ipc who) src ≡ true
      → (t : Kernel)
      → t
        ≡ set_ipc
            (record s {
              mem =
                  update s.mem
                    (linear s who m)
                    (record reset_msg { source = interrupt; type = hard_int });
            })
            who
            (acked (s.ipc who))
      → Inv t.ipc q
      → Received s q who src m (ok t)
  -- A message is copied; its sender leaves the queue and can run.
  taken :
      takes_int (s.ipc who) src ≡ false
      → (from : ℕ) → Serves s.ipc who (q who) src from
      → (t : Kernel) → t ≡ record s { ipc = t.ipc; mem = t.mem }
      → SameBut (released_table s.ipc from) t.ipc
      → t.mem ≡ update s.mem (linear s who m) (s.mem (linear s from (s.ipc from).p_msg))
      → Inv t.ipc (erase_at q who from)
      → Received s q who src m (ok t)
  -- There is none: the caller blocks, and another process is chosen.
  waiting :
      (s.ipc who).has_int_msg ≡ 0
      → ((from : ℕ) → ¬ Serves s.ipc who (q who) src from)
      → (t : Kernel) → t.ipc ≡ update s.ipc who (waiting_for (s.ipc who) src m)
      → Chosen (record s { ipc = t.ipc }) t
      → Inv t.ipc q
      → Received s q who src m (ok t)
  -- The same with an interrupt pending that was not asked for: the kernel stops at an assertion.
  stopped :
      (s.ipc who).has_int_msg ≢ 0
      → takes_int (s.ipc who) src ≡ false
      → ((from : ℕ) → ¬ Serves s.ipc who (q who) src from)
      → Received s q who src m (fault assertion)

-- `src` is a process of the table, or ANY, or INTERRUPT. The memory that INTERRUPT indexes, before
-- the table, must not look like a process that sends to `who`.
abbrev pub IsSource : (ℕ → Ipc) → (who src : ℕ) → Type 0
IsSource f who src =
    (src < nr_slots) ⊎ ((src ≡ any) ⊎ ((src ≡ interrupt) × (waits f interrupt ≢ some who)))

module _ (s : Kernel) (q : ℕ → List ℕ) (v : Inv s.ipc q) (who m : ℕ) (hw : who < nr_slots)
    (calls : Idle (s.ipc who)) (m_ne : m ≢ 0) (flat : IsFlat s) (awake : Awake s who) (src : ℕ)
    (no_int : takes_int (s.ipc who) src ≡ false) where
  -- Without a message to take.
  none_left :
      src ≢ no_task
      → ((from : ℕ) → ¬ Serves s.ipc who (q who) src from)
      → Received s q who src m (wait_message s who src m)
  none_left ne nobody = elim (Bool-cases ((s.ipc who).has_int_msg == 0)) [
    | inl e ↦
        let quiet : (s.ipc who).has_int_msg ≡ 0 = ground arith in
        let (t, eq, ipc, ch) = wait_message-waiting s q v who m hw calls m_ne src awake ne quiet in
        rw eq
          (waiting quiet nobody t ipc ch (rw ipc (waiting-Inv s q v who m hw calls m_ne src ne)))
    | inr e ↦
        let pending : (s.ipc who).has_int_msg ≢ 0 = ground arith in
        rw (wait_message-stops s q v who m hw calls m_ne src awake ne pending)
          (stopped pending no_int nobody)
  ]

  take :
      (from : ℕ)
      → has from (q who) ≡ true
      → Serves s.ipc who (q who) src from
      → Received s q who src m (take_message s who from (prev_of s.ipc who from (q who)) m)
  take from inside serves =
      let (t, eq, frame, same, mem, inv) =
        take_message-released s q v who m hw calls m_ne flat from inside in
      rw eq (taken no_int from serves t frame same mem inv)

  any_queue : (xs : List ℕ) → q who ≡ xs → src ≡ any → Received s q who src m (receive_any s who m)
  unfolding receive_any
  any_queue [] e is_any =
      let c : Chain (next_of s.ipc) (s.ipc who).q_sending [] = rw e at (v.queues.chain who hw) in
      let waits_any : receive_any s who m ≡ wait_message s who src m =
        rw (c, is_any, receive_any) in
      rw waits_any (none_left (ground arith) nobody)
    where
      nobody : (from : ℕ) → ¬ Serves s.ipc who (q who) src from
      nobody from (first a f) = cc
      nobody from (named n a w) = n is_any
  any_queue (x ∷ xs) e is_any =
      let c : Chain (next_of s.ipc) (s.ipc who).q_sending (x ∷ xs) =
        rw e at (v.queues.chain who hw) in
      let inside : has x (q who) ≡ true = rw e (ground arith) in
      let checks = check_pair-ok s q v who m hw calls m_ne x inside in
      let takes : receive_any s who m ≡ take_message s who x (prev_of s.ipc who x (q who)) m =
        rw (c.0, receive_any, checks, e, ==_refl x) in
      rw takes (take x inside (first is_any e))

  -- The first of a queue that is not empty.
  not_null :
      (o : Option ℕ) (xs : List ℕ)
      → Chain (next_of s.ipc) o xs
      → has src xs ≡ true
      → is_null o ≡ false
  not_null o [] c h = cc
  not_null o (x ∷ xs) c h = rw c.0

  source_in_table : IsSource s.ipc who src → src ≢ any → waits s.ipc src ≡ some who → src < nr_slots
  source_in_table (inl h) ne w = h
  source_in_table (inr (inl e)) ne w = absurd (ne e)
  source_in_table (inr (inr (e, out))) ne w = absurd (out (rw (← e) w))

  source-ne-no_task : IsSource s.ipc who src → src ≢ no_task
  source-ne-no_task (inl h) = omega arith
  source-ne-no_task (inr (inl e)) = omega arith
  source-ne-no_task (inr (inr (e, out))) = omega arith

  from_source :
      IsSource s.ipc who src → src ≢ any → Received s q who src m (receive_from s who src m)
  unfolding receive_from
  from_source ok_src ne =
      elim (Bool-cases (has_flag (s.ipc src).p_flags sending && (s.ipc src).p_sendto == who)) [
        | inl e ↦
            let w : waits s.ipc src ≡ some who = ground arith in
            let inside = (v.queued src who (source_in_table ok_src ne w) w).1 in
            let (prev, walk, found, _, _, _, _) =
              dequeue-Queues s.ipc who src q v.queues hw inside in
            let full = not_null (s.ipc who).q_sending (q who) (v.queues.chain who hw) inside in
            let checks = check_pair-ok s q v who m hw calls m_ne src inside in
            rw (e, full, walk, checks, found) (take src inside (named ne refl w))
        | inr e ↦ rw e (none_left (source-ne-no_task ok_src) (nobody e))
      ]
    where
      nobody :
          (has_flag (s.ipc src).p_flags sending && (s.ipc src).p_sendto == who) ≡ false
          → (from : ℕ) → ¬ Serves s.ipc who (q who) src from
      nobody e from (first a f) = ne a
      nobody e from (named n a w) = ground arith

-- `msg_receive` under the invariant, for a caller that can run, a source that is another process of
-- the table, ANY, or INTERRUPT, a buffer that is not null, and some third process that can run: it
-- has one of the outcomes of `Received`. A pending interrupt that was asked for comes first; else
-- the message of the first sender, or of the named one, is taken; else the caller blocks, or, if an
-- interrupt is pending that was not asked for, the kernel stops at an assertion. When it returns
-- the invariant holds.
pub msg_receive-Received :
    (s : Kernel) (q : ℕ → List ℕ) (who src m : ℕ)
    → Inv s.ipc q
    → IsFlat s
    → who < nr_slots
    → IsSource s.ipc who src
    → who ≢ src
    → Idle (s.ipc who)
    → m ≢ 0
    → Awake s who
    → Received s q who src m (msg_receive s who src m)
unfolding msg_receive
msg_receive-Received s q who src m v flat hw ok_src ne calls m_ne awake =
    let apart : (who == src) ≡ false = ground arith in
    rw apart (elim (Bool-cases (takes_int (s.ipc who) src)) [
      | inl e ↦
          rw (e, receive_int-ok s q v who m hw calls m_ne flat)
            (interrupted e _ refl (receive_int-Inv s q v who m hw calls m_ne))
      | inr e ↦ rw e (elim (Bool-cases (src == any)) [
        | inl a ↦
            rw a (any_queue s q v who m hw calls m_ne flat awake src e (q who) refl (ground arith))
        | inr a ↦
            rw a (from_source s q v who m hw calls m_ne flat awake src e ok_src (ground arith))
      ])
    ])
