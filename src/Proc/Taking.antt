-- ===== src/Proc/Taking.antt =====
-- kernel/proc.c: the parts of `msg_receive`.
use osin32bits.Base.{
  subst, ℕ, ◌<◌, ◌≡◌, refl, ◌≢◌, inl, inr, true, false, some, none, ok, fault, assertion, List, ◌∙◌,
  sym, arith, ◌==◌, update, has, Bool-cases, ==_refl, has-erase_self, has-erase_ne,
}
use osin32bits.Proc.Types.{
  nr_slots, sending, receiving, no_task, interrupt, hard_int, reset_msg, Ipc, Kernel, copy_message,
  set_ipc,
}
use osin32bits.Proc.Schedule.{schedule}
use osin32bits.Proc.Schedule.Choice.{Chosen, schedule-Chosen, Chosen-ipc}
use osin32bits.Proc.Ipc.{block, check_pair, take_message, wait_message, receive_int}
use osin32bits.Proc.Waits.{waits, Trail-cut}
use osin32bits.Proc.Queues.{Queues, SameBut}
use osin32bits.Proc.Dequeue.{prev_of, erase_at, dequeue-Queues}
use osin32bits.Proc.Inv.{
  Idle, IsSending, Status, idle, is_sending, is_receiving, unused, Inv, IsFlat, linear, va2la-ok,
  SameLinks, Queues-SameLinks, Status-same, Inv-SameLinks,
}
use osin32bits.Proc.Blocking.{Awake, waits-none}

-- A sender whose message has been taken.
abbrev pub released : Ipc → Ipc
released c = record c { p_msg = 0; p_sendto = no_task; p_flags = 0 }

abbrev pub released_table : (ℕ → Ipc) → (from : ℕ) → ℕ → Ipc
released_table f from = update f from (released (f from))

-- A receiver that is blocked.
abbrev pub waiting_for : Ipc → (src m : ℕ) → Ipc
waiting_for r src m = record r { p_flags = receiving; p_msg = m; p_recvfrom = src }

-- A receiver that has taken the pending interrupt.
abbrev pub acked : Ipc → Ipc
acked r = record r { has_int_msg = 0 }

waits-IsSending :
    (f : ℕ → Ipc) (p d : ℕ)
    → Status (f p)
    → waits f p ≡ some d
    → IsSending (f p) × ((f p).p_sendto ≡ d)
waits-IsSending f p d (idle i) h = absurd (ground arith)
waits-IsSending f p d (is_sending i) h = (i, ground arith)
waits-IsSending f p d (is_receiving i) h = absurd (ground arith)
waits-IsSending f p d (unused e) h = absurd (ground arith)

module _ (s : Kernel) (q : ℕ → List ℕ) (v : Inv s.ipc q) (who m : ℕ) (hw : who < nr_slots)
    (calls : Idle (s.ipc who)) (m_ne : m ≢ 0) where
  -- A member of the queue of `who` passes the assertions.
  pub check_pair-ok : (from : ℕ) → has from (q who) ≡ true → check_pair s.ipc who from ≡ ok tt
  unfolding check_pair
  check_pair-ok from h =
      let (hf, w) = v.member who from hw h in
      let (i, to) = waits-IsSending s.ipc from who (v.status from hf) w in
      ground (arith, i.flags, i.msg, i.recvfrom)

  module _ (from : ℕ) (inside : has from (q who) ≡ true) (f : ℕ → Ipc) (same : SameBut s.ipc f)
      (qs : Queues f (erase_at q who from)) where
    waits-others : (p : ℕ) → p ≢ from → waits (released_table f from) p ≡ waits s.ipc p
    waits-others p n = ground (arith, same.flags p, same.sendto p)

    waits-released : waits (released_table f from) from ≡ none
    waits-released = ground arith

    links : SameLinks f (released_table f from)
    links = record { next = λ p. ground arith; first = λ p. ground arith }

    released-Status : (p : ℕ) → p < nr_slots → Status (released_table f from p)
    released-Status p h = elim (Bool-cases (p == from)) [
      | inl e ↦
          let (hf, w) = v.member who from hw inside in
          let (i, to) = waits-IsSending s.ipc from who (v.status from hf) w in
          rw e (
            idle (record {
              flags = refl;
              msg = refl;
              recvfrom = same.recvfrom from ∙ i.recvfrom;
              sendto = refl;
            }))
      | inr e ↦ rw e (
          Status-same (f p) (same.flags p) (same.msg p) (same.recvfrom p) (same.sendto p)
            (v.status p h))
    ]

    -- `from` is in no other queue.
    in_one_queue : (d : ℕ) → d < nr_slots → has from (q d) ≡ true → d ≡ who
    in_one_queue d h i = ground (arith, v.member d from h i, v.member who from hw inside)

    SameBut-released : SameBut (released_table s.ipc from) (released_table f from)
    SameBut-released = record {
      flags = λ p. ground (arith, same.flags p);
      msg = λ p. ground (arith, same.msg p);
      recvfrom = λ p. ground (arith, same.recvfrom p, same.recvfrom from);
      sendto = λ p. ground (arith, same.sendto p);
      int_msg = λ p. ground (arith, same.int_msg p, same.int_msg from);
    }

    released-Inv : Inv (released_table f from) (erase_at q who from)
    released-Inv = record {
      queues = Queues-SameLinks links qs;
      status = released-Status;
      member = λ d p h i. elim (Bool-cases (p == from)) [
        | inl e ↦ absurd (
            ground
              (arith, in_one_queue d h, has-erase_self from (q who) (v.queues.distinct who hw)))
        | inr e ↦
            let old = v.member d p h (ground (arith, has-erase_ne from p (q who))) in
            (old.0, waits-others p (ground arith) ∙ old.1)
      ];
      queued = λ p d h e. elim (Bool-cases (p == from)) [
        | inl i ↦ absurd (ground (arith, waits-released))
        | inr i ↦
            let old = v.queued p d h (ground (arith, waits-others p)) in
            (old.0, ground (arith, has-erase_ne from p (q who)))
      ];
      trail = λ p h. let (ys, u) = v.trail p h in Trail-cut from waits-released waits-others p ys u;
    }

  -- The message is copied, the sender leaves the queue and can run.
  pub take_message-released :
      IsFlat s
      → (from : ℕ) → has from (q who) ≡ true
      → (t : Kernel) × (take_message s who from (prev_of s.ipc who from (q who)) m ≡ ok t)
        × (t ≡ record s { ipc = t.ipc; mem = t.mem })
        × SameBut (released_table s.ipc from) t.ipc
        × (t.mem ≡ update s.mem (linear s who m) (s.mem (linear s from (s.ipc from).p_msg)))
        × Inv t.ipc (erase_at q who from)
  unfolding take_message
  take_message-released flat from h =
      let (prev, _, found, f, deq, same, qs) = dequeue-Queues s.ipc who from q v.queues hw h in
      let (hf, w) = v.member who from hw h in
      let (i, to) = waits-IsSending s.ipc from who (v.status from hf) w in
      let flags : (f from).p_flags ≡ sending = same.flags from ∙ i.flags in
      let msg : ((f from).p_msg == 0) ≡ false = ground (arith, same.msg from, i.msg) in
      let m_ne' : (m == 0) ≡ false = ground arith in
      (
        set_ipc
            (copy_message (record s { ipc = f }) (linear s who m) (linear s from (f from).p_msg))
            from (released (f from)),
        rw (
          ← found,
          deq,
          m_ne',
          msg,
          va2la-ok s who m flat,
          va2la-ok s from (f from).p_msg flat,
          flags,
        ),
        refl,
        SameBut-released from h f same qs,
        rw (same.msg from),
        released-Inv from h f same qs,
      )

  -- `schedule` finds a process once `who` is blocked.
  wakes :
      (src : ℕ)
      → Awake s who
      → (t : Kernel) × (schedule 2 (set_ipc s who (waiting_for (s.ipc who) src m)) ≡ ok t)
        × Chosen (set_ipc s who (waiting_for (s.ipc who) src m)) t
  wakes src awake = schedule-Chosen _ awake.other awake.slot (ground arith) awake.priority

  -- Nothing to receive: the caller blocks.
  pub wait_message-waiting :
      (src : ℕ)
      → Awake s who
      → src ≢ no_task
      → (s.ipc who).has_int_msg ≡ 0
      → (t : Kernel) × (wait_message s who src m ≡ ok t)
        × (t.ipc ≡ update s.ipc who (waiting_for (s.ipc who) src m))
        × Chosen (record s { ipc = t.ipc }) t
  unfolding wait_message block
  wait_message-waiting src awake ne quiet =
      let (t, sch, ch) = wakes src awake in
      let ipc : t.ipc ≡ update s.ipc who (waiting_for (s.ipc who) src m) = Chosen-ipc ch in
      let m_ne' : (m == 0) ≡ false = ground arith in
      let ne' : (src == no_task) ≡ false = ground arith in
      (
        t,
        rw (calls.flags, ==_refl who, sch, ipc, ==_refl who, m_ne', ne', calls.sendto, quiet),
        ipc,
        subst (λ g. Chosen (record s { ipc = g }) t) (sym ipc) ch,
      )

  -- With an interrupt pending the kernel stops at its last assertion.
  pub wait_message-stops :
      (src : ℕ)
      → Awake s who
      → src ≢ no_task
      → (s.ipc who).has_int_msg ≢ 0
      → wait_message s who src m ≡ fault assertion
  unfolding wait_message block
  wait_message-stops src awake ne pending =
      let (t, sch, ch) = wakes src awake in
      let ipc : t.ipc ≡ update s.ipc who (waiting_for (s.ipc who) src m) = Chosen-ipc ch in
      let m_ne' : (m == 0) ≡ false = ground arith in
      let ne' : (src == no_task) ≡ false = ground arith in
      let pending' : ((s.ipc who).has_int_msg == 0) ≡ false = ground arith in
      rw (calls.flags, ==_refl who, sch, ipc, ==_refl who, m_ne', ne', calls.sendto, pending')

  pub waiting-Inv :
      (src : ℕ) → src ≢ no_task → Inv (update s.ipc who (waiting_for (s.ipc who) src m)) q
  waiting-Inv src ne =
      Inv-SameLinks (record { next = λ p. ground arith; first = λ p. ground arith })
        (λ p. ground (arith, waits-none s.ipc who calls.flags)) status v
    where
      status : (p : ℕ) → p < nr_slots → Status (update s.ipc who (waiting_for (s.ipc who) src m) p)
      status p h = elim (Bool-cases (p == who)) [
        | inl e ↦ rw e (
            is_receiving
              (record { flags = refl; msg = m_ne; recvfrom = ne; sendto = calls.sendto }))
        | inr e ↦ rw e (v.status p h)
      ]

  pub receive_int-ok :
      IsFlat s
      → receive_int s who m
        ≡ ok (
            set_ipc
              (record s {
                mem =
                    update s.mem
                      (linear s who m)
                      (record reset_msg { source = interrupt; type = hard_int });
              })
              who
              (acked (s.ipc who)))
  unfolding receive_int
  receive_int-ok flat = ground (arith, va2la-ok s who m flat)

  pub receive_int-Inv : Inv (update s.ipc who (acked (s.ipc who))) q
  receive_int-Inv =
      Inv-SameLinks (record { next = λ p. ground arith; first = λ p. ground arith })
        (λ p. ground arith) status v
    where
      status : (p : ℕ) → p < nr_slots → Status (update s.ipc who (acked (s.ipc who)) p)
      status p h = elim (Bool-cases (p == who)) [
        | inl e ↦ rw e (
            idle (record {
              flags = calls.flags;
              msg = calls.msg;
              recvfrom = calls.recvfrom;
              sendto = calls.sendto;
            }))
        | inr e ↦ rw e (v.status p h)
      ]
