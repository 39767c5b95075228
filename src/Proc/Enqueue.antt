-- ===== src/Proc/Enqueue.antt =====
-- kernel/proc.c: the parts of `msg_send`.
use osin32bits.Base.{
  subst, sym, ℕ, ◌<◌, ◌≡◌, refl, ◌≢◌, inl, inr, true, false, some, ok, List, ◌∙◌, arith, ◌==◌,
  length, update, has, Bool-cases, finished, has-snoc,
}
use osin32bits.Proc.Types.{nr_slots, sending, no_task, Ipc, Kernel, copy_message, set_ipc}
use osin32bits.Proc.Schedule.Choice.{Chosen, schedule-Chosen, Chosen-ipc}
use osin32bits.Proc.Ipc.{table_fuel, block, deadlock, deliver, enqueue}
use osin32bits.Proc.Waits.{
  waits, Trail, Trail-length, Trail-add, deadlock_loop-Trail, print_chain-ok,
}
use osin32bits.Proc.Queues.{Queues, SameBut, snoc_at, append_sender-Queues}
use osin32bits.Proc.Inv.{
  Idle, IsReceiving, Status, idle, is_sending, Inv, IsFlat, linear, va2la-ok, SameLinks,
  Queues-SameLinks, Status-same, Inv-SameLinks,
}
use osin32bits.Proc.Blocking.{Awake, served, blocked_table, waits-none, waits-msg}

module _ (s : Kernel) (q : ℕ → List ℕ) (v : Inv s.ipc q) (sender dest m : ℕ)
    (hs : sender < nr_slots) (hd : dest < nr_slots) (ne : sender ≢ dest)
    (calls : Idle (s.ipc sender)) (m_ne : m ≢ 0) where
  pub deadlock-Trail :
      (xs : List ℕ) → Trail (waits s.ipc) dest xs → deadlock s.ipc sender dest ≡ ok (has sender xs)
  unfolding deadlock
  deadlock-Trail xs t =
      rw (deadlock_loop-Trail s.ipc sender table_fuel dest xs t short, finished)
        (elim (Bool-cases (has sender xs)) [
          | inl e ↦
              rw (e, print_chain-ok s.ipc sender nr_slots table_fuel dest xs t full hd e short)
          | inr e ↦ rw e
        ])
    where
      full :
          (a d : ℕ) → a < nr_slots → waits s.ipc a ≡ some d → (d < nr_slots) × ((s.ipc a).p_msg ≢ 0)
      full a d h e = ((v.queued a d h e).0, waits-msg s.ipc a d (v.status a h) e)

      short : length xs < table_fuel
      short = omega (
        arith,
        Trail-length (waits s.ipc) nr_slots dest xs (λ a d h e. (v.queued a d h e).0) hd t,
      )

  pub deliver-served :
      IsFlat s
      → IsReceiving (s.ipc dest)
      → deliver s sender dest m
        ≡ ok (
            set_ipc
              (copy_message s (linear s dest (s.ipc dest).p_msg) (linear s sender m))
              dest
              (served (s.ipc dest)))
  unfolding deliver
  deliver-served flat r =
      ground (arith, va2la-ok s dest (s.ipc dest).p_msg flat, va2la-ok s sender m flat)

  pub served-Inv : IsReceiving (s.ipc dest) → Inv (update s.ipc dest (served (s.ipc dest))) q
  served-Inv r =
      Inv-SameLinks (record { next = λ p. ground arith; first = λ p. ground arith })
        (λ p. ground arith) status v
    where
      status : (p : ℕ) → p < nr_slots → Status (update s.ipc dest (served (s.ipc dest)) p)
      status p h = elim (Bool-cases (p == dest)) [
        | inl e ↦ rw e (idle (ground arith))
        | inr e ↦ rw e (v.status p h)
      ]

  pub enqueue-appended :
      Awake s sender
      → (t : Kernel) × (enqueue s sender dest m ≡ ok t)
        × SameBut (blocked_table s.ipc sender dest m) t.ipc
        × Queues t.ipc (snoc_at q dest sender)
        × Chosen (record s { ipc = t.ipc }) t
  unfolding enqueue block
  enqueue-appended awake =
      let (f', e, same, qs) =
        append_sender-Queues (blocked_table s.ipc sender dest m) sender dest q
          (Queues-SameLinks links v.queues) hs hd out in
      let (t, sch, ch) =
        schedule-Chosen (record s { ipc = f' }) awake.other awake.slot
          (ground (arith, same.flags awake.other)) awake.priority in
      let ipc : t.ipc ≡ f' = Chosen-ipc ch in
      let flags : (f' sender).p_flags ≡ sending = ground (arith, same.flags sender) in
      let msg : ((f' sender).p_msg == 0) ≡ false = ground (arith, same.msg sender) in
      let recvfrom : (f' sender).p_recvfrom ≡ no_task =
        ground (arith, same.recvfrom sender, calls.recvfrom) in
      let sendto : ((f' sender).p_sendto == dest) ≡ true = ground (arith, same.sendto sender) in
      (
        t,
        rw (calls.flags, e, flags, sch, ipc, flags, msg, recvfrom, sendto),
        rw ipc same,
        rw ipc qs,
        subst (λ g. Chosen (record s { ipc = g }) t) (sym {a = t.ipc} ipc) ch,
      )
    where
      links : SameLinks s.ipc (blocked_table s.ipc sender dest m)
      links = record { next = λ p. ground arith; first = λ p. ground arith }

      out : (d : ℕ) → d < nr_slots → has sender (q d) ≡ false
      out d h = ground (arith, v.member d sender h, waits-none s.ipc sender calls.flags)

  module _ (f : ℕ → Ipc) (same : SameBut (blocked_table s.ipc sender dest m) f)
      (qs : Queues f (snoc_at q dest sender)) where
    waits-blocked : waits f sender ≡ some dest
    waits-blocked = ground (arith, same.flags sender, same.sendto sender)

    waits-others : (p : ℕ) → p ≢ sender → waits f p ≡ waits s.ipc p
    waits-others p n = ground (arith, same.flags p, same.sendto p)

    out_of_queues : (d : ℕ) → d < nr_slots → has sender (q d) ≡ false
    out_of_queues d h = ground (arith, v.member d sender h, waits-none s.ipc sender calls.flags)

    blocked-Status : (p : ℕ) → p < nr_slots → Status (blocked_table s.ipc sender dest m p)
    blocked-Status p h = elim (Bool-cases (p == sender)) [
      | inl e ↦ rw e (is_sending (record { flags = refl; msg = m_ne; recvfrom = calls.recvfrom }))
      | inr e ↦ rw e (v.status p h)
    ]

    pub blocked-Inv :
        (xs : List ℕ)
        → Trail (waits s.ipc) dest xs
        → has sender xs ≡ false
        → Inv f (snoc_at q dest sender)
    blocked-Inv xs t free = record {
      queues = qs;
      status = λ p h.
          Status-same (f p) (same.flags p) (same.msg p) (same.recvfrom p) (same.sendto p)
            (blocked-Status p h);
      member = λ d p h i. elim (Bool-cases (p == sender)) [
        | inl e ↦ (ground arith, ground (arith, waits-blocked, out_of_queues d h))
        | inr e ↦
            let old = v.member d p h (ground (arith, has-snoc p sender (q dest))) in
            (old.0, waits-others p (ground arith) ∙ old.1)
      ];
      queued = λ p d h e. elim (Bool-cases (p == sender)) [
        | inl i ↦ (
          ground (arith, waits-blocked),
          ground (arith, waits-blocked, has-snoc p sender (q dest)),
        )
        | inr i ↦
            let old = v.queued p d h (ground (arith, waits-others p)) in
            (old.0, ground (arith, has-snoc p sender (q dest)))
      ];
      trail = λ p h.
          let (ys, u) = v.trail p h in
          Trail-add sender dest (waits-none s.ipc sender calls.flags) waits-blocked waits-others xs
            t (ground arith) p ys u;
    }
