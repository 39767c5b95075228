-- ===== src/Proc/Queues.antt =====
-- The sending queues as lists, and what appending and removing do to them.
use osin32bits.Base.{
  ℕ, ◌<◌, ◌≡◌, refl, ◌≢◌, inl, inr, true, false, some, ok, List, [], ◌∷◌, ◌++◌, arith, ◌==◌, length,
  update, has, Distinct, AllBelow, Bool-cases, length-le_of_Distinct, has-snoc, Distinct-snoc,
  ==_refl, finished,
}
use osin32bits.Proc.Types.{nr_slots, Ipc}
use osin32bits.Proc.Ipc.{table_fuel, clear_next, append_sender}
use osin32bits.Proc.Chain.{
  next_of, Chain, Chain-frame, Chain-snoc, last, has-last, last_sending-last,
}

-- `q d` lists the processes in the sending queue of `d`.
pub record Queues (f : ℕ → Ipc) (q : ℕ → List ℕ) : Type 0 where
  pub chain : (d : ℕ) → d < nr_slots → Chain (next_of f) (f d).q_sending (q d)
  pub distinct : (d : ℕ) → d < nr_slots → Distinct (q d)
  pub below : (d : ℕ) → d < nr_slots → AllBelow nr_slots (q d)
  pub apart :
      (d e p : ℕ) → d < nr_slots → e < nr_slots → has p (q d) ≡ true → has p (q e) ≡ true → d ≡ e

-- The fields of a process that queues do not use.
pub record SameBut (f f' : ℕ → Ipc) : Type 0 where
  pub flags : (p : ℕ) → (f' p).p_flags ≡ (f p).p_flags
  pub msg : (p : ℕ) → (f' p).p_msg ≡ (f p).p_msg
  pub recvfrom : (p : ℕ) → (f' p).p_recvfrom ≡ (f p).p_recvfrom
  pub sendto : (p : ℕ) → (f' p).p_sendto ≡ (f p).p_sendto
  pub int_msg : (p : ℕ) → (f' p).has_int_msg ≡ (f p).has_int_msg

AllBelow-snoc : (n x : ℕ) (xs : List ℕ) → AllBelow n xs → x < n → AllBelow n (xs ++ x ∷ [])
AllBelow-snoc n x [] a h = (h, tt)
AllBelow-snoc n x (y ∷ ys) a h = (a.0, AllBelow-snoc n x ys a.1 h)

abbrev pub snoc_at : (ℕ → List ℕ) → (dest sender : ℕ) → ℕ → List ℕ
snoc_at q dest sender = update q dest (q dest ++ sender ∷ [])

module _ (f : ℕ → Ipc) (sender dest : ℕ) where
  -- The table after the append, by the contents of the queue before it.
  abbrev appended : List ℕ → ℕ → Ipc
  appended [] = clear_next (update f dest (record (f dest) { q_sending = some sender })) sender
  appended (x ∷ xs) =
      clear_next (update f (last x xs) (record (f (last x xs)) { next_sending = some sender }))
        sender

  append_sender-appended :
      (xs : List ℕ)
      → Chain (next_of f) (f dest).q_sending xs
      → length xs < table_fuel
      → append_sender f sender dest ≡ ok (appended xs)
  unfolding append_sender
  append_sender-appended [] c h = rw (c, append_sender)
  append_sender-appended (x ∷ xs) c h =
      rw (c.0, append_sender)
        (rw (last_sending-last table_fuel f x xs c.1 (omega arith), finished) refl)

  SameBut-appended : (xs : List ℕ) → SameBut f (appended xs)
  SameBut-appended [] = grind arith
  SameBut-appended (x ∷ xs) = grind arith

  -- The queue of `dest`.
  appended-Chain :
      (xs : List ℕ)
      → Chain (next_of f) (f dest).q_sending xs
      → Distinct xs
      → has sender xs ≡ false
      → Chain (next_of (appended xs)) (appended xs dest).q_sending (xs ++ sender ∷ [])
  appended-Chain [] c d h = (ground arith, ground arith)
  appended-Chain (x ∷ xs) c d h = rw head (
      Chain-snoc (next_of f) (next_of (appended (x ∷ xs))) (f dest).q_sending x xs sender
        (ground (arith, has-last x xs)) (ground arith) (λ y g n. ground arith) d c)
    where
      head : (appended (x ∷ xs) dest).q_sending ≡ (f dest).q_sending
      head = ground arith

  -- Another queue.
  appended-other :
      (xs ys : List ℕ) (d : ℕ)
      → d ≢ dest
      → ((y : ℕ) → has y ys ≡ true → has y xs ≡ false)
      → has sender ys ≡ false
      → Chain (next_of f) (f d).q_sending ys
      → Chain (next_of (appended xs)) (appended xs d).q_sending ys
  appended-other [] ys d ne out h c =
      rw head
        (Chain-frame (next_of f) (next_of (appended [])) (f d).q_sending ys (λ y g. ground arith) c)
    where
      head : (appended [] d).q_sending ≡ (f d).q_sending
      head = ground arith
  appended-other (x ∷ xs) ys d ne out h c = rw head (
      Chain-frame (next_of f) (next_of (appended (x ∷ xs))) (f d).q_sending ys
        (λ y g. ground (arith, has-last x xs, out y)) c)
    where
      head : (appended (x ∷ xs) d).q_sending ≡ (f d).q_sending
      head = ground arith

  module _ (q : ℕ → List ℕ) (v : Queues f q) (hs : sender < nr_slots) (hd : dest < nr_slots)
      (out : (d : ℕ) → d < nr_slots → has sender (q d) ≡ false) where
    appended-Queues : Queues (appended (q dest)) (snoc_at q dest sender)
    appended-Queues = record {
      chain = λ d h. elim (Bool-cases (d == dest)) [
        | inl e ↦
            let e' : d ≡ dest = ground arith in
            rw (e', ==_refl)
              (appended-Chain (q dest) (v.chain dest hd) (v.distinct dest hd) (out dest hd))
        | inr e ↦ rw e (
            appended-other (q dest) (q d) d (ground arith)
              (λ y g. ground (arith, v.apart d dest y h hd)) (out d h) (v.chain d h))
      ];
      distinct = λ d h. elim (Bool-cases (d == dest)) [
        | inl e ↦ rw e (Distinct-snoc sender (q dest) (v.distinct dest hd) (out dest hd))
        | inr e ↦ rw e (v.distinct d h)
      ];
      below = λ d h. elim (Bool-cases (d == dest)) [
        | inl e ↦ rw e (AllBelow-snoc nr_slots sender (q dest) (v.below dest hd) hs)
        | inr e ↦ rw e (v.below d h)
      ];
      apart = λ d e p h g i j. ground (
        arith,
        has-snoc p sender (q dest),
        v.apart d e p h g,
        v.apart d dest p h hd,
        v.apart e dest p g hd,
        out d h,
        out e g,
      );
    }

    pub append_sender-Queues :
        (f' : ℕ → Ipc) × (append_sender f sender dest ≡ ok f')
        × SameBut f f'
        × Queues f' (snoc_at q dest sender)
    append_sender-Queues = (
      appended (q dest),
      append_sender-appended (q dest) (v.chain dest hd) (
          omega (
            arith,
            length-le_of_Distinct nr_slots (q dest) (v.distinct dest hd) (v.below dest hd),
          )),
      SameBut-appended (q dest),
      appended-Queues,
    )
