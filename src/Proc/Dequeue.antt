-- ===== src/Proc/Dequeue.antt =====
-- What taking a sender out of a sending queue does to the queues.
use osin32bits.Base.{
  ℕ, ◌<◌, ◌≡◌, refl, ◌≢◌, inl, inr, true, false, Option, none, some, ok, List, [], ◌∷◌, arith, ◌==◌,
  if◌then◌else◌, length, update, has, erase, Distinct, AllBelow, Bool-cases, length-le_of_Distinct,
  ==_refl, Distinct-erase, has-erase_self, has-erase_ne,
}
use osin32bits.Proc.Types.{nr_slots, Ipc}
use osin32bits.Proc.Ipc.{table_fuel, unlink, unlink_first, dequeue, find_prev}
use osin32bits.Proc.Chain.{
  next_of, Chain, Chain-frame, Chain-unlink, pred_in, has-pred_in, pred_in-ne, find_prev-pred_in,
}
use osin32bits.Proc.Queues.{Queues, SameBut}

AllBelow-erase : (n x : ℕ) (xs : List ℕ) → AllBelow n xs → AllBelow n (erase x xs)
AllBelow-erase n x [] a = tt
AllBelow-erase n x (y ∷ ys) a = elim (Bool-cases (x == y)) [
  | inl e ↦ rw e a.1
  | inr e ↦ rw e (a.0, AllBelow-erase n x ys a.1)
]

-- The queue of `who` without `from`.
abbrev pub erase_at : (ℕ → List ℕ) → (who from : ℕ) → ℕ → List ℕ
erase_at q who from = update q who (erase from (q who))

module _ (f : ℕ → Ipc) (who from : ℕ) where
  -- What stands before `from` in the queue.
  abbrev pub prev_of : List ℕ → Option ℕ
  prev_of [] = none
  prev_of (x ∷ xs) = if from == x then none else some (pred_in from x xs)

  abbrev removed : List ℕ → ℕ → Ipc
  removed [] = f
  removed (x ∷ xs) =
      if from == x then unlink_first f who from else unlink f from (pred_in from x xs)

  pub find_prev-prev_of :
      (xs : List ℕ)
      → Chain (next_of f) (f who).q_sending xs
      → has from xs ≡ true
      → length xs < table_fuel
      → find_prev table_fuel f from none (f who).q_sending ≡ some (prev_of xs)
  unfolding find_prev
  find_prev-prev_of [] c h l = cc
  find_prev-prev_of (x ∷ xs) c h l = elim (Bool-cases (from == x)) [
    | inl e ↦ let e' : (x == from) ≡ true = ground arith in rw (c.0, e, e')
    | inr e ↦
        let e' : (x == from) ≡ false = ground arith in
        rw (c.0, e, e') (find_prev-pred_in 37 f from x xs c.1 (ground arith) (omega arith))
  ]

  dequeue-removed :
      (xs : List ℕ)
      → Chain (next_of f) (f who).q_sending xs
      → has from xs ≡ true
      → dequeue f who from (prev_of xs) ≡ ok (removed xs)
  unfolding dequeue
  dequeue-removed [] c h = cc
  dequeue-removed (x ∷ xs) c h = elim (Bool-cases (from == x)) [
    | inl e ↦ let e' : (x == from) ≡ true = ground arith in rw (c.0, e, e')
    | inr e ↦ let e' : (x == from) ≡ false = ground arith in rw (c.0, e, e')
  ]

  SameBut-unlink : (p : ℕ) → SameBut f (unlink f from p)
  unfolding unlink
  SameBut-unlink p = grind arith

  SameBut-unlink_first : SameBut f (unlink_first f who from)
  unfolding unlink_first
  SameBut-unlink_first = grind arith

  SameBut-removed : (xs : List ℕ) → SameBut f (removed xs)
  SameBut-removed [] = grind arith
  SameBut-removed (x ∷ xs) = elim (Bool-cases (from == x)) [
    | inl e ↦ rw e SameBut-unlink_first
    | inr e ↦ rw e (SameBut-unlink (pred_in from x xs))
  ]

  removed-Chain :
      (xs : List ℕ)
      → Chain (next_of f) (f who).q_sending xs
      → Distinct xs
      → has from xs ≡ true
      → Chain (next_of (removed xs)) (removed xs who).q_sending (erase from xs)
  unfolding unlink unlink_first
  removed-Chain [] c d h = cc
  removed-Chain (x ∷ xs) c d h = elim (Bool-cases (from == x)) [
    | inl e ↦
        let head : (unlink_first f who from who).q_sending ≡ next_of f x = ground arith in
        rw (e, head)
          (Chain-frame (next_of f) (next_of (unlink_first f who from)) (next_of f x) xs
            (λ y g. ground arith) c.1)
    | inr e ↦
        let head : (unlink f from (pred_in from x xs) who).q_sending ≡ some x = ground arith in
        rw e (
          head,
          Chain-unlink (next_of f) (next_of (unlink f from (pred_in from x xs))) from x xs
              (ground arith) d (ground (arith, pred_in-ne from x xs)) (λ y g n o. ground arith) c.1,
        )
  ]

  removed-other :
      (xs ys : List ℕ) (d : ℕ)
      → d ≢ who
      → ((y : ℕ) → has y ys ≡ true → has y xs ≡ false)
      → has from xs ≡ true
      → Chain (next_of f) (f d).q_sending ys
      → Chain (next_of (removed xs)) (removed xs d).q_sending ys
  unfolding unlink unlink_first
  removed-other [] ys d ne out h c = cc
  removed-other (x ∷ xs) ys d ne out h c = rw head (
      Chain-frame (next_of f) (next_of (removed (x ∷ xs))) (f d).q_sending ys
        (λ y g. ground (arith, has-pred_in from x xs, out y)) c)
    where
      head : (removed (x ∷ xs) d).q_sending ≡ (f d).q_sending
      head = ground arith

  module _ (q : ℕ → List ℕ) (v : Queues f q) (hw : who < nr_slots)
      (inside : has from (q who) ≡ true) where
    removed-Queues : Queues (removed (q who)) (erase_at q who from)
    removed-Queues = record {
      chain = λ d h. elim (Bool-cases (d == who)) [
        | inl e ↦
            let e' : d ≡ who = ground arith in
            rw (e', ==_refl) (removed-Chain (q who) (v.chain who hw) (v.distinct who hw) inside)
        | inr e ↦ rw e (
            removed-other (q who) (q d) d (ground arith)
              (λ y g. ground (arith, v.apart d who y h hw)) inside (v.chain d h))
      ];
      distinct = λ d h. elim (Bool-cases (d == who)) [
        | inl e ↦ rw e (Distinct-erase from (q who) (v.distinct who hw))
        | inr e ↦ rw e (v.distinct d h)
      ];
      below = λ d h. elim (Bool-cases (d == who)) [
        | inl e ↦ rw e (AllBelow-erase nr_slots from (q who) (v.below who hw))
        | inr e ↦ rw e (v.below d h)
      ];
      apart = λ d e p h g i j. ground (
        arith,
        has-erase_ne from p (q who),
        has-erase_self from (q who) (v.distinct who hw),
        v.apart d e p h g,
        v.apart d who p h hw,
        v.apart e who p g hw,
      );
    }

    queue_length : length (q who) < table_fuel
    queue_length =
        omega (arith, length-le_of_Distinct nr_slots (q who) (v.distinct who hw) (v.below who hw))

    -- The walk finds the predecessor of `from`, and `from` leaves the queue of `who`.
    pub dequeue-Queues :
        (prev : Option ℕ) × (find_prev table_fuel f from none (f who).q_sending ≡ some prev)
        × (prev ≡ prev_of (q who))
        × (f' : ℕ → Ipc) × (dequeue f who from prev ≡ ok f')
        × SameBut f f'
        × Queues f' (erase_at q who from)
    dequeue-Queues = (
      prev_of (q who),
      find_prev-prev_of (q who) (v.chain who hw) inside queue_length,
      refl,
      removed (q who),
      dequeue-removed (q who) (v.chain who hw) inside,
      SameBut-removed (q who),
      removed-Queues,
    )
