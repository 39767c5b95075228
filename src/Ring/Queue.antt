-- ===== src/Ring/Queue.antt =====
-- The ring buffers are bounded queues.
use osin32bits.Base.{
  ℕ, zero, suc, ◌+◌, ◌-◌, ◌≤◌, ◌<◌, ◌≡◌, refl, inl, inr, false, List, [], ◌∷◌, ◌++◌, arith, ◌==◌,
  ltb, update, if◌then◌else◌, Bool-cases, length, ap,
}
use osin32bits.Ring.{Ring, bump, put, take}

-- The slot `k` places after `i`.
abbrev pub after : (size i k : ℕ) → ℕ
after size i k = if ltb (i + k) size then i + k else i + k - size

-- The `k` entries from the slot `i` on, the oldest first.
abbrev pub entries : (size : ℕ) → (ℕ → ℕ) → (k i : ℕ) → List ℕ
entries size buf zero i = []
entries size buf (suc k) i = buf i ∷ entries size buf k (bump size i)

-- The queue that a ring stands for.
abbrev pub queue_of : ℕ → Ring → List ℕ
queue_of size r = entries size r.buf r.count r.tail

pub record IsRing (size : ℕ) (r : Ring) : Type 0 where
  pub some_slot : 0 < size
  pub tail : r.tail < size
  pub count : r.count ≤ size
  pub head : r.head ≡ after size r.tail r.count

pub length-entries : (size : ℕ) (buf : ℕ → ℕ) (k i : ℕ) → length (entries size buf k i) ≡ k
length-entries size buf zero i = refl
length-entries size buf (suc k) i = ap suc (length-entries size buf k (bump size i))

after-bump :
    (size i k : ℕ) → i < size → k < size → after size (bump size i) k ≡ after size i (suc k)
after-bump size i k h g = ground arith

bump-lt : (size i : ℕ) → i < size → bump size i < size
bump-lt size i h = ground arith

-- A write to a slot that holds no entry.
entries-update :
    (size : ℕ) (buf : ℕ → ℕ) (x k n i j : ℕ)
    → i < size
    → k + n < size
    → j ≡ after size i (k + n)
    → entries size (update buf j x) k i ≡ entries size buf k i
entries-update size buf x zero n i j h g e = refl
entries-update size buf x (suc k) n i j h g e =
    let here : (i == j) ≡ false = ground arith in
    rw (
      here,
      entries-update size buf x k n (bump size i) j (bump-lt size i h) (omega arith) (ground arith),
    )

entries-put :
    (size : ℕ) (buf : ℕ → ℕ) (x k i j : ℕ)
    → i < size
    → k < size
    → j ≡ after size i k
    → entries size (update buf j x) (suc k) i ≡ entries size buf k i ++ x ∷ []
entries-put size buf x zero i j h g e = ground arith
entries-put size buf x (suc k) i j h g e =
    let here : (i == j) ≡ false = ground arith in
    rw (
      here,
      entries-put size buf x k (bump size i) j (bump-lt size i h) (omega arith) (ground arith),
    )

entries-first :
    (size : ℕ) (buf : ℕ → ℕ) (k i : ℕ)
    → 0 < k
    → entries size buf k i ≡ buf i ∷ entries size buf (k - 1) (bump size i)
entries-first size buf zero i h = absurd (omega arith)
entries-first size buf (suc k) i h = let back : suc k - 1 ≡ k = omega arith in rw back

pub take-count : (size : ℕ) (r : Ring) → (take size r).1.count ≡ r.count - 1
unfolding take
take-count size r = refl

module _ (size : ℕ) (r : Ring) (v : IsRing size r) where
  pub put-IsRing : (x : ℕ) → IsRing size (put size r x)
  unfolding put
  put-IsRing x = elim (Bool-cases (ltb r.count size)) [
    | inl e ↦ rw e (record {
      some_slot = v.some_slot;
      tail = v.tail;
      count = ground arith;
      head = ground (arith, v.head, v.tail);
    })
    | inr e ↦ rw e v
  ]

  -- For a ring that is well formed, a write appends to the queue that it stands for, or changes
  -- nothing if the queue is full.
  pub put-queue_of :
      (x : ℕ)
      → queue_of size (put size r x) ≡ (
          if ltb (length (queue_of size r)) size
          then queue_of size r ++ x ∷ []
          else queue_of size r)
  unfolding put
  put-queue_of x =
      rw (length-entries size r.buf r.count r.tail) (elim (Bool-cases (ltb r.count size)) [
        | inl e ↦ rw e (entries-put size r.buf x r.count r.tail r.head v.tail (ground arith) v.head)
        | inr e ↦ rw e
      ])

  -- For a ring that is well formed and not empty, a read gives the first of the queue and leaves
  -- the rest, in a ring that is well formed.
  pub take-queue_of :
      0 < r.count
      → (IsRing size (take size r).1)
        × (queue_of size r ≡ (take size r).0 ∷ queue_of size (take size r).1)
  unfolding take
  take-queue_of h = (
    record {
      some_slot = v.some_slot;
      tail = bump-lt size r.tail v.tail;
      count = omega (arith, v.count);
      head = ground (arith, v.head, v.tail, v.count);
    },
    entries-first size r.buf r.count r.tail h,
  )
