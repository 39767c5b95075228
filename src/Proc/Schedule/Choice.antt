-- ===== src/Proc/Schedule/Choice.antt =====
-- What `schedule` chooses, and when it comes to an end.
use osin32bits.Base.{
  ℕ, zero, suc, ◌+◌, ◌≤◌, ◌<◌, ◌≡◌, refl, ◌⊎◌, inl, inr, true, false, ◌&&◌, ok, fault, out_of_fuel,
  arith, leb, ltb, update, if◌then◌else◌, ==_ne, Bool-cases, ◌∙◌, ap,
}
use osin32bits.Proc.Types.{nr_slots, Ipc, Sched, Kernel}
use osin32bits.Proc.Schedule.{runnable, pick, refill, schedule}

module _ (ipc : ℕ → Ipc) (sched : ℕ → Sched) where
  -- `r` is a process of the slots from `i` up to `i + n` that can run, and `g` its ticks.
  record Found (n i g r : ℕ) : Type 0 where
    low : i ≤ r
    high : r < i + n
    runs : runnable (ipc r) ≡ true
    its : (sched r).ticks ≡ g

  pick_mono : (n i g r : ℕ) → g ≤ (pick ipc sched n i (g, r)).0
  unfolding pick
  pick_mono zero i g r = omega arith
  pick_mono (suc n) i g r = elim (Bool-cases (runnable (ipc i) && ltb g (sched i).ticks)) [
    | inl e ↦ rw (e, pick) (ground (arith, pick_mono n (i + 1) (sched i).ticks i))
    | inr e ↦ rw (e, pick) (pick_mono n (i + 1) g r)
  ]

  pick-max :
      (n i g r j : ℕ)
      → i ≤ j
      → j < i + n
      → runnable (ipc j) ≡ true
      → (sched j).ticks ≤ (pick ipc sched n i (g, r)).0
  unfolding pick
  pick-max zero i g r j a b h = absurd (omega arith)
  pick-max (suc n) i g r j a b h = elim (Bool-cases (runnable (ipc i) && ltb g (sched i).ticks)) [
    | inl e ↦
        rw (e, pick)
          (ground
            (arith, pick_mono n (i + 1) (sched i).ticks i, pick-max n (i + 1) (sched i).ticks i j))
    | inr e ↦ rw (e, pick) (ground (arith, pick_mono n (i + 1) g r, pick-max n (i + 1) g r j))
  ]

  Found-suc : {n i g r : ℕ} → Found n (i + 1) g r → Found (suc n) i g r
  Found-suc f = record {
    low = omega (arith, f.low);
    high = omega (arith, f.high);
    runs = f.runs;
    its = f.its;
  }

  Found-here : {n i : ℕ} → runnable (ipc i) ≡ true → Found (suc n) i (sched i).ticks i
  Found-here h = record { low = omega arith; high = omega arith; runs = h; its = refl }

  -- Either nothing beats what was found before, or the result is a better process of the range.
  abbrev Better : (n i g r : ℕ) → ℕ × ℕ → Type 0
  Better n i g r best = (best ≡ (g, r)) ⊎ ((g < best.0) × Found n i best.0 best.1)

  Better-skip : {n i g r : ℕ} {best : ℕ × ℕ} → Better n (i + 1) g r best → Better (suc n) i g r best
  Better-skip (inl same) = inl same
  Better-skip (inr (more, f)) = inr (more, Found-suc f)

  Better-take :
      {n i g r : ℕ} {best : ℕ × ℕ}
      → runnable (ipc i) ≡ true
      → g < (sched i).ticks
      → Better n (i + 1) (sched i).ticks i best
      → Better (suc n) i g r best
  Better-take run more (inl same) = rw same (inr (more, Found-here run))
  Better-take run more (inr (less, f)) = inr (omega arith, Found-suc f)

  pick-Better : (n i g r : ℕ) → Better n i g r (pick ipc sched n i (g, r))
  unfolding pick
  pick-Better zero i g r = inl refl
  pick-Better (suc n) i g r = elim (Bool-cases (runnable (ipc i) && ltb g (sched i).ticks)) [
    | inl e ↦
        rw (e, pick)
          (Better-take (ground arith) (ground arith) (pick-Better n (i + 1) (sched i).ticks i))
    | inr e ↦ rw (e, pick) (Better-skip (pick-Better n (i + 1) g r))
  ]

refill_lem :
    (ipc : ℕ → Ipc) (n i : ℕ) (sched : ℕ → Sched) (j : ℕ)
    → refill ipc n i sched j ≡ (
        if leb i j && (ltb j (i + n) && runnable (ipc j))
        then record (sched j) { ticks = (sched j).priority }
        else sched j)
unfolding refill
refill_lem ipc zero i sched j = ground arith
refill_lem ipc (suc n) i sched j = ground (
  arith,
  refill_lem ipc n (i + 1)
      (if runnable (ipc i)
        then update sched i (record (sched i) { ticks = (sched i).priority })
        else sched)
      j,
)

-- What `schedule` leaves behind: only ticks and `p_proc_ready` change; the process that is ready
-- can run, has ticks left, and none that can run has more.
pub record Chosen (s t : Kernel) : Type 0 where
  pub same : t ≡ record s { sched = t.sched; p_proc_ready = t.p_proc_ready }
  pub slot : t.p_proc_ready < nr_slots
  pub runs : runnable (s.ipc t.p_proc_ready) ≡ true
  pub some_left : 0 < (t.sched t.p_proc_ready).ticks
  pub most :
      (j : ℕ)
      → j < nr_slots
      → runnable (s.ipc j) ≡ true
      → (t.sched j).ticks ≤ (t.sched t.p_proc_ready).ticks
  pub priorities : (j : ℕ) → (t.sched j).priority ≡ (s.sched j).priority

-- The first round ends the search, if some process that can run has ticks left.
first_round :
    (fuel : ℕ) (s : Kernel) (j : ℕ)
    → j < nr_slots
    → runnable (s.ipc j) ≡ true
    → 0 < (s.sched j).ticks
    → (t : Kernel) × (schedule (suc fuel) s ≡ ok t) × Chosen s t × (t.sched ≡ s.sched)
unfolding schedule
first_round fuel s j h run left =
    let best = pick s.ipc s.sched nr_slots 0 (0, s.p_proc_ready) in
    let top : (s.sched j).ticks ≤ best.0 =
      pick-max s.ipc s.sched nr_slots 0 0 s.p_proc_ready j (omega arith) (omega arith) run in
    elim (pick-Better s.ipc s.sched nr_slots 0 0 s.p_proc_ready) [
      | inl same ↦ absurd (ground arith)
      | inr (more, f) ↦ (
        record s { p_proc_ready = best.1 },
        rw (==_ne best.0 0 (omega arith)),
        record {
          same = refl;
          slot = omega (arith, f.high);
          runs = f.runs;
          some_left = omega (arith, f.its);
          most = λ k hk runs.
              ground (arith, f.its, pick-max s.ipc s.sched nr_slots 0 0 s.p_proc_ready k);
          priorities = λ j. refl;
        },
        refl,
      )
    ]

-- The state in which a round that finds no ticks leaves the next one.
abbrev next_round : Kernel → Kernel
next_round s = record s {
  sched = refill s.ipc nr_slots 0 s.sched;
  p_proc_ready = (pick s.ipc s.sched nr_slots 0 (0, s.p_proc_ready)).1;
}

schedule-suc :
    (fuel : ℕ) (s : Kernel)
    → pick s.ipc s.sched nr_slots 0 (0, s.p_proc_ready) ≡ (0, s.p_proc_ready)
    → schedule (suc fuel) s ≡ schedule fuel (next_round s)
unfolding schedule
schedule-suc fuel s e = rw e

refill-priority :
    (ipc : ℕ → Ipc) (n i : ℕ) (sched : ℕ → Sched) (j : ℕ)
    → (refill ipc n i sched j).priority ≡ (sched j).priority
refill-priority ipc n i sched j = ground (arith, refill_lem ipc n i sched j)

refill-ticks :
    (ipc : ℕ → Ipc) (sched : ℕ → Sched) (j : ℕ)
    → j < nr_slots
    → runnable (ipc j) ≡ true
    → (refill ipc nr_slots 0 sched j).ticks ≡ (sched j).priority
refill-ticks ipc sched j h run = ground (arith, refill_lem ipc nr_slots 0 sched j)

-- If some process can run and has a positive priority, `schedule` ends within two rounds, and
-- chooses a process that can run, as `Chosen` says.
pub schedule-Chosen :
    (s : Kernel) (j : ℕ)
    → j < nr_slots
    → runnable (s.ipc j) ≡ true
    → 0 < (s.sched j).priority
    → (t : Kernel) × (schedule 2 s ≡ ok t) × Chosen s t
schedule-Chosen s j h run prio = elim (pick-Better s.ipc s.sched nr_slots 0 0 s.p_proc_ready) [
  | inr (more, f) ↦
      let (t, e, c, _) =
        first_round 1 s (pick s.ipc s.sched nr_slots 0 (0, s.p_proc_ready)).1
          (omega (arith, f.high)) f.runs (omega (arith, f.its)) in
      (t, e, c)
  | inl same ↦
      let (t, e, c, _) =
        first_round 0 (next_round s) j h run (omega (arith, refill-ticks s.ipc s.sched j h run)) in
      (
        t,
        schedule-suc 1 s same ∙ e,
        record {
          same = c.same;
          slot = c.slot;
          runs = c.runs;
          some_left = c.some_left;
          most = c.most;
          priorities = λ k. c.priorities k ∙ refill-priority s.ipc nr_slots 0 s.sched k;
        },
      )
]

-- If no process of the table can run, no number of rounds ends the loop: it would wait for an interrupt.
-- `Init`, which can always run, keeps this from happening.
pub schedule-stuck :
    (fuel : ℕ) (s : Kernel)
    → ((j : ℕ) → j < nr_slots → runnable (s.ipc j) ≡ false)
    → schedule fuel s ≡ fault out_of_fuel
unfolding schedule
schedule-stuck zero s h = refl
schedule-stuck (suc fuel) s h = elim (pick-Better s.ipc s.sched nr_slots 0 0 s.p_proc_ready) [
  | inr (more, f) ↦
      cc (h (pick s.ipc s.sched nr_slots 0 (0, s.p_proc_ready)).1 (omega (arith, f.high)), f.runs)
  | inl same ↦ rw same (schedule-stuck fuel _ h)
]

pub Chosen-ipc : {s t : Kernel} → Chosen s t → t.ipc ≡ s.ipc
Chosen-ipc c = ap (λ (k : Kernel). k.ipc) c.same

pub Chosen-mem : {s t : Kernel} → Chosen s t → t.mem ≡ s.mem
Chosen-mem c = ap (λ (k : Kernel). k.mem) c.same

pub Chosen-ldt_rw : {s t : Kernel} → Chosen s t → t.ldt_rw ≡ s.ldt_rw
Chosen-ldt_rw c = ap (λ (k : Kernel). k.ldt_rw) c.same
