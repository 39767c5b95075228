-- ===== src/Fs/Create/Free.antt =====
-- fs/open.c `new_dir_entry`: the place that it finds for an entry.
use osin32bits.Base.{
  ℕ, zero, suc, ◌+◌, ◌-◌, ◌*◌, ◌/◌, ◌%◌, ◌≤◌, ◌<◌, ◌≡◌, refl, ap, sym, ◌∙◌, true, false, inl, inr,
  arith, ◌==◌, ltb, if◌then◌else◌, Bool-cases,
}
use osin32bits.Fs.Types.{sector_size, dir_entry_size, Fs}
use osin32bits.Fs.Sectors.{
  rd_sect, rd_sect-bytes, SameButBuffer, SameButBuffer-trans, rd_sect-SameButBuffer,
}
use osin32bits.Fs.Path.{entry_inode_nr}
use osin32bits.Fs.Path.Entries.{entry_place, entry_inode_nr-sector}
use osin32bits.Fs.Create.{Spot, free_entry, past_end, no_spot, entry_spot, Place, dir_spot}

-- The first of the `n` entries from `e` on without an inode, or the one behind them.
unfoldable pub first_free : (d : ℕ → ℕ) → (blk n e : ℕ) → ℕ
first_free d blk zero e = e
first_free d blk (suc n) e =
    let next = first_free d blk n (e + 1) in
    if entry_inode_nr d (entry_place blk e) == 0 then e else next

pub first_free-le :
    (d : ℕ → ℕ) (blk n e : ℕ) → (e ≤ first_free d blk n e) × (first_free d blk n e ≤ e + n)
unfolding first_free
first_free-le d blk zero e = (omega arith, omega arith)
first_free-le d blk (suc n) e =
    let (lo, hi) = first_free-le d blk n (e + 1) in
    elim (Bool-cases (entry_inode_nr d (entry_place blk e) == 0)) [
      | inl z ↦ rw z (omega arith, omega arith)
      | inr z ↦ rw z (omega arith, omega arith)
    ]

-- What the loop over a sector finds when the place is the entry `x`, up to the entry `m`.
abbrev pub spot_of : (nr m x : ℕ) → Spot
spot_of nr m x =
    if ltb x m then (if x == nr then past_end (x % 32) else free_entry (x % 32)) else no_spot m

first_free-found :
    (d : ℕ → ℕ) (blk n e : ℕ)
    → (entry_inode_nr d (entry_place blk e) == 0) ≡ true
    → first_free d blk (suc n) e ≡ e
unfolding first_free
first_free-found d blk n e z = rw z

first_free-next :
    (d : ℕ → ℕ) (blk n e : ℕ)
    → (entry_inode_nr d (entry_place blk e) == 0) ≡ false
    → first_free d blk (suc n) e ≡ first_free d blk n (e + 1)
unfolding first_free
first_free-next d blk n e z = rw z

module _ (b d : ℕ → ℕ) (blk blk0 i nr : ℕ) (at : blk ≡ blk0 + i)
    (same : (k : ℕ) → k < sector_size → b k ≡ d (blk * sector_size + k)) where
  pub entry_spot-first :
      (n j m : ℕ)
      → j + n ≡ 32
      → m ≡ 32 * i + j
      → m ≤ nr
      → entry_spot b nr n j m ≡ spot_of nr (m + n) (first_free d blk0 (nr - m) m)
  unfolding entry_spot
  entry_spot-first zero j m ej em le =
      let (lo, hi) = first_free-le d blk0 (nr - m) m in
      let past : ltb (first_free d blk0 (nr - m) m) (m + 0) ≡ false = ground (arith, lo) in
      rw past (ap no_spot (omega arith))
  entry_spot-first (suc n) j m ej em le = elim (Bool-cases (ltb nr (m + 1))) [
    | inl last ↦
        let none : nr - m ≡ 0 = ground arith in
        let here : ltb m (m + suc n) ≡ true = ground arith in
        let end : (m == nr) ≡ true = ground arith in
        rw (last, none) (unfold first_free in rw (here, end) (ap past_end (omega arith)))
    | inr on ↦
        let more : nr - m ≡ suc (nr - (m + 1)) = ground arith in
        let place : entry_place blk0 m ≡ blk * sector_size + j * dir_entry_size = omega arith in
        let nr_there : entry_inode_nr b (j * dir_entry_size)
            ≡ entry_inode_nr d (entry_place blk0 m) =
          entry_inode_nr-sector b d blk same j (omega arith) ∙ ap (entry_inode_nr d) (sym place) in
        elim (Bool-cases (entry_inode_nr d (entry_place blk0 m) == 0)) [
          | inl z ↦
              let empty : (entry_inode_nr b (j * dir_entry_size) == 0) ≡ true =
                ap (λ v. v == 0) nr_there ∙ z in
              let here : ltb m (m + suc n) ≡ true = ground arith in
              let inner : (m == nr) ≡ false = ground arith in
              rw (on, empty, more, first_free-found d blk0 (nr - (m + 1)) m z, here, inner)
                (ap free_entry (omega arith))
          | inr z ↦
              let taken : (entry_inode_nr b (j * dir_entry_size) == 0) ≡ false =
                ap (λ v. v == 0) nr_there ∙ z in
              let next : m + suc n ≡ m + 1 + n = omega arith in
              rw (on, taken, more, next, first_free-next d blk0 (nr - (m + 1)) m z)
                (entry_spot-first n (j + 1) (m + 1) (omega arith) (omega arith) (ground arith))
        ]
  ]

-- Entries that are no places are passed over.
first_free-skip :
    (d : ℕ → ℕ) (blk n k e : ℕ)
    → e + k ≤ first_free d blk (k + n) e
    → first_free d blk (k + n) e ≡ first_free d blk n (e + k)
first_free-skip d blk n zero e h =
    let none : 0 + n ≡ n = omega arith in let here : e + 0 ≡ e = omega arith in rw (none, here) refl
first_free-skip d blk n (suc k) e h =
    let sum : suc k + n ≡ suc (k + n) = omega arith in
    let there : e + suc k ≡ e + 1 + k = omega arith in
    elim (Bool-cases (entry_inode_nr d (entry_place blk e) == 0)) [
      | inl z ↦
          let stop = ap (λ w. first_free d blk w e) sum ∙ first_free-found d blk (k + n) e z in
          absurd (omega (arith, h, stop))
      | inr z ↦
          let on = ap (λ w. first_free d blk w e) sum ∙ first_free-next d blk (k + n) e z in
          on
          ∙ first_free-skip d blk n k (e + 1) (omega (arith, h, on))
          ∙ ap (first_free d blk n) (sym there)
    ]

-- What the loop over the sectors finds.
pub record HasPlace (s : Fs) (dev blk0 nr x : ℕ) (p : Place) : Type 0 where
  pub sector : p.sector ≡ blk0 + x / 32
  pub entry : p.entry ≡ x % 32
  pub grows : p.grows ≡ (if x == nr then 1 else 0)
  pub before : Fs
  pub same : SameButBuffer s before
  pub after : p.after ≡ rd_sect before dev p.sector

pub dir_spot-HasPlace :
    (s u : Fs) (dev nr blk0 n i m : ℕ)
    → SameButBuffer s u
    → m ≡ 32 * i
    → m ≤ nr
    → nr < 32 * (i + n)
    → HasPlace s dev blk0 nr
        (first_free (s.disk dev) blk0 (nr - m) m)
        (dir_spot u dev nr n (blk0 + i) m)
unfolding dir_spot
dir_spot-HasPlace s u dev nr blk0 zero i m like em le h = absurd (omega arith)
dir_spot-HasPlace s u dev nr blk0 (suc n) i m like em le h =
    let d = s.disk dev in
    let x = first_free d blk0 (nr - m) m in
    let t = rd_sect u dev (blk0 + i) in
    let (lo, hi) = first_free-le d blk0 (nr - m) m in
    let bytes : (k : ℕ) → k < sector_size → t.fsbuf k ≡ d ((blk0 + i) * sector_size + k) = λ k l.
      rd_sect-bytes u dev (blk0 + i) k l
      ∙ ap (λ (v : Fs). v.disk dev ((blk0 + i) * sector_size + k)) like in
    let found =
      entry_spot-first t.fsbuf d (blk0 + i) blk0 i nr refl bytes 32 0 m (omega arith) (omega arith)
        le in
    elim (Bool-cases (ltb x (m + 32))) [
      | inl here ↦
          let there : blk0 + i ≡ blk0 + x / 32 = ground (arith, lo, here) in
          elim (Bool-cases (x == nr)) [
            | inl end ↦
                rw (found, dir_spot, here, end)
                  (record {
                    sector = there;
                    entry = refl;
                    grows = rw end;
                    before = u;
                    same = like;
                    after = refl;
                  })
            | inr inner ↦
                rw (found, dir_spot, here, inner)
                  (record {
                    sector = there;
                    entry = refl;
                    grows = rw inner;
                    before = u;
                    same = like;
                    after = refl;
                  })
          ]
      | inr later ↦
          let far : m + 32 ≤ x = ground arith in
          let sum : nr - m ≡ 32 + (nr - (m + 32)) = omega (arith, far, hi) in
          let skip : x ≡ first_free d blk0 (nr - (m + 32)) (m + 32) =
            ap (λ w. first_free d blk0 w m) sum
            ∙ first_free-skip d blk0 (nr - (m + 32)) 32 m
                (omega (arith, far, ap (λ w. first_free d blk0 w m) sum)) in
          let next : blk0 + i + 1 ≡ blk0 + (i + 1) = omega arith in
          rw (found, dir_spot, later, next, skip)
            (dir_spot-HasPlace s t dev nr blk0 n (i + 1) (m + 32)
              (SameButBuffer-trans s u t like (rd_sect-SameButBuffer u dev (blk0 + i)))
              (omega arith) (omega (arith, far, hi)) (omega (arith, h)))
    ]
