-- ===== src/Hd/Writes.antt =====
-- kernel/hd.c: the loop of `hd_rdwt` for a write.
use osin32bits.Base.{
  ℕ, zero, suc, ◌+◌, ◌-◌, ◌*◌, ◌%◌, ◌^◌, ◌<◌, ◌≡◌, refl, ap, ◌∙◌, ◌&&◌, false, ok, arith, ◌==◌, ltb,
  leb, if◌then◌else◌,
}
use osin32bits.Hd.Types.{sector_size, status_drq, Drive, Machine}
use osin32bits.Hd.Commands.{interrupt_wait-some, waitfor-ok}
use osin32bits.Hd.Transfer.{round_bytes, write_sector, transfer_sectors}
use osin32bits.Hd.Lawful.{idle, wants, wanting, IsLawful}

module _ (a : Drive) (l : IsLawful a) where
  -- `k` sectors from `n` on hold the bytes of memory from `la` on, and nothing else has changed.
  pub record HasStored (m : Machine a) (la n k : ℕ) (m' : Machine a) : Type 0 where
    pub memory : m'.memory ≡ m.memory
    pub info : m'.hd_info ≡ m.hd_info
    pub disk :
        (p : ℕ)
        → l.disk m'.drive p ≡ (
            if leb (n * sector_size) p && ltb p (n * sector_size + k * sector_size)
            then m.memory (la + (p - n * sector_size))
            else l.disk m.drive p)

  pub write_sector-HasStored :
      (m : Machine a) (la n k : ℕ)
      → l.phase m.drive ≡ wants n (suc k)
      → (m' : Machine a) × (write_sector a m la sector_size ≡ ok m')
        × (l.phase m'.drive ≡ wanting (n + 1) k)
        × HasStored m la n 1 m'
  unfolding write_sector
  write_sector-HasStored m la n k e =
      let b : ℕ → ℕ = λ i. m.memory (la + i) in
      let (phase, bytes) = l.taken m.drive n k b e in
      let (t, comes, next, disk) = l.stored (a.port_write m.drive b sector_size) (n + 1) k phase in
      (
        record m { drive = t },
        rw (
          waitfor-ok a m.drive status_drq status_drq (l.ready m.drive n k e),
          interrupt_wait-some a (a.port_write m.drive b sector_size) t comes,
        ),
        next,
        record { memory = refl; info = refl; disk = λ p. ap (λ d. d p) disk ∙ bytes p },
      )

  -- The loop stores all sectors that the drive waits for.
  pub transfer_sectors-HasStored :
      (k fuel : ℕ) (m : Machine a) (la n : ℕ)
      → k < fuel
      → k < 2 ^ 22
      → l.phase m.drive ≡ wanting n k
      → (m' : Machine a) × (transfer_sectors a fuel false m la (k * sector_size) ≡ ok m')
        × (l.phase m'.drive ≡ idle)
        × HasStored m la n k m'
  unfolding transfer_sectors
  transfer_sectors-HasStored zero zero m la n h b e = absurd (omega arith)
  transfer_sectors-HasStored (suc k) zero m la n h b e = absurd (omega arith)
  transfer_sectors-HasStored zero (suc fuel) m la n h b e =
      (m, refl, e, record { memory = refl; info = refl; disk = λ p. ground arith })
  transfer_sectors-HasStored (suc k) (suc fuel) m la n h b e =
      let (m1, one, phase, first) = write_sector-HasStored m la n k e in
      let (m2, rest, end, others) =
        transfer_sectors-HasStored k fuel m1 (la + sector_size) (n + 1) (omega arith) (omega arith)
          phase in
      let whole : round_bytes (suc k * sector_size) ≡ sector_size = ground arith in
      let left : (suc k * sector_size + 2 ^ 32 - sector_size) % 2 ^ 32 ≡ k * sector_size =
        omega arith in
      let more : (suc k * sector_size == 0) ≡ false = ground arith in
      (
        m2,
        rw (whole, one, left, more) rest,
        end,
        record {
          memory = others.memory ∙ first.memory;
          info = others.info ∙ first.info;
          disk = λ p. ground (
            arith,
            others.disk p,
            first.disk p,
            ap (λ f. f (la + sector_size + (p - (n + 1) * sector_size))) first.memory,
          );
        },
      )
