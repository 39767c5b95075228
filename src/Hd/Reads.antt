-- ===== src/Hd/Reads.antt =====
-- kernel/hd.c: the loop of `hd_rdwt` for a read.
use osin32bits.Base.{
  ℕ, zero, suc, ◌+◌, ◌-◌, ◌*◌, ◌%◌, ◌^◌, ◌<◌, ◌≡◌, refl, ap, ◌∙◌, ◌&&◌, true, false, ok, arith,
  ◌==◌, ltb, leb, if◌then◌else◌,
}
use osin32bits.Hd.Types.{sector_size, Drive, Machine}
use osin32bits.Hd.Commands.{interrupt_wait-some}
use osin32bits.Hd.Transfer.{copy_out, round_bytes, read_sector, transfer_sectors}
use osin32bits.Hd.Lawful.{idle, fetches, fetching, IsLawful}

module _ (a : Drive) (l : IsLawful a) where
  -- `k` sectors from `n` on stand in memory from `la` on, and nothing else has changed there.
  pub record HasFetched (m : Machine a) (la n k : ℕ) (m' : Machine a) : Type 0 where
    pub disk : l.disk m'.drive ≡ l.disk m.drive
    pub info : m'.hd_info ≡ m.hd_info
    pub memory :
        (x : ℕ)
        → m'.memory x ≡ (
            if leb la x && ltb x (la + k * sector_size)
            then l.disk m.drive (n * sector_size + (x - la))
            else m.memory x)

  pub read_sector-HasFetched :
      (m : Machine a) (la n k : ℕ)
      → l.phase m.drive ≡ fetches n (suc k)
      → (m' : Machine a) × (read_sector a m la sector_size ≡ ok m')
        × (l.phase m'.drive ≡ fetching (n + 1) k)
        × HasFetched m la n 1 m'
  unfolding read_sector
  read_sector-HasFetched m la n k e =
      let (t, comes, phase, disk) = l.fetched m.drive n k e in
      let (next, same, bytes) = l.given t n k phase in
      (
        record m {
          drive = (a.port_read t).1;
          hdbuf = λ i. if ltb i sector_size then (a.port_read t).0 i else m.hdbuf i;
          memory =
              copy_out m.memory la
                (λ i. if ltb i sector_size then (a.port_read t).0 i else m.hdbuf i) sector_size;
        },
        rw (interrupt_wait-some a m.drive t comes),
        next,
        record {
          disk = same ∙ disk;
          info = refl;
          memory =
              λ x. ground (arith, bytes (x - la), ap (λ d. d (n * sector_size + (x - la))) disk);
        },
      )

  -- The loop fetches all sectors that the drive was asked for.
  pub transfer_sectors-HasFetched :
      (k fuel : ℕ) (m : Machine a) (la n : ℕ)
      → k < fuel
      → k < 2 ^ 22
      → l.phase m.drive ≡ fetching n k
      → (m' : Machine a) × (transfer_sectors a fuel true m la (k * sector_size) ≡ ok m')
        × (l.phase m'.drive ≡ idle)
        × HasFetched m la n k m'
  unfolding transfer_sectors
  transfer_sectors-HasFetched zero zero m la n h b e = absurd (omega arith)
  transfer_sectors-HasFetched (suc k) zero m la n h b e = absurd (omega arith)
  transfer_sectors-HasFetched zero (suc fuel) m la n h b e =
      (m, refl, e, record { disk = refl; info = refl; memory = λ x. ground arith })
  transfer_sectors-HasFetched (suc k) (suc fuel) m la n h b e =
      let (m1, one, phase, first) = read_sector-HasFetched m la n k e in
      let (m2, rest, end, others) =
        transfer_sectors-HasFetched k fuel m1 (la + sector_size) (n + 1) (omega arith) (omega arith)
          phase in
      let whole : round_bytes (suc k * sector_size) ≡ sector_size = ground arith in
      let left : (suc k * sector_size + 2 ^ 32 - sector_size) % 2 ^ 32 ≡ k * sector_size =
        omega arith in
      let more : (suc k * sector_size == 0) ≡ false = ground arith in
      (
        m2,
        rw (whole, one, left, more) rest,
        end,
        record {
          disk = others.disk ∙ first.disk;
          info = others.info ∙ first.info;
          memory = λ x. ground (
            arith,
            others.memory x,
            first.memory x,
            ap (λ d. d ((n + 1) * sector_size + (x - (la + sector_size)))) first.disk,
          );
        },
      )
