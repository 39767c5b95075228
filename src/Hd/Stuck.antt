-- ===== src/Hd/Stuck.antt =====
-- kernel/hd.c: requests that the loop of `hd_rdwt` does not come back from.
use osin32bits.Base.{
  ℕ, zero, suc, ◌+◌, ◌-◌, ◌*◌, ◌%◌, ◌^◌, ◌<◌, ◌≡◌, ◌≢◌, refl, Bool, true, false, Run, ok, fault,
  out_of_fuel, ◌>>=◌, arith, ◌==◌, if◌then◌else◌,
}
use osin32bits.Hd.Types.{sector_size, Drive, Machine}
use osin32bits.Hd.Commands.{interrupt_wait-none}
use osin32bits.Hd.Transfer.{round_bytes, read_sector, write_sector, transfer_sectors}
use osin32bits.Hd.Lawful.{fetching, IsLawful}
use osin32bits.Hd.Reads.{read_sector-HasFetched}

-- A bind that returns has a first part that returns.
pub bind-ok :
    {A B : Type 0} (r : Run A) (f : A → Run B) {b : B}
    → (r >>= f) ≡ ok b
    → (x : A) × (r ≡ ok x) × (f x ≡ ok b)
bind-ok (ok x) f h = (x, refl, h)
bind-ok (fault e) f h = cc

-- A count that is not whole sectors never comes down to 0.
pub transfer_sectors-ne-ok :
    (a : Drive) (fuel : ℕ) (reads : Bool) (m m' : Machine a) (la left : ℕ)
    → left % sector_size ≢ 0
    → transfer_sectors a fuel reads m la left ≢ ok m'
unfolding transfer_sectors
transfer_sectors-ne-ok a zero reads m m' la left h e = cc
transfer_sectors-ne-ok a (suc fuel) reads m m' la left h e =
    let more : (left == 0) ≡ false = ground arith in
    let (m1, one, rest) =
      bind-ok
        (if reads
          then read_sector a m la (round_bytes left)
          else write_sector a m la (round_bytes left))
        _ (rw more at e) in
    transfer_sectors-ne-ok a fuel reads m1 m' (la + sector_size)
      ((left + 2 ^ 32 - sector_size) % 2 ^ 32) (omega arith) rest

-- A read of more sectors than the drive was asked for waits for an interrupt that does not come.
pub transfer_sectors-waits :
    (a : Drive) (l : IsLawful a) (k j fuel : ℕ) (m : Machine a) (la n : ℕ)
    → k < j
    → j < 2 ^ 22
    → l.phase m.drive ≡ fetching n k
    → transfer_sectors a fuel true m la (j * sector_size) ≡ fault out_of_fuel
unfolding transfer_sectors
transfer_sectors-waits a l k j zero m la n h b e = refl
transfer_sectors-waits a l zero (suc j) (suc fuel) m la n h b e =
    let more : (suc j * sector_size == 0) ≡ false = ground arith in
    let stops : read_sector a m la (round_bytes (suc j * sector_size)) ≡ fault out_of_fuel =
      unfold read_sector in rw (interrupt_wait-none a m.drive (l.no_interrupt m.drive e)) in
    rw (stops, more)
transfer_sectors-waits a l (suc k) (suc j) (suc fuel) m la n h b e =
    let (m1, one, phase, first) = read_sector-HasFetched a l m la n k e in
    let whole : round_bytes (suc j * sector_size) ≡ sector_size = ground arith in
    let left : (suc j * sector_size + 2 ^ 32 - sector_size) % 2 ^ 32 ≡ j * sector_size =
      omega arith in
    let more : (suc j * sector_size == 0) ≡ false = ground arith in
    rw (whole, one, left, more)
      (transfer_sectors-waits a l k j fuel m1 (la + sector_size) (n + 1) (omega arith) (omega arith)
        phase)
transfer_sectors-waits a l k zero (suc fuel) m la n h b e = absurd (omega arith)
