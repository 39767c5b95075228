-- ===== src/Hd/Disk.antt =====
-- fs/main.c `rw_sector` and kernel/hd.c: the driver does what the file system relies on.
use osin32bits.Base.{
  ℕ, ◌+◌, ◌-◌, ◌*◌, ◌%◌, ◌^◌, ◌≤◌, ◌<◌, ◌≡◌, refl, ap, sym, ◌∙◌, ◌&&◌, ok, arith, ltb, leb, true,
  false, inl, inr, Bool-cases, ==_refl,
}
use osin32bits.Proc.Types.{Message, Kernel, reset_msg}
use osin32bits.Fs.Types.{Fs}
use osin32bits.Fs.Sectors.{read_disk, write_disk}
use osin32bits.Hd.Types.{sector_size, dev_read, dev_write, Drive, Machine}
use osin32bits.Hd.Partition.{handle}
use osin32bits.Hd.Lawful.{idle, IsLawful}
use osin32bits.Hd.Requests.{IsRequest, hd_rdwt-HasFetched, hd_rdwt-HasStored}

-- FSBUF_SIZE
abbrev pub fsbuf_size : ℕ
fsbuf_size = 0x100000

abbrev pub task_fs : ℕ
task_fs = 3

-- The message of `rw_sector` to the driver; the device is its minor number.
abbrev pub rw_sector : (io_type dev pos bytes proc_nr buf : ℕ) → Message
rw_sector io_type dev pos bytes proc_nr buf = record reset_msg {
  type = io_type;
  m3i4 = dev % 2 ^ 8;
  m3l1 = pos;
  m3p2 = buf;
  m3i2 = bytes;
  m3i3 = proc_nr;
}

-- The file system's view of the device `dev`: the bytes of its partition, the first of them in sector
-- `base` of the drive, and the buffer of the task, at the address `la`.
pub record Shows (a : Drive) (l : IsLawful a) (m : Machine a) (dev base size la : ℕ) (s : Fs)
    : Type 0 where
  pub free : l.phase m.drive ≡ idle
  pub bytes :
      (p : ℕ) → p < size * sector_size → s.disk dev p ≡ l.disk m.drive (base * sector_size + p)
  pub buffer : (i : ℕ) → i < fsbuf_size → s.fsbuf i ≡ m.memory (la + i)

module _ (a : Drive) (l : IsLawful a) (k : Kernel) (m : Machine a) (dev base size la buf : ℕ)
    (s : Fs) (w : Shows a l m dev base size la s) (q c fuel : ℕ) where
  -- The driver reads for the file system: on the request of `rw_sector` for 1 to 256 sectors of the
  -- partition, it returns, and the file system sees `read_disk`.
  pub handle-read_disk :
      IsRequest a k m
        (rw_sector dev_read dev (q * sector_size) (c * sector_size) task_fs buf)
        (base + q)
        c
        la
      → 0 < c
      → c ≤ 256
      → c < fuel
      → q + c ≤ size
      → base + size ≤ l.capacity
      → (m' : Machine a) × (handle a fuel k m
            (rw_sector dev_read dev (q * sector_size) (c * sector_size) task_fs buf)
          ≡ ok m')
        × Shows a l m' dev base size la (read_disk s dev (q * sector_size) (c * sector_size))
  unfolding read_disk handle
  handle-read_disk v pos max enough inside room =
      let (m', run, end, f) =
        hd_rdwt-HasFetched a l k m _ (base + q) c la v w.free fuel refl pos max enough
          (omega arith) in
      (
        m',
        run,
        record {
          free = end;
          bytes = λ p h. w.bytes p h ∙ ap (λ d. d (base * sector_size + p)) (sym f.disk);
          buffer = λ i h. elim (Bool-cases (ltb i (c * sector_size))) [
            | inl e ↦
                let here : (leb la (la + i) && ltb (la + i) (la + c * sector_size)) ≡ true =
                  ground arith in
                rw e (
                  w.bytes (q * sector_size + i) (ground arith)
                  ∙ ap (l.disk m.drive) (omega arith)
                  ∙ sym (rw here at (f.memory (la + i))))
            | inr e ↦
                let out : (leb la (la + i) && ltb (la + i) (la + c * sector_size)) ≡ false =
                  ground arith in
                rw e (w.buffer i h ∙ sym (rw out at (f.memory (la + i))))
          ];
        },
      )

  -- The driver writes for the file system: on the request of `rw_sector` for 1 to 256 sectors of the
  -- partition, it returns, and the file system sees `write_disk`.
  pub handle-write_disk :
      IsRequest a k m
        (rw_sector dev_write dev (q * sector_size) (c * sector_size) task_fs buf)
        (base + q)
        c
        la
      → 0 < c
      → c ≤ 256
      → c < fuel
      → q + c ≤ size
      → base + size ≤ l.capacity
      → (m' : Machine a) × (handle a fuel k m
            (rw_sector dev_write dev (q * sector_size) (c * sector_size) task_fs buf)
          ≡ ok m')
        × Shows a l m' dev base size la (write_disk s dev (q * sector_size) (c * sector_size))
  unfolding write_disk handle
  handle-write_disk v pos max enough inside room =
      let (m', run, end, f) =
        hd_rdwt-HasStored a l k m _ (base + q) c la v w.free fuel refl pos max enough
          (omega arith) in
      (
        m',
        run,
        record {
          free = end;
          bytes = λ p h.
              let b = base * sector_size + p in
              let o = (base + q) * sector_size in
              elim (Bool-cases
                (leb (q * sector_size) p && ltb p (q * sector_size + c * sector_size))) [
                  | inl e ↦
                      let here : (leb o b && ltb b (o + c * sector_size)) ≡ true = ground arith in
                      rw (==_refl dev, e)
                        (w.buffer (p - q * sector_size) (ground arith)
                          ∙ ap m.memory (ground arith)
                          ∙ sym (rw here at (f.disk b)))
                  | inr e ↦
                      let out : (leb o b && ltb b (o + c * sector_size)) ≡ false = ground arith in
                      rw (==_refl dev, e) (w.bytes p h ∙ sym (rw out at (f.disk b)))
                ];
          buffer = λ i h. w.buffer i h ∙ ap (λ g. g (la + i)) (sym f.memory);
        },
      )
