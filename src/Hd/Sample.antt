-- ===== src/Hd/Sample.antt =====
-- A drive that does what the driver relies on: it answers at once.
use osin32bits.Base.{
  ℕ, suc, ◌+◌, ◌-◌, ◌*◌, ◌^◌, ◌≡◌, refl, ◌&&◌, Option, none, some, true, false, arith, ◌==◌, ltb,
  leb, if◌then◌else◌,
}
use osin32bits.Hd.Types.{sector_size, ata_read, ata_write, Port, reg_cmd, number, Drive}
use osin32bits.Hd.Lawful.{
  Phase, idle, fetches, holds, wants, stores, fetching, wanting, address, sectors, sets_up,
  IsLawful,
}

pub record Ram : Type 0 where
  pub bytes : ℕ → ℕ
  pub phase : Phase
  pub regs : Port → ℕ

abbrev pub begun : Ram → (command : ℕ) → Phase
begun s command =
    if command == ata_read
    then fetching (address s.regs) (sectors s.regs)
    else (if command == ata_write then wanting (address s.regs) (sectors s.regs) else s.phase)

abbrev pub put_byte : Ram → Port → ℕ → Ram
put_byte s p v = record s {
  phase = if number p == number reg_cmd then begun s v else s.phase;
  regs = λ q. if number q == number p then v else s.regs q;
}

abbrev pub status_of : Phase → ℕ
status_of idle = 0
status_of (wants n k) = 0x08
status_of _ = 0x80

abbrev pub raised : Ram → Phase → Option Ram
raised s (fetches n (suc k)) = some (record s { phase = holds n k })
raised s (stores n k) = some (record s { phase = wanting n k })
raised s _ = none

abbrev pub read_of : Ram → Phase → (ℕ → ℕ) × Ram
read_of s (holds n k) =
    (λ i. s.bytes (n * sector_size + i), record s { phase = fetching (n + 1) k })
read_of s _ = (λ i. 0, s)

abbrev pub store_bytes : (bytes : ℕ → ℕ) → (o : ℕ) → (ℕ → ℕ) → ℕ → ℕ
store_bytes bytes o b p = if leb o p && ltb p (o + sector_size) then b (p - o) else bytes p

abbrev pub write_of : Ram → Phase → (ℕ → ℕ) → (n : ℕ) → Ram
write_of s (wants m (suc k)) b n =
    if n == sector_size
    then record s { bytes = store_bytes s.bytes (m * sector_size) b; phase = stores (m + 1) k }
    else s
write_of s _ b n = s

abbrev pub ram : Drive
ram = record {
  State = Ram;
  polls = 1;
  status = λ s j. status_of s.phase;
  ticks = λ s j. 0;
  out_byte = put_byte;
  interrupt = λ s. raised s s.phase;
  port_read = λ s. read_of s s.phase;
  port_write = λ s b n. write_of s s.phase b n;
}

pub phase-put_byte :
    (s : Ram) (p : Port) (v : ℕ) → sets_up p v ≡ true → (put_byte s p v).phase ≡ s.phase
phase-put_byte s p v h = let other : (number p == number reg_cmd) ≡ false = ground arith in rw other

abbrev pub ram-IsLawful : IsLawful ram
ram-IsLawful = record {
  disk = λ s. s.bytes;
  capacity = 2 ^ 28;
  phase = λ s. s.phase;
  registers = λ s. s.regs;
  free =
      λ s e. record { look = 0; early = omega arith; answer = rw e; in_time = λ j h. omega arith };
  ready = λ s n k e. record {
    look = 0;
    early = omega arith;
    answer = rw e;
    in_time = λ j h. omega arith;
  };
  disk-out_byte = λ s p v. refl;
  registers-out_byte = λ s p v q. refl;
  phase-out_byte = phase-put_byte;
  read_command = λ s e d c. refl;
  write_command = λ s e d c. refl;
  no_interrupt = λ s e. rw e;
  fetched = λ s n k e. (record s { phase = holds n k }, rw e, refl, refl);
  given = λ s n k e. (rw e, rw e, λ i h. rw e);
  taken = λ s n k b e. (rw e, λ p. rw e);
  stored = λ s n k e. (record s { phase = wanting n k }, rw e, refl, refl);
}
