-- ===== src/Hd/Commands.antt =====
-- kernel/hd.c: the waits of the driver end, and a command reaches the drive.
use Prim.Native.Nat.{bit_and}
use mathlib.Core.Path.{ap₂}
use osin32bits.Base.{
  ℕ, zero, suc, ◌+◌, ◌*◌, ◌/◌, ◌%◌, ◌^◌, ◌≤◌, ◌<◌, ◌≡◌, ◌≢◌, ap, ◌∙◌, true, false, none, some,
  fault, out_of_fuel, inl, inr, ok, arith, ◌==◌, lt→ltb, if◌then◌else◌, Bool-cases, finished,
  ==_iff,
}
use osin32bits.Hd.Types.{
  status_bsy, ata_read, ata_write, reg_nsector, reg_lba_low, reg_lba_mid, reg_lba_high, reg_device,
  reg_cmd, HdCmd, Drive,
}
use osin32bits.Hd.Ports.{
  make_device_reg, lba_cmd, poll, waitfor, set_up, hd_cmd_out, interrupt_wait,
}
use osin32bits.Hd.Lawful.{idle, fetching, wanting, address, sectors, IsLba, Answers, IsLawful}

module _ (a : Drive) (s : a.State) (mask val : ℕ) (w : Answers a s mask val) where
  not_yet : (j : ℕ) → j ≤ w.look → (bit_and (a.status s j) mask == val) ≡ false → j < w.look
  not_yet j le e =
      let ne : j ≢ w.look = λ q.
        let found : (bit_and (a.status s j) mask == val) ≡ true = rw q ((==_iff _ _).1 w.answer) in
        cc in
      omega arith

  poll-some : (n j : ℕ) → j ≤ w.look → w.look < j + n → poll a s mask val n j ≡ some true
  unfolding poll
  poll-some zero j le lt = absurd (omega arith)
  poll-some (suc n) j le lt =
      rw (lt→ltb _ _ (w.in_time j le)) (elim (Bool-cases (bit_and (a.status s j) mask == val)) [
        | inl e ↦ rw e
        | inr e ↦ rw e (poll-some n (j + 1) (omega (arith, not_yet j le e)) (omega arith))
      ])

  pub waitfor-ok : waitfor a s mask val ≡ ok true
  unfolding waitfor
  waitfor-ok = ap finished (poll-some a.polls 0 (omega arith) (omega arith))

pub interrupt_wait-some :
    (a : Drive) (s t : a.State) → a.interrupt s ≡ some t → interrupt_wait a s ≡ ok t
unfolding interrupt_wait
interrupt_wait-some a s t e = rw (e, interrupt_wait)

pub interrupt_wait-none :
    (a : Drive) (s : a.State) → a.interrupt s ≡ none → interrupt_wait a s ≡ fault out_of_fuel
unfolding interrupt_wait
interrupt_wait-none a s e = rw (e, interrupt_wait)

-- What the register of the device says when `x` is the highest part of a sector's number.
abbrev IsChosen : (x : ℕ) → Type 0
IsChosen x = IsLba (make_device_reg 1 0 x) × (make_device_reg 1 0 x % 2 ^ 4 ≡ x)

abbrev AreChosen : (n : ℕ) → Type 0
AreChosen zero = Unit {0}
AreChosen (suc n) = IsChosen n × AreChosen n

chosen_nibbles : AreChosen 16
unfolding make_device_reg
chosen_nibbles = omega arith

AreChosen-at : (n x : ℕ) → AreChosen n → x < n → IsChosen x
AreChosen-at zero x rs h = absurd (omega arith)
AreChosen-at (suc n) x rs h = elim (Bool-cases (x == n)) [
  | inl e ↦ rw ((==_iff x n).0 e) rs.0
  | inr e ↦ AreChosen-at n x rs.1 (ground arith)
]

make_device_reg-IsLba : (x : ℕ) → x < 16 → IsChosen x
make_device_reg-IsLba x h = AreChosen-at 16 x chosen_nibbles h

module _ (a : Drive) (l : IsLawful a) (s : a.State) (cmd : HdCmd) where
  pub phase-set_up : l.phase (set_up a s cmd) ≡ l.phase s
  unfolding set_up
  phase-set_up = simp l.phase-out_byte

  pub disk-set_up : l.disk (set_up a s cmd) ≡ l.disk s
  unfolding set_up
  disk-set_up = simp l.disk-out_byte

  pub registers-set_up :
      (l.registers (set_up a s cmd) reg_nsector ≡ cmd.count)
      × (l.registers (set_up a s cmd) reg_lba_low ≡ cmd.lba_low)
      × (l.registers (set_up a s cmd) reg_lba_mid ≡ cmd.lba_mid)
      × (l.registers (set_up a s cmd) reg_lba_high ≡ cmd.lba_high)
      × (l.registers (set_up a s cmd) reg_device ≡ cmd.device)
  unfolding set_up
  registers-set_up = (
    simp l.registers-out_byte,
    simp l.registers-out_byte,
    simp l.registers-out_byte,
    simp l.registers-out_byte,
    simp l.registers-out_byte,
  )

  pub hd_cmd_out-ok :
      l.phase s ≡ idle → hd_cmd_out a s cmd ≡ ok (a.out_byte (set_up a s cmd) reg_cmd cmd.command)
  unfolding hd_cmd_out
  hd_cmd_out-ok e = rw (waitfor-ok a s status_bsy 0 (l.free s e))

-- The number of sectors that a command for `count` sectors asks for: its register has 8 bits.
abbrev pub asked : (count : ℕ) → ℕ
asked count = if count % 2 ^ 8 == 0 then 256 else count % 2 ^ 8

-- What the registers of a command for `count` sectors from `sect` on mean to the drive.
module _ (a : Drive) (l : IsLawful a) (s : a.State) (sect count command : ℕ) where
  abbrev pub given_cmd : HdCmd
  given_cmd = lba_cmd 0 sect count command

  sect_parts :
      sect < 2 ^ 28
      → sect % 2 ^ 8
          + sect / 2 ^ 8 % 2 ^ 8 * 2 ^ 8
          + sect / 2 ^ 16 % 2 ^ 8 * 2 ^ 16
          + sect / 2 ^ 24 % 2 ^ 4 * 2 ^ 24
        ≡ sect
  sect_parts h = omega arith

  pub address-set_up : sect < 2 ^ 28 → address (l.registers (set_up a s given_cmd)) ≡ sect
  address-set_up h =
      let r = registers-set_up a l s given_cmd in
      let d = make_device_reg-IsLba (sect / 2 ^ 24 % 2 ^ 4) (omega arith) in
      rw (r.1, r.2, r.3, r.4, d.1) (sect_parts h)

  pub IsLba-set_up : IsLba (l.registers (set_up a s given_cmd) reg_device)
  IsLba-set_up =
      let r = registers-set_up a l s given_cmd in
      rw (r.4) ((make_device_reg-IsLba (sect / 2 ^ 24 % 2 ^ 4) (omega arith)).0)

  pub sectors-set_up : sectors (l.registers (set_up a s given_cmd)) ≡ asked count
  sectors-set_up = let r = registers-set_up a l s given_cmd in rw (r.0)

  begun :
      sect < 2 ^ 28
      → sect + asked count ≤ l.capacity
      → address (l.registers (set_up a s given_cmd)) + sectors (l.registers (set_up a s given_cmd))
        ≤ l.capacity
  begun h c = rw (address-set_up h, sectors-set_up) c

-- The command begins the transfer.
module _ (a : Drive) (l : IsLawful a) (s : a.State) (e : l.phase s ≡ idle) (sect count : ℕ) where
  pub begin_read :
      sect < 2 ^ 28
      → sect + asked count ≤ l.capacity
      → l.phase (a.out_byte (set_up a s (lba_cmd 0 sect count ata_read)) reg_cmd ata_read)
        ≡ fetching sect (asked count)
  begin_read h c =
      l.read_command (set_up a s (lba_cmd 0 sect count ata_read))
        (phase-set_up a l s (lba_cmd 0 sect count ata_read) ∙ e)
        (IsLba-set_up a l s sect count ata_read) (begun a l s sect count ata_read h c)
      ∙ ap₂ fetching (address-set_up a l s sect count ata_read h)
          (sectors-set_up a l s sect count ata_read)

  pub begin_write :
      sect < 2 ^ 28
      → sect + asked count ≤ l.capacity
      → l.phase (a.out_byte (set_up a s (lba_cmd 0 sect count ata_write)) reg_cmd ata_write)
        ≡ wanting sect (asked count)
  begin_write h c =
      l.write_command (set_up a s (lba_cmd 0 sect count ata_write))
        (phase-set_up a l s (lba_cmd 0 sect count ata_write) ∙ e)
        (IsLba-set_up a l s sect count ata_write) (begun a l s sect count ata_write h c)
      ∙ ap₂ wanting (address-set_up a l s sect count ata_write h)
          (sectors-set_up a l s sect count ata_write)

  pub disk-begin :
      (command : ℕ)
      → l.disk (a.out_byte (set_up a s (lba_cmd 0 sect count command)) reg_cmd command) ≡ l.disk s
  disk-begin command =
      l.disk-out_byte (set_up a s (lba_cmd 0 sect count command)) reg_cmd command
      ∙ disk-set_up a l s (lba_cmd 0 sect count command)
