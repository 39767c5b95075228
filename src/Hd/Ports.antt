-- ===== src/Hd/Ports.antt =====
-- kernel/hd.c: commands and waits.
use Prim.Native.Nat.{bit_and, bit_or}
use osin32bits.Base.{
  ℕ, zero, suc, ◌+◌, ◌-◌, ◌*◌, ◌/◌, ◌%◌, ◌^◌, Option, none, some, Bool, true, false, Run, ok, fault,
  panic, out_of_fuel, ◌>>=◌, finished, ◌==◌, ltb, if◌then◌else◌,
}
use osin32bits.Hd.Types.{
  hz, hd_timeout, status_bsy, reg_features, reg_nsector, reg_lba_low, reg_lba_mid, reg_lba_high,
  reg_device, reg_cmd, reg_dev_ctrl, HdCmd, Drive,
}

-- `MAKE_DEVICE_REG`
unfoldable pub make_device_reg : (lba drv lba_highest : ℕ) → ℕ
make_device_reg lba drv lba_highest =
    bit_or (bit_or (bit_or (lba * 2 ^ 6) (drv * 2 ^ 4)) (bit_and lba_highest 0xF)) 0xA0

-- A command for `count` sectors from `sect_nr` on, as `hd_rdwt` and `get_part_table` fill it.
abbrev pub lba_cmd : (drive sect_nr count command : ℕ) → HdCmd
lba_cmd drive sect_nr count command = record {
  features = 0;
  count = count % 2 ^ 8;
  lba_low = sect_nr % 2 ^ 8;
  lba_mid = sect_nr / 2 ^ 8 % 2 ^ 8;
  lba_high = sect_nr / 2 ^ 16 % 2 ^ 8;
  device = make_device_reg 1 drive (sect_nr / 2 ^ 24 % 2 ^ 4);
  command = command;
}

-- The loop of `waitfor`, with at most `n` looks from the `j`-th on.
unfoldable pub poll : (a : Drive) → a.State → (mask val n j : ℕ) → Option Bool
poll a s mask val zero j = none
poll a s mask val (suc n) j =
    let next = poll a s mask val n (j + 1) in
    if ltb ((a.ticks s (j + 1) - a.ticks s 0) * 1000 / hz) hd_timeout
    then (if bit_and (a.status s j) mask == val then some true else next)
    else some false

-- `waitfor`, with HD_TIMEOUT.
unfoldable pub waitfor : (a : Drive) → a.State → (mask val : ℕ) → Run Bool
waitfor a s mask val = finished (poll a s mask val a.polls 0)

-- The writes of `hd_cmd_out` before that of the command.
unfoldable pub set_up : (a : Drive) → a.State → HdCmd → a.State
set_up a s cmd =
    let s1 = a.out_byte s reg_dev_ctrl 0 in
    let s2 = a.out_byte s1 reg_features cmd.features in
    let s3 = a.out_byte s2 reg_nsector cmd.count in
    let s4 = a.out_byte s3 reg_lba_low cmd.lba_low in
    let s5 = a.out_byte s4 reg_lba_mid cmd.lba_mid in
    let s6 = a.out_byte s5 reg_lba_high cmd.lba_high in a.out_byte s6 reg_device cmd.device

-- `hd_cmd_out`
unfoldable pub hd_cmd_out : (a : Drive) → a.State → HdCmd → Run a.State
hd_cmd_out a s cmd = do
  free ← waitfor a s status_bsy 0
  if free then ok (a.out_byte (set_up a s cmd) reg_cmd cmd.command) else fault panic

-- `interrupt_wait`: the message that receives the interrupt never comes if the interrupt does not.
unfoldable pub interrupt_wait : (a : Drive) → a.State → Run a.State
interrupt_wait a s = elim (a.interrupt s) [ none ↦ fault out_of_fuel | some s' ↦ ok s' ]
