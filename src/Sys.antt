-- ===== src/Sys.antt =====
-- kernel/systask.c: the system task. `cmos k r` is the byte that the `k`-th read gives of the register
-- `r` of the clock; `reboot` and `shutdown` are assembly code.
pub mod Clock
mod Tests
use osin32bits.Base.{
  ℕ, ◌+◌, ◌*◌, ◌/◌, ◌%◌, ◌^◌, Option, none, some, Run, ok, fault, panic, ◌>>=◌, ◌==◌, if◌then◌else◌,
  has_flag,
}
use osin32bits.Proc.Types.{Message, Kernel, va2la}
use osin32bits.Tty.Task.{syscall_ret}

-- `struct time`
pub record Time : Type 0 where
  pub year : ℕ
  pub month : ℕ
  pub day : ℕ
  pub week : ℕ
  pub hour : ℕ
  pub minute : ℕ
  pub second : ℕ

abbrev pub clk_status : ℕ
clk_status = 0x0B

-- `BCD_TO_DEC`
unfoldable pub bcd_to_dec : ℕ → ℕ
bcd_to_dec x = x / 2 ^ 4 * 10 + x % 2 ^ 4

-- What `get_rtc_time` reads first.
unfoldable pub read_time : (cmos : ℕ → ℕ → ℕ) → Time
read_time cmos = record {
  year = cmos 0 9;
  month = cmos 1 8;
  day = cmos 2 7;
  week = cmos 3 6;
  hour = cmos 4 4;
  minute = cmos 5 2;
  second = cmos 6 0;
}

-- The conversion of every field.
unfoldable pub convert_time : Time → Time
convert_time t = record {
  year = bcd_to_dec t.year;
  month = bcd_to_dec t.month;
  day = bcd_to_dec t.day;
  week = bcd_to_dec t.week;
  hour = bcd_to_dec t.hour;
  minute = bcd_to_dec t.minute;
  second = bcd_to_dec t.second;
}

-- `get_rtc_time`
unfoldable pub get_rtc_time : (cmos : ℕ → ℕ → ℕ) → Time
get_rtc_time cmos =
    let t = read_time cmos in
    let u = if has_flag (cmos 7 clk_status) 0x04 then t else convert_time t in
    record u { year = (u.year + 2000) % 2 ^ 32 }

abbrev pub get_ticks : ℕ
get_ticks = 2

abbrev pub get_pid : ℕ
get_pid = 3

abbrev pub reboot : ℕ
reboot = 4

abbrev pub shut_down : ℕ
shut_down = 5

abbrev pub get_rtc : ℕ
get_rtc = 6

-- What the task calls of the assembly code.
pub data Power : Type 0 where
  rebooted stopped : Power

-- The answer to a message, the time with the address that it is copied to, and a call of `reboot` or
-- `shutdown`.
pub record Answered : Type 0 where
  pub reply : Message
  pub time : Option (ℕ × Time)
  pub power : Option Power

-- An answer that does nothing else.
abbrev pub replied : Message → Answered
replied msg = record { reply = msg; time = none; power = none }

-- The `switch` of `task_sys`.
unfoldable pub answer_sys : Kernel → (cmos : ℕ → ℕ → ℕ) → Message → Run Answered
answer_sys k cmos msg =
    let done = record msg { type = syscall_ret } in
    if msg.type == get_ticks
    then ok (replied (record msg { m3i1 = k.ticks }))
    else (if msg.type == get_pid
        then ok (replied (record done { m3i2 = msg.source }))
        else (if msg.type == get_rtc
            then (do
              p ← va2la k msg.source msg.m3p2
              ok (record (replied done) { time = some (p, get_rtc_time cmos) }))
            else (if msg.type == reboot
                then ok (record (replied done) { power = some rebooted })
                else (if msg.type == shut_down
                    then ok (record (replied done) { power = some stopped })
                    else fault panic))))
