-- ===== src/Sys/Clock.antt =====
-- kernel/systask.c `get_rtc_time`: the time that the clock shows.
use osin32bits.Base.{
  ℕ, ◌+◌, ◌*◌, ◌/◌, ◌%◌, ◌^◌, ◌<◌, ◌≡◌, refl, ap, some, none, ok, inl, inr, arith, has_flag,
  if◌then◌else◌, Bool-cases, true, false,
}
use osin32bits.Proc.Types.{Message, Kernel, va2la}
use osin32bits.Tty.Task.{syscall_ret}
use osin32bits.Sys.{
  Time, clk_status, bcd_to_dec, read_time, convert_time, get_rtc_time, get_rtc, answer_sys,
}

-- How a clock with this status shows a number: in binary, or by its two decimal digits.
abbrev pub shown : (status v : ℕ) → ℕ
shown status v = if has_flag status 0x04 then v else v / 10 * 16 + v % 10

-- The clock shows the time, and does not go on between the reads.
pub record IsShown (cmos : ℕ → ℕ → ℕ) (t : Time) : Type 0 where
  pub year : (cmos 0 9 ≡ shown (cmos 7 clk_status) t.year) × (t.year < 100)
  pub month : (cmos 1 8 ≡ shown (cmos 7 clk_status) t.month) × (t.month < 100)
  pub day : (cmos 2 7 ≡ shown (cmos 7 clk_status) t.day) × (t.day < 100)
  pub week : (cmos 3 6 ≡ shown (cmos 7 clk_status) t.week) × (t.week < 100)
  pub hour : (cmos 4 4 ≡ shown (cmos 7 clk_status) t.hour) × (t.hour < 100)
  pub minute : (cmos 5 2 ≡ shown (cmos 7 clk_status) t.minute) × (t.minute < 100)
  pub second : (cmos 6 0 ≡ shown (cmos 7 clk_status) t.second) × (t.second < 100)

bcd_to_dec-digits : (v : ℕ) → v < 100 → bcd_to_dec (v / 10 * 16 + v % 10) ≡ v
unfolding bcd_to_dec
bcd_to_dec-digits v h = omega arith

decoded :
    (status x v : ℕ)
    → has_flag status 0x04 ≡ false
    → (x ≡ shown status v) × (v < 100)
    → bcd_to_dec x ≡ v
decoded status x v bcd (e, h) = rw (e, bcd) (bcd_to_dec-digits v h)

plain : (status x v : ℕ) → has_flag status 0x04 ≡ true → (x ≡ shown status v) × (v < 100) → x ≡ v
plain status x v binary (e, h) = rw (e, binary) refl

with_century :
    (t : Time)
    → t.year < 100
    → record t { year = (t.year + 2000) % 2 ^ 32 } ≡ record t { year = t.year + 2000 }
with_century t h = ap (λ y. record t { year = y }) (omega arith)

pub get_rtc_time-IsShown :
    (cmos : ℕ → ℕ → ℕ) (t : Time)
    → IsShown cmos t
    → get_rtc_time cmos ≡ record t { year = t.year + 2000 }
unfolding get_rtc_time read_time convert_time
get_rtc_time-IsShown cmos t h =
    let status = cmos 7 clk_status in
    elim (Bool-cases (has_flag status 0x04)) [
      | inl binary ↦
          rw
            (
              binary,
              plain status (cmos 0 9) t.year binary h.year,
              plain status (cmos 1 8) t.month binary h.month,
              plain status (cmos 2 7) t.day binary h.day,
              plain status (cmos 3 6) t.week binary h.week,
              plain status (cmos 4 4) t.hour binary h.hour,
              plain status (cmos 5 2) t.minute binary h.minute,
              plain status (cmos 6 0) t.second binary h.second,
            )
            (with_century t h.year.1)
      | inr bcd ↦
          rw
            (
              bcd,
              decoded status (cmos 0 9) t.year bcd h.year,
              decoded status (cmos 1 8) t.month bcd h.month,
              decoded status (cmos 2 7) t.day bcd h.day,
              decoded status (cmos 3 6) t.week bcd h.week,
              decoded status (cmos 4 4) t.hour bcd h.hour,
              decoded status (cmos 5 2) t.minute bcd h.minute,
              decoded status (cmos 6 0) t.second bcd h.second,
            )
            (with_century t h.year.1)
    ]

-- A process that asks for the time of a clock that shows a year of this century, in binary or in
-- decimal digits, and does not go on between the reads, is answered SYSCALL_RET, and the whole time
-- goes to the address of its buffer.
pub answer_sys-IsShown :
    (k : Kernel) (cmos : ℕ → ℕ → ℕ) (msg : Message) (t : Time) (p : ℕ)
    → msg.type ≡ get_rtc
    → va2la k msg.source msg.m3p2 ≡ ok p
    → IsShown cmos t
    → answer_sys k cmos msg
      ≡ ok (record {
        reply = record msg { type = syscall_ret };
        time = some (p, record t { year = t.year + 2000 });
        power = none;
      })
unfolding answer_sys
answer_sys-IsShown k cmos msg t p e at h = rw (e, at, get_rtc_time-IsShown cmos t h) refl
