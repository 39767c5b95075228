-- ===== src/Sys/Tests.antt =====
-- The clock shows the 26th of November 2026, 05:32:08, in decimal digits.
use osin32bits.Base.{ℕ, ◌≡◌, refl, some, none, ok, arith, ◌==◌, if◌then◌else◌}
use osin32bits.Proc.Sample.{kernel}
use osin32bits.Proc.Types.{Message, reset_msg, va2la, ldt_seg_linear}
use osin32bits.Sys.{Time, get_rtc, answer_sys}
use osin32bits.Sys.Clock.{IsShown, answer_sys-IsShown}

abbrev cmos : ℕ → ℕ → ℕ
cmos k r =
    if k == 0
    then 0x26
    else (if k == 1
        then 0x11
        else (if k == 2
            then 0x26
            else (if k == 3
                then 0x05
                else (if k == 4
                    then 0x05
                    else (if k == 5 then 0x32 else (if k == 6 then 0x08 else 0x02))))))

abbrev now : Time
now = record { year = 26; month = 11; day = 26; week = 5; hour = 5; minute = 32; second = 8 }

abbrev request : Message
request = record reset_msg { source = 6; type = get_rtc; m3p2 = 4096 }

request-lands : va2la kernel 6 4096 ≡ ok 4096
unfolding va2la ldt_seg_linear
request-lands = refl

cmos-IsShown : IsShown cmos now
cmos-IsShown = record {
  year = (refl, omega arith);
  month = (refl, omega arith);
  day = (refl, omega arith);
  week = (refl, omega arith);
  hour = (refl, omega arith);
  minute = (refl, omega arith);
  second = (refl, omega arith);
}

answer_sys-IsShown_example :
    answer_sys kernel cmos request
    ≡ ok (record {
      reply = record request { type = 20 };
      time = some (4096, record now { year = 2026 });
      power = none;
    })
answer_sys-IsShown_example =
    answer_sys-IsShown kernel cmos request now 4096 refl request-lands cmos-IsShown
