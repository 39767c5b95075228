-- ===== src/Tty.antt =====
-- kernel/tty.c: the input side of a terminal. A key is 32 bits wide; a character is a byte, and
-- comparing a signed char with ' ' and '~' is comparing the byte. Counts are not negative.
pub mod Trace
pub mod Line
pub mod Echo
pub mod Keys
pub mod Runs
pub mod Write
pub mod Task
pub mod Output
pub mod Handle
mod Tests
use osin32bits.Base.{
  ℕ, zero, suc, ◌+◌, ◌-◌, ◌%◌, not, Bool, ◌&&◌, ◌||◌, Run, ok, fault, out_of_fuel, List, [], ◌∷◌,
  ◌++◌, ◌==◌, ltb, leb, update, if◌then◌else◌,
}
use osin32bits.Proc.Types.{Message, Kernel, va2la}
use osin32bits.Base.{◌>>=◌}
use osin32bits.Console.{Console, Video, out_char}
use osin32bits.Ring.{Ring, put, take}

abbrev pub tty_in_bytes : ℕ
tty_in_bytes = 256

abbrev pub suspend_proc : ℕ
suspend_proc = 14

abbrev pub new_line : ℕ
new_line = 10

abbrev pub backspace : ℕ
backspace = 8

-- `ch >= ' ' && ch <= '~'`
abbrev pub is_printable : ℕ → Bool
is_printable ch = leb 32 ch && leb ch 126

-- `TTY`, without its console.
pub record Tty : Type 0 where
  pub ibuf : Ring
  pub tty_caller : ℕ
  pub tty_procnr : ℕ
  pub tty_req_buf : ℕ
  pub tty_left_cnt : ℕ
  pub tty_trans_cnt : ℕ

-- A message RESUME_PROC to the process `dest`.
pub record Resume : Type 0 where
  pub dest : ℕ
  pub proc_nr : ℕ
  pub cnt : ℕ

-- A terminal with what it writes to: its console with the video memory, the bytes of memory by linear
-- address, and the messages sent, the oldest first.
pub record Terminal : Type 0 where
  pub tty : Tty
  pub screen : Console × Video
  pub bytes : ℕ → ℕ
  pub sent : List Resume

-- `put_key`
unfoldable pub put_key : Tty → ℕ → Tty
put_key t key = record t { ibuf = put tty_in_bytes t.ibuf key }

-- `tty_do_read`; the result is the message that goes back to the caller.
unfoldable pub tty_do_read : Kernel → Tty → Message → Run (Tty × Message)
tty_do_read s t msg = do
  buf ← va2la s msg.m3i3 msg.m3p2
  ok (
    record t {
      tty_caller = msg.source;
      tty_procnr = msg.m3i3;
      tty_req_buf = buf;
      tty_left_cnt = msg.m3i2;
      tty_trans_cnt = 0;
    },
    record msg { type = suspend_proc; m3i2 = msg.m3i2 },
  )

-- A character is shown and goes into the buffer of the request, or takes the last one back.
unfoldable pub edit_char : (fuel : ℕ) → Terminal → ℕ → Run Terminal
edit_char fuel s ch =
    let t = s.tty in
    if is_printable ch
    then (do
      screen ← out_char fuel s.screen.0 s.screen.1 ch
      ok (record s {
        tty = record t { tty_trans_cnt = suc t.tty_trans_cnt; tty_left_cnt = t.tty_left_cnt - 1 };
        screen = screen;
        bytes = update s.bytes (t.tty_req_buf + t.tty_trans_cnt) ch;
      }))
    else (if (ch == backspace) && not (t.tty_trans_cnt == 0)
        then (do
          screen ← out_char fuel s.screen.0 s.screen.1 ch
          ok (record s {
            tty = record t {
              tty_trans_cnt = t.tty_trans_cnt - 1;
              tty_left_cnt = suc t.tty_left_cnt;
            };
            screen = screen;
          }))
        else ok s)

-- The end of a line, or of the buffer, completes the request.
unfoldable pub complete : (fuel : ℕ) → Terminal → ℕ → Run Terminal
complete fuel s ch =
    let t = s.tty in
    if (ch == new_line) || (t.tty_left_cnt == 0)
    then (do
      screen ← out_char fuel s.screen.0 s.screen.1 new_line
      ok (record s {
        tty = record t { tty_left_cnt = 0 };
        screen = screen;
        sent =
            s.sent
            ++ record { dest = t.tty_caller; proc_nr = t.tty_procnr; cnt = t.tty_trans_cnt } ∷ [];
      }))
    else ok s

-- What the loop does with a key.
unfoldable pub write_key : (fuel : ℕ) → Terminal → ℕ → Run Terminal
write_key fuel s key =
    let ch = key % 256 in
    if s.tty.tty_left_cnt == 0 then ok s else (edit_char fuel s ch >>= λ u. complete fuel u ch)

-- `while (tty->ibuf_cnt)`, on fuel of its own; `fuel` is that of `out_char`.
unfoldable pub dev_write : (fuel rounds : ℕ) → Terminal → Run Terminal
dev_write fuel zero s = fault out_of_fuel
dev_write fuel (suc rounds) s =
    let (key, r) = take tty_in_bytes s.tty.ibuf in
    let rest =
      write_key fuel (record s { tty = record s.tty { ibuf = r } }) key >>= dev_write fuel rounds in
    if s.tty.ibuf.count == 0 then ok s else rest

unfoldable pub tty_dev_write : (fuel : ℕ) → Terminal → Run Terminal
tty_dev_write fuel s = dev_write fuel (suc s.tty.ibuf.count) s
