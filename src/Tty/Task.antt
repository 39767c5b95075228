-- ===== src/Tty/Task.antt =====
-- kernel/tty.c: writes to a terminal, keys that are no text, and the messages of `task_tty`. What is
-- written does not lie in the video memory.
use osin32bits.Base.{
  ℕ, zero, suc, ◌+◌, ◌-◌, ◌%◌, Option, none, some, not, ◌&&◌, ◌||◌, Run, ok, fault, out_of_fuel,
  ◌>>=◌, ◌>>◌, assert, ◌==◌, leb, if◌then◌else◌, has_flag, min,
}
use osin32bits.Proc.Types.{Message, Kernel, va2la, hard_int, reset_msg}
use osin32bits.Console.{Console, Video, scr_up, scr_dn, scroll_screen, out_char, select_console}
use osin32bits.Keyboard.Codes.{
  flag_shift_l, flag_shift_r, flag_ctrl_l, flag_ctrl_r, key_up, key_down, key_enter,
}
use osin32bits.Hd.Types.{dev_open, dev_read, dev_write}
use osin32bits.Tty.{Tty, put_key, tty_do_read, new_line, backspace}

abbrev pub tty_out_buf_len : ℕ
tty_out_buf_len = 2

abbrev pub task_tty : ℕ
task_tty = 0

abbrev pub syscall_ret : ℕ
syscall_ret = 20

-- `out_char` for the bytes of a buffer, `n` of them from the `j`-th on.
unfoldable pub write_buf :
    (fuel : ℕ) → (buf : ℕ → ℕ) → (n j : ℕ) → Console × Video → Run (Console × Video)
write_buf fuel buf zero j s = ok s
write_buf fuel buf (suc n) j (c, v) = do
  s ← out_char fuel c v (buf j)
  write_buf fuel buf n (j + 1) s

-- `while (i)` of `tty_do_write`, on fuel; `phys_copy` fills the buffer from `p` on.
unfoldable pub write_bytes :
    (fuel rounds : ℕ) → (mem : ℕ → ℕ) → (p i : ℕ) → Console × Video → Run (Console × Video)
write_bytes fuel zero mem p i s = fault out_of_fuel
write_bytes fuel (suc rounds) mem p i s =
    let bytes = min tty_out_buf_len i in
    let rest =
      write_buf fuel (λ j. mem (p + j)) bytes 0 s
      >>= write_bytes fuel rounds mem (p + bytes) (i - bytes) in
    if i == 0 then ok s else rest

-- `tty_do_write`, for a count that is not negative, with the message that goes back.
unfoldable pub tty_do_write :
    (fuel rounds : ℕ)
    → Kernel
    → (mem : ℕ → ℕ) → Console × Video
    → Message
    → Run ((Console × Video) × Message)
tty_do_write fuel rounds k mem s msg = do
  p ← va2la k msg.m3i3 msg.m3p2
  s' ← write_bytes fuel rounds mem p msg.m3i2 s
  ok (s', record msg { type = syscall_ret })

abbrev pub flag_ext : ℕ
flag_ext = 0x100

abbrev pub key_f1 : ℕ
key_f1 = 0x111

abbrev pub key_f12 : ℕ
key_f12 = 0x11C

abbrev pub key_backspace : ℕ
key_backspace = 0x104

-- What `in_process` changes: the terminal, its console, and the console that is shown.
pub record Front : Type 0 where
  pub tty : Tty
  pub console : Console
  pub current_console : ℕ

-- `in_process`
unfoldable pub in_process : Front → (key : ℕ) → Front
in_process f key =
    let raw_code = key % 0x200 in
    let shift = has_flag key flag_shift_l || has_flag key flag_shift_r in
    let ctrl = has_flag key flag_ctrl_l || has_flag key flag_ctrl_r in
    if not (has_flag key flag_ext)
    then record f { tty = put_key f.tty key }
    else (if raw_code == key_up
        then (if shift then record f { console = scroll_screen f.console scr_dn } else f)
        else (if raw_code == key_down
            then (if shift then record f { console = scroll_screen f.console scr_up } else f)
            else (if leb key_f1 raw_code && leb raw_code key_f12
                then (if ctrl
                    then record f {
                      current_console = select_console f.current_console (raw_code - key_f1);
                    }
                    else f)
                else (if raw_code == key_enter
                    then record f { tty = put_key f.tty new_line }
                    else (if raw_code == key_backspace
                        then record f { tty = put_key f.tty backspace }
                        else f)))))

-- What a message leaves behind: the terminal, its console with the video memory, the kernel, and the
-- message that goes back, if one does.
pub record Served : Type 0 where
  pub tty : Tty
  pub screen : Console × Video
  pub kernel : Kernel
  pub reply : Option Message

-- The `switch` of `task_tty`, for the terminal of the message.
unfoldable pub serve :
    (fuel rounds : ℕ) → Kernel → (mem : ℕ → ℕ) → Tty → Console × Video → Message → Run Served
serve fuel rounds k mem t s msg = do
  assert (not (msg.source == task_tty))
  if msg.type == dev_open
      then ok (record {
        tty = t;
        screen = s;
        kernel = k;
        reply = some (record reset_msg { type = syscall_ret });
      })
      else (if msg.type == dev_read
          then (do
            (t', reply) ← tty_do_read k t msg
            ok (record { tty = t'; screen = s; kernel = k; reply = some reply }))
          else (if msg.type == dev_write
              then (do
                (s', reply) ← tty_do_write fuel rounds k mem s msg
                ok (record { tty = t; screen = s'; kernel = k; reply = some reply }))
              else (if msg.type == hard_int
                  then ok (record {
                    tty = t;
                    screen = s;
                    kernel = record k { key_pressed = 0 };
                    reply = none;
                  })
                  else ok (record { tty = t; screen = s; kernel = k; reply = none }))))
