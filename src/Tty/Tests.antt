-- ===== src/Tty/Tests.antt =====
-- A reader of eight characters types "hi", corrects it and ends the line.
use osin32bits.Base.{false, ℕ, ◌≡◌, ◌>>=◌, refl, ok, [], ◌∷◌, if◌then◌else◌, arith, ltb}
use osin32bits.Ring.{Ring}
use osin32bits.Ring.Queue.{IsRing}
use osin32bits.Tty.{tty_in_bytes, Terminal, tty_dev_write}
use osin32bits.Proc.Sample.{kernel}
use osin32bits.Proc.Types.{Message, reset_msg, va2la, ldt_seg_linear}
use osin32bits.Console.{Console, Video}
use osin32bits.Console.Scroll.{IsConsole}
use osin32bits.Tty.Task.{Front, in_process, tty_do_write}
use osin32bits.Tty.Handle.{IsFront, IsHandled, in_process-IsHandled}
use osin32bits.Tty.Output.{HasShown, out_chars, tty_do_write-HasShown}
use osin32bits.Tty.Runs.{Typed}
use osin32bits.Tty.Write.{unshown, tty_dev_write-Typed, tty_dev_write-HasShown}
use osin32bits.Tty.Trace.{Trace}
use osin32bits.Tty.Line.{echoed}
use osin32bits.Tty.Echo.{on_screen}

-- Four keys, across the end of the array.
abbrev keys : Ring
keys = record {
  buf = λ i. if ltb i 100 then (if ltb i 1 then 8 else if ltb i 2 then 105 else 10) else 104;
  head = 3;
  tail = 255;
  count = 4;
}

keys-IsRing : IsRing tty_in_bytes keys
keys-IsRing = record {
  some_slot = omega arith;
  tail = omega arith;
  count = omega arith;
  head = refl;
}

-- The first console, blank.
abbrev console : Console
console = record { crtc_start = 0; orig = 0; con_size = 5440; cursor = 0; is_full = false }

console-IsConsole : IsConsole console 68 0 0 0
console-IsConsole = record {
  size = refl;
  screen = omega arith;
  end = omega arith;
  start = refl;
  cursor = refl;
  row = omega arith;
  column = omega arith;
}

abbrev blank : Video
blank i = (32, 7)

abbrev terminal : ℕ → Terminal
terminal left = record {
  tty = record {
    ibuf = keys;
    tty_caller = 3;
    tty_procnr = 5;
    tty_req_buf = 4096;
    tty_left_cnt = left;
    tty_trans_cnt = 0;
  };
  screen = (console, blank);
  bytes = λ _. 0;
  sent = [];
}

tty_dev_write-Typed_example :
    (u : Trace) × (tty_dev_write 136 (terminal 8)
      ≡ (out_chars 136 (104 ∷ 8 ∷ 105 ∷ 10 ∷ []) (console, blank) >>= λ w. ok (on_screen u w)))
    × (u.tty.ibuf.count ≡ 0)
    × Typed (unshown (terminal 8)) 8 [] (104 ∷ 8 ∷ 105 ∷ 10 ∷ []) u
unfolding echoed
tty_dev_write-Typed_example = tty_dev_write-Typed 136 (terminal 8) keys-IsRing (omega arith)

-- The same terminal with the last two keys.
abbrev two_keys : Ring
two_keys = record keys { tail = 1; count = 2 }

two_keys-IsRing : IsRing tty_in_bytes two_keys
two_keys-IsRing = record {
  some_slot = omega arith;
  tail = omega arith;
  count = omega arith;
  head = refl;
}

abbrev plain_terminal : Terminal
plain_terminal = record (terminal 8) { tty = record (terminal 8).tty { ibuf = two_keys } }

console-HasShown : HasShown 68 (console, blank)
console-HasShown = record {
  top = 0;
  y = 0;
  x = 0;
  valid = console-IsConsole;
  low = omega arith;
  high = omega arith;
}

tty_dev_write-HasShown_example :
    (u : Trace) × (w : Console × Video) × (tty_dev_write 136 plain_terminal ≡ ok (on_screen u w))
    × (out_chars 136 (105 ∷ 10 ∷ []) (console, blank) ≡ ok w)
    × HasShown 68 w
    × (u.tty.ibuf.count ≡ 0)
unfolding echoed
tty_dev_write-HasShown_example =
    tty_dev_write-HasShown 136 plain_terminal 68 two_keys-IsRing (omega arith) refl (omega arith)
      console-HasShown

abbrev front : Front
front = record { tty = (terminal 8).tty; console = console; current_console = 0 }

front-IsFront : IsFront 68 0 0 0 front
front-IsFront = record { ring = keys-IsRing; screen = console-IsConsole; current = omega arith }

-- Shift and the key up.
in_process-IsHandled_example : IsHandled 68 0 0 0x325 front (in_process front 0x325)
in_process-IsHandled_example = in_process-IsHandled front 68 0 0 0 front-IsFront 0x325

-- A process writes "AAA".
abbrev write_request : Message
write_request = record reset_msg { source = 6; type = 1004; m3i2 = 3; m3i3 = 6; m3p2 = 4096 }

write_request-lands : va2la kernel 6 4096 ≡ ok 4096
unfolding va2la ldt_seg_linear
write_request-lands = refl

tty_do_write-HasShown_example :
    (t : Console × Video) × (tty_do_write 136 4 kernel (λ _. 65) (console, blank) write_request
      ≡ ok (t, record write_request { type = 20 }))
    × (out_chars 136 (65 ∷ 65 ∷ 65 ∷ []) (console, blank) ≡ ok t)
    × HasShown 68 t
tty_do_write-HasShown_example =
    tty_do_write-HasShown 136 4 kernel (λ _. 65) (console, blank) write_request 68 4096
      write_request-lands (omega arith) (omega arith) refl
      (record {
        top = 0;
        y = 0;
        x = 0;
        valid = console-IsConsole;
        low = omega arith;
        high = omega arith;
      })
