-- ===== src/Console/Tests.antt =====
-- The second console, scrolled by one row.
use osin32bits.Base.{ℕ, ◌+◌, ◌≤◌, ◌<◌, ◌≡◌, refl, inl, inr, false, ok, fault, out_of_fuel, arith}
use osin32bits.Console.{Console, Video, scr_dn, scroll_screen, out_char}
use osin32bits.Console.Scroll.{IsConsole}
use osin32bits.Console.Output.{out_char-IsConsole, out_char-stuck}
use osin32bits.Console.Moves.{Scrolled, scroll_screen-Scrolled}

abbrev console : (cursor : ℕ) → Console
console cursor = record {
  crtc_start = 5541;
  orig = 5461;
  con_size = 5440;
  cursor = cursor;
  is_full = false;
}

abbrev blank : Video
blank i = (32, 7)

at_corner : IsConsole (console 5541) 68 1 1 0
at_corner = record {
  size = refl;
  screen = omega arith;
  end = omega arith;
  start = refl;
  cursor = refl;
  row = omega arith;
  column = omega arith;
}

below : IsConsole (console 7541) 68 1 26 0
below = record {
  size = refl;
  screen = omega arith;
  end = omega arith;
  start = refl;
  cursor = refl;
  row = omega arith;
  column = omega arith;
}

out_char-IsConsole_example :
    (c' : Console) × (m' : Video) × (top' : ℕ) × (y' : ℕ) × (x' : ℕ) × (out_char 136
        (console 7541)
        blank
        65
      ≡ ok (c', m'))
    × IsConsole c' 68 top' y' x'
    × (top' ≤ y')
    × (y' < top' + 25)
out_char-IsConsole_example =
    out_char-IsConsole 136 (console 7541) blank 65 68 1 26 0 below (inr (omega arith))
      (inr (inl (omega arith))) (omega arith)

out_char-stuck_example : out_char 500 (console 5541) blank 8 ≡ fault out_of_fuel
out_char-stuck_example =
    out_char-stuck 500 (console 5541) blank 68 1 1 0 at_corner refl refl (omega arith)

scroll_screen-Scrolled_example :
    Scrolled (console 7541) 68 1 26 0 (scroll_screen (console 7541) scr_dn)
scroll_screen-Scrolled_example = scroll_screen-Scrolled (console 7541) scr_dn 68 1 26 0 below
