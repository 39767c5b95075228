-- ===== src/Keyboard/Tests.antt =====
-- Reads from a buffer of six bytes, across the end of the array.
use osin32bits.Base.{
  ℕ, Run, fault, Option, ◌==◌, ◌+◌, ◌-◌, ◌≡◌, refl, true, false, ok, none, [], ◌∷◌, if◌then◌else◌,
  arith, ltb, get_or,
}
use osin32bits.Ring.{take, Ring}
use osin32bits.Keyboard.{
  read_scan, get_byte_from_kbuf, handle_code, set_modifier, key_of, with_flags, Keyboard,
  keyboard_read,
}
use osin32bits.Keyboard.Reads.{pause, Holds, keyboard_read-Form, keyboard_read-alt_r}

-- The Pause key.
abbrev bytes : Ring
bytes = record {
  buf = λ i.
      get_or (0xE1 ∷ 0x1D ∷ 0x45 ∷ 0xE1 ∷ 0x9D ∷ 0xC5 ∷ []) (if ltb i 30 then i + 2 else i - 30) 0;
  head = 4;
  tail = 30;
  count = 6;
}

abbrev keyboard : Keyboard
keyboard = record {
  kb_in = bytes;
  key_pressed = 1;
  shift_l = false;
  shift_r = false;
  ctrl_l = false;
  ctrl_r = false;
  alt_l = false;
  alt_r = false;
  caps_lock = false;
  num_lock = true;
  scroll_lock = false;
}

bytes-Holds : Holds bytes (0xE1 ∷ 0x1D ∷ 0x45 ∷ 0xE1 ∷ 0x9D ∷ 0xC5 ∷ [])
bytes-Holds = record {
  ring = record { some_slot = omega arith; tail = omega arith; count = omega arith; head = refl };
  queue = refl;
}

keyboard_read-Form_example :
    (r : Ring) × (keyboard_read keyboard ≡ ok (record keyboard { kb_in = r }, none)) × Holds r []
keyboard_read-Form_example = keyboard_read-Form keyboard [] pause bytes-Holds

-- The right Alt key is pressed.
abbrev alt_pressed : Keyboard
alt_pressed = record keyboard {
  kb_in = record { buf = λ i. if i == 0 then 0xE0 else 0x38; head = 2; tail = 0; count = 2 };
}

abbrev read_of : Keyboard → Run (Keyboard × Option ℕ) → Keyboard × Option ℕ
read_of k (ok r) = r
read_of k (fault e) = (k, none)

abbrev after_alt : Keyboard × Option ℕ
after_alt = read_of alt_pressed (keyboard_read alt_pressed)

keyboard_read-alt_r_example : after_alt.0.alt_r ≡ alt_pressed.alt_r
unfolding keyboard_read read_scan get_byte_from_kbuf take handle_code set_modifier key_of with_flags
keyboard_read-alt_r_example = keyboard_read-alt_r alt_pressed after_alt.0 after_alt.1 refl

alt_taken_for_left : after_alt.0.alt_l ≡ true
unfolding keyboard_read read_scan get_byte_from_kbuf take handle_code set_modifier key_of with_flags
alt_taken_for_left = refl
