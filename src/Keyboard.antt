-- ===== src/Keyboard.antt =====
-- kernel/keyboard.c: from scan codes to keys. A `char` of the buffer keeps the byte; `code_with_E0`
-- and `column`, which every read sets before it uses them, are values here, and setting the lights
-- of the keyboard is port output. A read from an empty buffer waits, for ever if no key comes.
mod Keymap
pub mod Codes
pub mod Reads
mod Tests
use osin32bits.Base.{
  ℕ, suc, ◌+◌, ◌-◌, ◌*◌, ◌/◌, ◌%◌, Bool, true, false, not, ◌&&◌, ◌||◌, Option, none, some, Run, ok,
  fault, out_of_fuel, ◌>>=◌, List, [], ◌∷◌, ◌==◌, ltb, leb, if◌then◌else◌, get_or,
}
use osin32bits.Ring.{Ring, put, take}
use Keymap.{keymap}
use Codes.{
  flag_alt_l, flag_alt_r, flag_ctrl_l, flag_ctrl_r, flag_pad, flag_shift_l, flag_shift_r, key_alt_l,
  key_alt_r, key_caps_lock, key_ctrl_l, key_ctrl_r, key_delete, key_down, key_end, key_enter,
  key_home, key_insert, key_left, key_num_lock, key_pagedown, key_pageup, key_right,
  key_scroll_lock, key_shift_l, key_shift_r, key_up, pad_0, pad_9, pad_dot, pad_down, pad_end,
  pad_enter, pad_home, pad_ins, pad_left, pad_minus, pad_pagedown, pad_pageup, pad_plus, pad_right,
  pad_slash, pad_star, pad_up,
}

abbrev pub kb_in_bytes : ℕ
kb_in_bytes = 32

pub record Keyboard : Type 0 where
  pub kb_in : Ring
  pub key_pressed : ℕ
  pub shift_l : Bool
  pub shift_r : Bool
  pub ctrl_l : Bool
  pub ctrl_r : Bool
  pub alt_l : Bool
  pub alt_r : Bool
  pub caps_lock : Bool
  pub num_lock : Bool
  pub scroll_lock : Bool

-- `keyboard_handler`, for the byte that the port gives.
unfoldable pub keyboard_handler : Keyboard → ℕ → Keyboard
keyboard_handler k scan_code =
    if ltb k.kb_in.count kb_in_bytes
    then record k { kb_in = put kb_in_bytes k.kb_in scan_code; key_pressed = 1 }
    else k

-- `init_keyboard`
unfoldable pub init_keyboard : Keyboard → Keyboard
init_keyboard k = record {
  kb_in = record k.kb_in { head = 0; tail = 0; count = 0 };
  key_pressed = k.key_pressed;
  shift_l = false;
  shift_r = false;
  ctrl_l = false;
  ctrl_r = false;
  alt_l = false;
  alt_r = false;
  caps_lock = false;
  num_lock = true;
  scroll_lock = false;
}

-- `get_byte_from_kbuf`
unfoldable pub get_byte_from_kbuf : Ring → Run (ℕ × Ring)
get_byte_from_kbuf r = if r.count == 0 then fault out_of_fuel else ok (take kb_in_bytes r)

-- The loop that compares the bytes after 0xE1 with those of the Pause key.
unfoldable pub read_pause : List ℕ → Ring → Run (Bool × Ring)
read_pause [] r = ok (true, r)
read_pause (b ∷ bs) r = do
  (x, r') ← get_byte_from_kbuf r
  if x == b then read_pause bs r' else ok (false, r')

-- What one read finds in the buffer: a Pause or Print Screen key, or a scan code, with whether it
-- stands after 0xE0.
pub data Scan : Type 0 where
  special : Scan
  code : ℕ → (after_e0 : Bool) → Scan

-- Two more bytes of Print Screen, if they are 0xE0 and `last`.
unfoldable pub read_print : (scan_code last : ℕ) → Ring → Run (Scan × Ring)
read_print scan_code last r = do
  (x, r1) ← get_byte_from_kbuf r
  if x == 0xE0
      then (do
        (y, r2) ← get_byte_from_kbuf r1
        ok (if y == last then (special, r2) else (code scan_code true, r2)))
      else ok (code scan_code true, r1)

unfoldable pub read_scan : Ring → Run (Scan × Ring)
read_scan r = do
  (c, r1) ← get_byte_from_kbuf r
  if c == 0xE1
      then (do
        (is_pausebreak, r2) ← read_pause (0x1D ∷ 0x45 ∷ 0xE1 ∷ 0x9D ∷ 0xC5 ∷ []) r1
        ok (if is_pausebreak then (special, r2) else (code c false, r2)))
      else (if c == 0xE0
          then (do
            (d, r2) ← get_byte_from_kbuf r1
            if d == 0x2A
                then read_print d 0x37 r2
                else (if d == 0xB7 then read_print d 0xAA r2 else ok (code d true, r2)))
          else ok (code c false, r1))

-- `keyrow[column]`
unfoldable pub key_of : Keyboard → (scan_code : ℕ) → (after_e0 : Bool) → ℕ
key_of k scan_code after_e0 =
    let row = scan_code % 0x80 * 3 in
    let plain = get_or keymap row 0 in
    let shifted = k.shift_l || k.shift_r in
    let caps = if k.caps_lock && (leb 97 plain && leb plain 122) then not shifted else shifted in
    get_or keymap (row + (if after_e0 then 2 else if caps then 1 else 0)) 0

-- The modifier that the key is.
unfoldable pub set_modifier : Keyboard → (key : ℕ) → (make : Bool) → Keyboard
set_modifier k key make =
    if key == key_shift_l
    then record k { shift_l = make }
    else (if key == key_shift_r
        then record k { shift_r = make }
        else (if key == key_ctrl_l
            then record k { ctrl_l = make }
            else (if key == key_ctrl_r
                then record k { ctrl_r = make }
                else (if key == key_alt_l
                    then record k { alt_l = make }
                    else (if key == key_alt_r
                        then record k { alt_l = make }
                        else (if (key == key_caps_lock) && make
                            then record k { caps_lock = not k.caps_lock }
                            else (if (key == key_num_lock) && make
                                then record k { num_lock = not k.num_lock }
                                else (if (key == key_scroll_lock) && make
                                    then record k { scroll_lock = not k.scroll_lock }
                                    else k))))))))

abbrev pub is_pad : ℕ → Bool
is_pad key = leb pad_slash key && leb key pad_9

-- The entry of a `switch`, and what stands for `default`.
abbrev case_of : List (ℕ × ℕ) → (key default : ℕ) → ℕ
case_of [] key default = default
case_of ((k, v) ∷ cases) key default = if key == k then v else case_of cases key default

-- The key of the pad without Num Lock; PAD_5 has none and stays.
abbrev pub pad_move : ℕ → ℕ
pad_move key =
    case_of
      ((pad_home, key_home)
        ∷ (pad_end, key_end)
        ∷ (pad_pageup, key_pageup)
        ∷ (pad_pagedown, key_pagedown)
        ∷ (pad_ins, key_insert)
        ∷ (pad_up, key_up)
        ∷ (pad_down, key_down)
        ∷ (pad_left, key_left)
        ∷ (pad_right, key_right)
        ∷ (pad_dot, key_delete)
        ∷ [])
      key key

-- The key that a key of the pad stands for.
unfoldable pub pad_key : (num_lock : Bool) → ℕ → ℕ
pad_key num_lock key =
    case_of
      ((pad_slash, 47)
        ∷ (pad_star, 42)
        ∷ (pad_minus, 45)
        ∷ (pad_plus, 43)
        ∷ (pad_enter, key_enter)
        ∷ [])
      key
      (if num_lock && (leb pad_0 key && leb key pad_9)
        then key - pad_0 + 48
        else if num_lock && (key == pad_dot)
        then 46
        else pad_move key)

abbrev flag_if : Bool → ℕ → ℕ
flag_if b f = if b then f else 0

-- `key |= …`: a key is below flag_shift_l, so the flags are above its bits.
unfoldable pub with_flags : Keyboard → (key : ℕ) → (pad : Bool) → ℕ
with_flags k key pad =
    key
    + flag_if k.shift_l flag_shift_l
    + flag_if k.shift_r flag_shift_r
    + flag_if k.ctrl_l flag_ctrl_l
    + flag_if k.ctrl_r flag_ctrl_r
    + flag_if k.alt_l flag_alt_l
    + flag_if k.alt_r flag_alt_r
    + flag_if pad flag_pad

-- The part of `keyboard_read` after a scan code is read: the keyboard, and the key for `in_process`.
unfoldable pub handle_code : Keyboard → (scan_code : ℕ) → (after_e0 : Bool) → Keyboard × Option ℕ
handle_code k scan_code after_e0 =
    let make = ltb (scan_code % 256) 0x80 in
    let key = key_of k scan_code after_e0 in
    let k' = set_modifier k key make in
    let final = if is_pad key then pad_key k'.num_lock key else key in
    (k', if make then some (with_flags k' final (is_pad key)) else none)

abbrev handle_scan : Keyboard → Scan → Keyboard × Option ℕ
handle_scan k special = (k, none)
handle_scan k (code c after_e0) = handle_code k c after_e0

-- `keyboard_read`; the key goes to `in_process`.
unfoldable pub keyboard_read : Keyboard → Run (Keyboard × Option ℕ)
keyboard_read k =
    if k.kb_in.count == 0
    then ok (k, none)
    else (do (scan, r) ← read_scan k.kb_in; ok (handle_scan (record k { kb_in = r }) scan))
