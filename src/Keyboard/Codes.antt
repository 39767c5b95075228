-- ===== src/Keyboard/Codes.antt =====
-- include/keyboard.h: the codes of the special keys, and the flags.
use osin32bits.Base.{ℕ}

abbrev pub key_enter : ℕ
key_enter = 0x103

abbrev pub key_shift_l : ℕ
key_shift_l = 0x108

abbrev pub key_shift_r : ℕ
key_shift_r = 0x109

abbrev pub key_ctrl_l : ℕ
key_ctrl_l = 0x10a

abbrev pub key_ctrl_r : ℕ
key_ctrl_r = 0x10b

abbrev pub key_alt_l : ℕ
key_alt_l = 0x10c

abbrev pub key_alt_r : ℕ
key_alt_r = 0x10d

abbrev pub key_caps_lock : ℕ
key_caps_lock = 0x10e

abbrev pub key_num_lock : ℕ
key_num_lock = 0x10f

abbrev pub key_scroll_lock : ℕ
key_scroll_lock = 0x110

abbrev pub key_insert : ℕ
key_insert = 0x11f

abbrev pub key_delete : ℕ
key_delete = 0x120

abbrev pub key_home : ℕ
key_home = 0x121

abbrev pub key_end : ℕ
key_end = 0x122

abbrev pub key_pageup : ℕ
key_pageup = 0x123

abbrev pub key_pagedown : ℕ
key_pagedown = 0x124

abbrev pub key_up : ℕ
key_up = 0x125

abbrev pub key_down : ℕ
key_down = 0x126

abbrev pub key_left : ℕ
key_left = 0x127

abbrev pub key_right : ℕ
key_right = 0x128

abbrev pub pad_slash : ℕ
pad_slash = 0x12c

abbrev pub pad_star : ℕ
pad_star = 0x12d

abbrev pub pad_minus : ℕ
pad_minus = 0x12e

abbrev pub pad_plus : ℕ
pad_plus = 0x12f

abbrev pub pad_enter : ℕ
pad_enter = 0x130

abbrev pub pad_dot : ℕ
pad_dot = 0x131

abbrev pub pad_0 : ℕ
pad_0 = 0x132

abbrev pub pad_9 : ℕ
pad_9 = 0x13b

abbrev pub pad_up : ℕ
pad_up = 0x13a

abbrev pub pad_down : ℕ
pad_down = 0x134

abbrev pub pad_left : ℕ
pad_left = 0x136

abbrev pub pad_right : ℕ
pad_right = 0x138

abbrev pub pad_home : ℕ
pad_home = 0x139

abbrev pub pad_end : ℕ
pad_end = 0x133

abbrev pub pad_pageup : ℕ
pad_pageup = 0x13b

abbrev pub pad_pagedown : ℕ
pad_pagedown = 0x135

abbrev pub pad_ins : ℕ
pad_ins = 0x132

abbrev pub flag_shift_l : ℕ
flag_shift_l = 0x200

abbrev pub flag_shift_r : ℕ
flag_shift_r = 0x400

abbrev pub flag_ctrl_l : ℕ
flag_ctrl_l = 0x800

abbrev pub flag_ctrl_r : ℕ
flag_ctrl_r = 0x1000

abbrev pub flag_alt_l : ℕ
flag_alt_l = 0x2000

abbrev pub flag_alt_r : ℕ
flag_alt_r = 0x4000

abbrev pub flag_pad : ℕ
flag_pad = 0x8000
