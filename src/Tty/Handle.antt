-- ===== src/Tty/Handle.antt =====
-- kernel/tty.c: what `in_process` does with a key.
use osin32bits.Base.{
  ℕ, ◌%◌, ◌<◌, ◌≡◌, refl, ap, sym, ◌∙◌, Bool, ◌-◌, inl, inr, true, false, not, ◌&&◌, List, [], ◌∷◌,
  ◌++◌, arith, ◌==◌, ltb, leb, length, if◌then◌else◌, has_flag, Bool-cases,
}
use mathlib.Core.List.{append-nil}
use osin32bits.Console.{Dir, scr_up, scr_dn, scroll_screen, select_console, nr_consoles}
use osin32bits.Console.Scroll.{IsConsole}
use osin32bits.Console.Moves.{scroll_screen-Scrolled}
use osin32bits.Keyboard.Codes.{key_up, key_down, key_enter}
use osin32bits.Ring.Queue.{IsRing, queue_of, put-IsRing, put-queue_of}
use osin32bits.Tty.{tty_in_bytes, put_key, new_line, backspace}
use osin32bits.Tty.Task.{Front, in_process, flag_ext, key_f1, key_f12, key_backspace}

-- The terminal, its console and the number of the console that is shown are well formed.
pub record IsFront (rows top y x : ℕ) (f : Front) : Type 0 where
  pub ring : IsRing tty_in_bytes f.tty.ibuf
  pub screen : IsConsole f.console rows top y x
  pub current : f.current_console < nr_consoles

-- The character that a key puts into the ring, if it is one.
unfoldable pub text_of : (key : ℕ) → List ℕ
text_of key =
    if not (has_flag key flag_ext)
    then key ∷ []
    else (if key % 0x200 == key_enter
        then new_line ∷ []
        else (if key % 0x200 == key_backspace then backspace ∷ [] else []))

-- The keys of the ring after those of `chs`, at most one.
abbrev pub queued : (q chs : List ℕ) → List ℕ
queued q chs = if ltb (length q) tty_in_bytes then q ++ chs else q

pub record IsHandled (rows y x : ℕ) (key : ℕ) (f f' : Front) : Type 0 where
  pub top' : ℕ
  pub valid : IsFront rows top' y x f'
  pub text :
      queue_of tty_in_bytes f'.tty.ibuf ≡ queued (queue_of tty_in_bytes f.tty.ibuf) (text_of key)
  pub request : f'.tty ≡ record f.tty { ibuf = f'.tty.ibuf }
  pub cursor : f'.console.cursor ≡ f.console.cursor

queued-nil : (q : List ℕ) → queued q [] ≡ q
queued-nil q = elim (Bool-cases (ltb (length q) tty_in_bytes)) [
  | inl e ↦ rw e (append-nil q)
  | inr e ↦ rw e
]

text_of-ext :
    (key : ℕ)
    → not (has_flag key flag_ext) ≡ false
    → (key % 0x200 == key_enter) ≡ false
    → (key % 0x200 == key_backspace) ≡ false
    → text_of key ≡ []
unfolding text_of
text_of-ext key e n b = rw (e, n, b)

module _ (f : Front) (rows top y x : ℕ) (v : IsFront rows top y x f) where
  puts :
      (key ch : ℕ)
      → text_of key ≡ ch ∷ []
      → IsHandled rows y x key f (record f { tty = put_key f.tty ch })
  unfolding put_key
  puts key ch e = record {
    top' = top;
    valid = record {
      ring = put-IsRing tty_in_bytes f.tty.ibuf v.ring ch;
      screen = v.screen;
      current = v.current;
    };
    text = rw e (put-queue_of tty_in_bytes f.tty.ibuf v.ring ch);
    request = refl;
    cursor = refl;
  }

  -- A key that is no text changes at most the screen and the number of the console that is shown.
  quiet :
      (key : ℕ) (f' : Front) (top' : ℕ)
      → text_of key ≡ []
      → f'.tty ≡ f.tty
      → f'.console.cursor ≡ f.console.cursor
      → IsFront rows top' y x f'
      → IsHandled rows y x key f f'
  quiet key f' top' e t c w = record {
    top' = top';
    valid = w;
    text =
        rw (e, queued-nil (queue_of tty_in_bytes f.tty.ibuf))
          (ap (λ u. queue_of tty_in_bytes u.ibuf) t);
    request = t ∙ ap (λ u. record f.tty { ibuf = u.ibuf }) (sym t);
    cursor = c;
  }

  scrolls :
      (key : ℕ) (dir : Dir)
      → text_of key ≡ []
      → IsHandled rows y x key f (record f { console = scroll_screen f.console dir })
  scrolls key dir e =
      let r = scroll_screen-Scrolled f.console dir rows top y x v.screen in
      quiet key (record f { console = scroll_screen f.console dir }) r.top' e refl r.cursor
        (record { ring = v.ring; screen = r.valid; current = v.current })

  selects :
      (key nr : ℕ)
      → text_of key ≡ []
      → IsHandled rows y x key f
          (record f { current_console = select_console f.current_console nr })
  unfolding select_console
  selects key nr e =
      quiet key (record f { current_console = select_console f.current_console nr }) top e refl refl
        (record { ring = v.ring; screen = v.screen; current = ground (arith, v.current) })

  stays : (key : ℕ) → text_of key ≡ [] → IsHandled rows y x key f f
  stays key e = quiet key f top e refl refl v

  -- For a terminal whose ring is well formed, on a well-formed console, while one of the three
  -- consoles is shown, `in_process` keeps all this, the place of the cursor and the request of the
  -- reader. A key that is a character, ENTER or BACKSPACE is appended to the ring, as itself, a new
  -- line or a backspace, if the ring is not full; no other key changes what the ring holds.
  pub in_process-IsHandled : (key : ℕ) → IsHandled rows y x key f (in_process f key)
  unfolding in_process
  in_process-IsHandled key = elim (Bool-cases (not (has_flag key flag_ext))) [
    | inl e ↦ rw e (puts key key (unfold text_of in rw e))
    | inr ext ↦
        let raw = key % 0x200 in
        rw ext (elim (Bool-cases (raw == key_up)) [
          | inl up ↦
              let no_text = text_of-ext key ext (ground arith) (ground arith) in
              rw up (either _ (scrolls key scr_dn no_text) (stays key no_text))
          | inr not_up ↦ rw not_up (elim (Bool-cases (raw == key_down)) [
            | inl down ↦
                let no_text = text_of-ext key ext (ground arith) (ground arith) in
                rw down (either _ (scrolls key scr_up no_text) (stays key no_text))
            | inr not_down ↦ rw not_down (elim (Bool-cases (leb key_f1 raw && leb raw key_f12)) [
              | inl fn ↦
                  let no_text = text_of-ext key ext (ground arith) (ground arith) in
                  rw fn (either _ (selects key (raw - key_f1) no_text) (stays key no_text))
              | inr not_fn ↦ rw not_fn (elim (Bool-cases (raw == key_enter)) [
                | inl enter ↦ rw enter (puts key new_line (unfold text_of in rw (ext, enter)))
                | inr not_enter ↦ rw not_enter (elim (Bool-cases (raw == key_backspace)) [
                  | inl back ↦
                      rw back (puts key backspace (unfold text_of in rw (ext, not_enter, back)))
                  | inr plain ↦ rw plain (stays key (text_of-ext key ext not_enter plain))
                ])
              ])
            ])
          ])
        ])
  ]
    where
      either :
          (b : Bool) {g h : Front}
          → IsHandled rows y x key f g
          → IsHandled rows y x key f h
          → IsHandled rows y x key f (if b then g else h)
      either true p q = p
      either false p q = q
