-- ===== src/Console/Steps.antt =====
-- kernel/console.c `out_char`: its steps keep a console well formed.
use osin32bits.Base.{
  ℕ, ◌+◌, ◌-◌, ◌*◌, ◌/◌, ◌%◌, ◌≤◌, ◌<◌, ◌≡◌, refl, ◌≢◌, ◌⊎◌, inl, inr, true, arith, ◌==◌, ltb, leb,
  Bool-cases,
}
use osin32bits.Console.{scr_width, Console, Video, usub, place_char, wrap_screen}
use osin32bits.Console.Scroll.{IsConsole, usub_le, cursor_off}

-- Where the cursor can go to from a console with the cursor `off` cells from the front.
pub record Moved (c : Console) (ch rows off : ℕ) (c' : Console) : Type 0 where
  pub off' : ℕ
  pub same : c' ≡ record c { cursor = c.orig + off' }
  pub inside : off' ≤ rows * scr_width
  pub back : off ≤ off' + 1
  pub stays : ch ≢ 8 → off ≤ off'

pub place_char-Moved :
    (c : Console) (m : Video) (ch rows top y x : ℕ)
    → IsConsole c rows top y x
    → Moved c ch rows (y * scr_width + x) (place_char c m ch).0
unfolding place_char
place_char-Moved c m ch rows top y x v =
    let off = cursor_off c rows top y x v in
    elim (Bool-cases (ch == 10)) [
      | inl e ↦
          let line : (y * scr_width + x) / scr_width ≡ y = omega (arith, v.column) in
          record {
            off' = scr_width * (y + 1);
            same = rw (e, off, line);
            inside = omega (arith, v.row);
            back = omega (arith, v.column);
            stays = λ _. omega (arith, v.column);
          }
      | inr e ↦ elim (Bool-cases (ch == 8)) [
        | inl b ↦ elim (Bool-cases (ltb c.orig c.cursor)) [
          | inl l ↦
              let back : c.cursor - 1 ≡ c.orig + (y * scr_width + x - 1) =
                ground (arith, v.cursor) in
              record {
                off' = y * scr_width + x - 1;
                same = rw (e, b, l, back);
                inside = omega (arith, v.row, v.column);
                back = omega arith;
                stays = λ n. absurd (ground arith);
              }
          | inr l ↦ record {
            off' = y * scr_width + x;
            same = rw (e, b, l, ← v.cursor);
            inside = omega (arith, v.row, v.column);
            back = omega arith;
            stays = λ n. omega arith;
          }
        ]
        | inr b ↦
            let next : c.cursor + 1 ≡ c.orig + (y * scr_width + x + 1) = omega (arith, v.cursor) in
            record {
              off' = y * scr_width + x + 1;
              same = rw (e, b, next);
              inside = omega (arith, v.row, v.column);
              back = omega arith;
              stays = λ s. omega arith;
            }
      ]
    ]

module _ (c : Console) (m : Video) (rows top y x : ℕ) (v : IsConsole c rows top y x) where
  moved_off : (off' : ℕ) → off' ≤ rows * scr_width → usub (c.orig + off') c.orig ≡ off'
  moved_off off' h =
      omega (
        arith,
        usub_le (c.orig + off') c.orig (omega arith) (omega (arith, v.end, v.size, v.screen)),
      )

  pub wrap_screen-IsConsole :
      (off' : ℕ)
      → off' ≤ rows * scr_width
      → ((c.is_full ≡ true) ⊎ (top * scr_width ≤ off'))
      → (top' : ℕ) × (y' : ℕ) × (x' : ℕ) × IsConsole
          (wrap_screen (record c { cursor = c.orig + off' }, m)).0
          rows
          top'
          y'
          x'
        × (((wrap_screen (record c { cursor = c.orig + off' }, m)).0.is_full ≡ true) ⊎ (top' ≤ y'))
  unfolding wrap_screen
  wrap_screen-IsConsole off' h wraps = elim (Bool-cases (leb c.con_size off')) [
    | inl e ↦
        let all : off' ≡ rows * scr_width = ground (arith, v.size) in
        let column : off' % scr_width ≡ 0 = omega arith in
        (
          0,
          24,
          0,
          rw (moved_off off' h, e, column)
              (record {
                size = v.size;
                screen = omega (arith, v.screen);
                end = v.end;
                start = omega arith;
                cursor = omega arith;
                row = omega (arith, v.screen);
                column = omega arith;
              }),
          rw (moved_off off' h, e) (inl refl),
        )
    | inr e ↦
        let less : off' < rows * scr_width = ground (arith, v.size) in
        (
          top,
          off' / scr_width,
          off' % scr_width,
          rw (moved_off off' h, e)
              (record {
                size = v.size;
                screen = v.screen;
                end = v.end;
                start = v.start;
                cursor = omega arith;
                row = omega arith;
                column = omega arith;
              }),
          rw (moved_off off' h, e) (kept wraps),
        )
  ]
    where
      kept :
          ((c.is_full ≡ true) ⊎ (top * scr_width ≤ off'))
          → (c.is_full ≡ true) ⊎ (top ≤ off' / scr_width)
      kept (inl full) = inl full
      kept (inr low) = inr (omega arith)
