-- ===== src/Keyboard/Reads.antt =====
-- kernel/keyboard.c: the byte sequences of the keys, and what a read makes of them.
use osin32bits.Base.{
  ℕ, ◌≡◌, refl, ◌≢◌, inl, inr, Bool, true, false, ok, fault, Run, ◌>>=◌, Option, List, [], ◌∷◌,
  ◌++◌, arith, ◌==◌, length, Bool-cases, ◌∙◌, sym, ap,
}
use osin32bits.Ring.{Ring, take}
use osin32bits.Ring.Queue.{IsRing, queue_of, take-queue_of, length-entries}
use osin32bits.Keyboard.{
  kb_in_bytes, Keyboard, get_byte_from_kbuf, read_pause, Scan, special, code, read_print, read_scan,
  set_modifier, handle_code, handle_scan, keyboard_read,
}

-- The bytes that a keyboard sends for one event.
pub data Form : List ℕ → Scan → Type 0 where
  plain : {c : ℕ} → c ≢ 0xE0 → c ≢ 0xE1 → Form (c ∷ []) (code c false)
  extended : {d : ℕ} → d ≢ 0x2A → d ≢ 0xB7 → Form (0xE0 ∷ d ∷ []) (code d true)
  pause : Form (0xE1 ∷ 0x1D ∷ 0x45 ∷ 0xE1 ∷ 0x9D ∷ 0xC5 ∷ []) special
  print_made : Form (0xE0 ∷ 0x2A ∷ 0xE0 ∷ 0x37 ∷ []) special
  print_broken : Form (0xE0 ∷ 0xB7 ∷ 0xE0 ∷ 0xAA ∷ []) special

-- A ring that holds the bytes `xs`.
pub record Holds (r : Ring) (xs : List ℕ) : Type 0 where
  pub ring : IsRing kb_in_bytes r
  pub queue : queue_of kb_in_bytes r ≡ xs

pub Holds-count : (r : Ring) (x : ℕ) (xs : List ℕ) → Holds r (x ∷ xs) → (r.count == 0) ≡ false
Holds-count r x xs h =
    let same : length (queue_of kb_in_bytes r) ≡ length (x ∷ xs) = ap length h.queue in
    ground (arith, length-entries kb_in_bytes r.buf r.count r.tail)

get_byte_lem :
    (r : Ring) (x : ℕ) (xs : List ℕ)
    → Holds r (x ∷ xs)
    → (r' : Ring) × (get_byte_from_kbuf r ≡ ok (x, r')) × Holds r' xs
unfolding get_byte_from_kbuf
get_byte_lem r x xs h =
    let e = Holds-count r x xs h in
    let (v, q) = take-queue_of kb_in_bytes r h.ring (ground arith) in
    let same : (take kb_in_bytes r).0 ∷ queue_of kb_in_bytes (take kb_in_bytes r).1 ≡ x ∷ xs =
      sym q ∙ h.queue in
    let first : (take kb_in_bytes r).0 ≡ x = cc same in
    (
      (take kb_in_bytes r).1,
      rw e (ap (λ y. ok (y, (take kb_in_bytes r).1)) first),
      record { ring = v; queue = cc same },
    )

read_pause_lem :
    (bs : List ℕ) (r : Ring) (xs : List ℕ)
    → Holds r (bs ++ xs)
    → (r' : Ring) × (read_pause bs r ≡ ok (true, r')) × Holds r' xs
unfolding read_pause
read_pause_lem [] r xs h = (r, refl, h)
read_pause_lem (b ∷ bs) r xs h =
    let (r1, get, h1) = get_byte_lem r b (bs ++ xs) h in
    let (r2, rest, h2) = read_pause_lem bs r1 xs h1 in
    let same : (b == b) ≡ true = ground arith in (r2, rw (get, same, rest), h2)

read_print_lem :
    (c last : ℕ) (r : Ring) (xs : List ℕ)
    → Holds r (0xE0 ∷ last ∷ xs)
    → (r' : Ring) × (read_print c last r ≡ ok (special, r')) × Holds r' xs
unfolding read_print
read_print_lem c last r xs h =
    let (r1, get1, h1) = get_byte_lem r 0xE0 (last ∷ xs) h in
    let (r2, get2, h2) = get_byte_lem r1 last xs h1 in
    let same : (last == last) ≡ true = ground arith in (r2, rw (get1, get2, same), h2)

-- A read from a buffer that starts with the bytes of one event takes these bytes and no more, and
-- finds the event.
read_scan-Form :
    {bytes : List ℕ} {scan : Scan} (r : Ring) (xs : List ℕ)
    → Form bytes scan
    → Holds r (bytes ++ xs)
    → (r' : Ring) × (read_scan r ≡ ok (scan, r')) × Holds r' xs
unfolding read_scan
read_scan-Form r xs (plain {c} a b) h =
    let (r1, get1, h1) = get_byte_lem r c xs h in
    let not_e1 : (c == 0xE1) ≡ false = ground arith in
    let not_e0 : (c == 0xE0) ≡ false = ground arith in (r1, rw (get1, not_e1, not_e0), h1)
read_scan-Form r xs (extended {d} a b) h =
    let (r1, get1, h1) = get_byte_lem r 0xE0 (d ∷ xs) h in
    let (r2, get2, h2) = get_byte_lem r1 d xs h1 in
    let not_2a : (d == 0x2A) ≡ false = ground arith in
    let not_b7 : (d == 0xB7) ≡ false = ground arith in (r2, rw (get1, get2, not_2a, not_b7), h2)
read_scan-Form r xs pause h =
    let (r1, get1, h1) = get_byte_lem r 0xE1 (0x1D ∷ 0x45 ∷ 0xE1 ∷ 0x9D ∷ 0xC5 ∷ xs) h in
    let (r2, rest, h2) = read_pause_lem (0x1D ∷ 0x45 ∷ 0xE1 ∷ 0x9D ∷ 0xC5 ∷ []) r1 xs h1 in
    (r2, rw (get1, rest), h2)
read_scan-Form r xs print_made h =
    let (r1, get1, h1) = get_byte_lem r 0xE0 (0x2A ∷ 0xE0 ∷ 0x37 ∷ xs) h in
    let (r2, get2, h2) = get_byte_lem r1 0x2A (0xE0 ∷ 0x37 ∷ xs) h1 in
    let (r3, rest, h3) = read_print_lem 0x2A 0x37 r2 xs h2 in (r3, rw (get1, get2, rest), h3)
read_scan-Form r xs print_broken h =
    let (r1, get1, h1) = get_byte_lem r 0xE0 (0xB7 ∷ 0xE0 ∷ 0xAA ∷ xs) h in
    let (r2, get2, h2) = get_byte_lem r1 0xB7 (0xE0 ∷ 0xAA ∷ xs) h1 in
    let (r3, rest, h3) = read_print_lem 0xB7 0xAA r2 xs h2 in (r3, rw (get1, get2, rest), h3)

Form-not_empty :
    {bytes : List ℕ} {scan : Scan} (r : Ring) (xs : List ℕ)
    → Form bytes scan
    → Holds r (bytes ++ xs)
    → (r.count == 0) ≡ false
Form-not_empty r xs (plain {c} a b) h = Holds-count r c xs h
Form-not_empty r xs (extended {d} a b) h = Holds-count r 0xE0 (d ∷ xs) h
Form-not_empty r xs pause h = Holds-count r 0xE1 _ h
Form-not_empty r xs print_made h = Holds-count r 0xE0 _ h
Form-not_empty r xs print_broken h = Holds-count r 0xE0 _ h

-- If the buffer holds the bytes of one event and then others, `keyboard_read` returns: it takes
-- exactly the bytes of the event, leaves the others in order, and does what `handle_scan` does with
-- the event.
pub keyboard_read-Form :
    {bytes : List ℕ} {scan : Scan} (k : Keyboard) (xs : List ℕ)
    → Form bytes scan
    → Holds k.kb_in (bytes ++ xs)
    → (r : Ring) × (keyboard_read k ≡ ok (handle_scan (record k { kb_in = r }) scan)) × Holds r xs
unfolding keyboard_read
keyboard_read-Form k xs f h =
    let some_byte = Form-not_empty k.kb_in xs f h in
    let (r, run, h') = read_scan-Form k.kb_in xs f h in (r, rw (some_byte, run), h')

set_modifier-alt_r :
    (k : Keyboard) (key : ℕ) (make : Bool) → (set_modifier k key make).alt_r ≡ k.alt_r
unfolding set_modifier
set_modifier-alt_r k key make = ground arith

-- No event changes the state of the right Alt key: it is taken for the left one.
handle_scan-alt_r : (k : Keyboard) (scan : Scan) → (handle_scan k scan).0.alt_r ≡ k.alt_r
unfolding handle_code
handle_scan-alt_r k special = refl
handle_scan-alt_r k (code c e) = set_modifier-alt_r k _ _

abbrev alt_r_of : Run (Keyboard × Option ℕ) → Bool
alt_r_of (ok p) = p.0.alt_r
alt_r_of (fault e) = false

handled-alt_r :
    (k : Keyboard) (m : Run (Scan × Ring)) (k' : Keyboard) (o : Option ℕ)
    → (m >>= λ x. ok (handle_scan (record k { kb_in = x.1 }) x.0)) ≡ ok (k', o)
    → k'.alt_r ≡ k.alt_r
handled-alt_r k (fault e) k' o run = cc
handled-alt_r k (ok (scan, r)) k' o run =
    sym (ap alt_r_of run) ∙ handle_scan-alt_r (record k { kb_in = r }) scan

-- No read that returns changes the state of the right Alt key, whatever the bytes are.
pub keyboard_read-alt_r :
    (k k' : Keyboard) (o : Option ℕ) → keyboard_read k ≡ ok (k', o) → k'.alt_r ≡ k.alt_r
unfolding keyboard_read
keyboard_read-alt_r k k' o run = elim (Bool-cases (k.kb_in.count == 0)) [
  | inl e ↦ sym (ap alt_r_of (rw e at run))
  | inr e ↦ handled-alt_r k (read_scan k.kb_in) k' o (rw e at run)
]
