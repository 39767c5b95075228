-- ===== src/Proc/Waits.antt =====
-- Who waits for whom: a sender that is blocked waits for the process that it sends to. `deadlock`
-- walks along these edges.
use osin32bits.Base.{
  ℕ, zero, suc, ◌<◌, ◌≡◌, refl, ◌≢◌, inl, inr, true, false, Option, none, some, ok, List, [], ◌∷◌,
  ◌∙◌, ap, arith, ◌==◌, if◌then◌else◌, length, has, Distinct, AllBelow, Bool-cases, has_flag,
  length-le_of_Distinct,
}
use osin32bits.Proc.Types.{Ipc, sending}
use osin32bits.Proc.Ipc.{deadlock_loop, print_chain}

abbrev pub waits : (ℕ → Ipc) → ℕ → Option ℕ
waits f p = if has_flag (f p).p_flags sending then some (f p).p_sendto else none

-- The processes that `p` waits for, directly and through others; the last waits for none.
abbrev pub Trail : (ℕ → Option ℕ) → ℕ → List ℕ → Type 0
Trail w p [] = w p ≡ none
Trail w p (d ∷ xs) = (w p ≡ some d) × Trail w d xs

module _ (w : ℕ → Option ℕ) where
  Trail-unique : (p : ℕ) (xs ys : List ℕ) → Trail w p xs → Trail w p ys → xs ≡ ys
  Trail-unique p [] [] s t = refl
  Trail-unique p [] (y ∷ ys) s t = cc
  Trail-unique p (x ∷ xs) [] s t = cc
  Trail-unique p (x ∷ xs) (y ∷ ys) s t =
      let e : x ≡ y = ground arith in
      let t' : Trail w x ys = rw e t.1 in let r : xs ≡ ys = Trail-unique x xs ys s.1 t' in cc

  -- The part of a trail that starts at `a`.
  suffix :
      (a p : ℕ) (xs : List ℕ)
      → Trail w p xs
      → has a xs ≡ true
      → (ys : List ℕ) × Trail w a ys × (length ys < length xs)
  suffix a p [] t h = cc
  suffix a p (x ∷ xs) t h = elim (Bool-cases (a == x)) [
    | inl e ↦ (xs, (let e' : a ≡ x = ground arith in rw e' t.1), omega arith)
    | inr e ↦ let (ys, u, l) = suffix a x xs t.1 (ground arith) in (ys, u, omega arith)
  ]

  not_again : (p : ℕ) (xs : List ℕ) → Trail w p xs → has p xs ≡ false
  not_again p xs t = elim (Bool-cases (has p xs)) [
    | inr e ↦ e
    | inl e ↦
        let (ys, u, l) = suffix p p xs t e in
        let same : length xs ≡ length ys = ap length (Trail-unique p xs ys t u) in
        absurd (omega arith)
  ]

  pub Trail-Distinct : (p : ℕ) (xs : List ℕ) → Trail w p xs → Distinct (p ∷ xs)
  Trail-Distinct p [] t = (refl, tt)
  Trail-Distinct p (x ∷ xs) t = (not_again p (x ∷ xs) t, Trail-Distinct x xs t.1)

  Trail-AllBelow :
      (n p : ℕ) (xs : List ℕ)
      → ((a d : ℕ) → a < n → w a ≡ some d → d < n)
      → p < n
      → Trail w p xs
      → AllBelow n (p ∷ xs)
  Trail-AllBelow n p [] closed h t = (h, tt)
  Trail-AllBelow n p (x ∷ xs) closed h t = (h, Trail-AllBelow n x xs closed (closed p x h t.0) t.1)

  -- A trail within a table is shorter than the table.
  pub Trail-length :
      (n p : ℕ) (xs : List ℕ)
      → ((a d : ℕ) → a < n → w a ≡ some d → d < n)
      → p < n
      → Trail w p xs
      → length xs < n
  Trail-length n p xs closed h t =
      length-le_of_Distinct n (p ∷ xs) (Trail-Distinct p xs t) (Trail-AllBelow n p xs closed h t)

-- A new edge, from a process that waited for none to one whose trail avoids it.
module _ {w w' : ℕ → Option ℕ} (s dest : ℕ) (free : w s ≡ none) (edge : w' s ≡ some dest)
    (same : (p : ℕ) → p ≢ s → w' p ≡ w p) where
  Trail-avoiding : (p : ℕ) (xs : List ℕ) → has s (p ∷ xs) ≡ false → Trail w p xs → Trail w' p xs
  Trail-avoiding p [] h t = same p (ground arith) ∙ t
  Trail-avoiding p (x ∷ xs) h t =
      (same p (ground arith) ∙ t.0, Trail-avoiding x xs (ground arith) t.1)

  Trail-from :
      (p : ℕ)
      → p ≡ s
      → (ys : List ℕ) → Trail w dest ys
      → has s (dest ∷ ys) ≡ false
      → Trail w' p (dest ∷ ys)
  Trail-from p e ys u h = rw e (edge, Trail-avoiding dest ys h u)

  pub Trail-add :
      (ys : List ℕ)
      → Trail w dest ys
      → has s (dest ∷ ys) ≡ false
      → (p : ℕ) (xs : List ℕ) → Trail w p xs
      → (zs : List ℕ) × Trail w' p zs
  Trail-add ys u h p [] t = elim (Bool-cases (p == s)) [
    | inl e ↦ (dest ∷ ys, Trail-from p (ground arith) ys u h)
    | inr e ↦ ([], same p (ground arith) ∙ t)
  ]
  Trail-add ys u h p (x ∷ xs) t = elim (Bool-cases (p == s)) [
    | inl e ↦ (dest ∷ ys, Trail-from p (ground arith) ys u h)
    | inr e ↦ let (zs, v) = Trail-add ys u h x xs t.1 in (x ∷ zs, (same p (ground arith) ∙ t.0, v))
  ]

-- A process stops waiting.
module _ {w w' : ℕ → Option ℕ} (s : ℕ) (gone : w' s ≡ none)
    (same : (p : ℕ) → p ≢ s → w' p ≡ w p) where
  pub Trail-cut : (p : ℕ) (xs : List ℕ) → Trail w p xs → (zs : List ℕ) × Trail w' p zs
  Trail-cut p [] t = elim (Bool-cases (p == s)) [
    | inl e ↦ ([], (let e' : p ≡ s = ground arith in rw e' gone))
    | inr e ↦ ([], same p (ground arith) ∙ t)
  ]
  Trail-cut p (x ∷ xs) t = elim (Bool-cases (p == s)) [
    | inl e ↦ ([], (let e' : p ≡ s = ground arith in rw e' gone))
    | inr e ↦ let (zs, u) = Trail-cut x xs t.1 in (x ∷ zs, (same p (ground arith) ∙ t.0, u))
  ]

module _ (f : ℕ → Ipc) (src : ℕ) where
  -- The loop answers whether the trail from `p` leads to `src`.
  pub deadlock_loop-Trail :
      (fuel p : ℕ) (xs : List ℕ)
      → Trail (waits f) p xs
      → length xs < fuel
      → deadlock_loop fuel f src p ≡ some (has src xs)
  unfolding deadlock_loop
  deadlock_loop-Trail zero p xs t h = absurd (omega arith)
  deadlock_loop-Trail (suc fuel) p [] t h = ground arith
  deadlock_loop-Trail (suc fuel) p (x ∷ xs) t h = ground (arith, deadlock_loop-Trail fuel x xs t.1)

  -- Where it does, the chain is printed to its end, if every process on it has a message to send.
  pub print_chain-ok :
      (n fuel p : ℕ) (xs : List ℕ)
      → Trail (waits f) p xs
      → ((a d : ℕ) → a < n → waits f a ≡ some d → (d < n) × ((f a).p_msg ≢ 0))
      → p < n
      → has src xs ≡ true
      → length xs < fuel
      → print_chain fuel f src p ≡ ok tt
  unfolding print_chain
  print_chain-ok n zero p xs t full hp e h = absurd (omega arith)
  print_chain-ok n (suc fuel) p [] t full hp e h = cc
  print_chain-ok n (suc fuel) p (x ∷ xs) t full hp e h =
      ground (arith, full p x hp t.0, print_chain-ok n fuel x xs t.1 full)
