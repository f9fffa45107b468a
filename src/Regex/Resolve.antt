-- ===== src/Regex/Resolve.antt =====
-- src/regex.cpp: `finalize_bytecode` makes the code of a fragment the program of that fragment.
use stdromano.Prelude.{
  ℕ, ◌+◌, ◌-◌, ◌^◌, ◌<◌, ◌≡◌, ◌≢◌, refl, sym, ap, ◌∙◌, List, [], ◌∷◌, ◌++◌, none, some, false,
  arith, length, length-append, append_assoc,
}
use stdromano.Regex.Opcode.{
  Bytes, opcode, byte, jump_fail, jump_eq, jump_neq, group_start, group_end, set_flag, inc_pos_eq,
  accept, fail, emit_fail_jump,
}
use stdromano.Regex.Syntax.{
  CharTest, single, negated_single, range, negated_range, any, digit, word, whitespace, lower,
  upper, test_bytes, test_size, class_size, class_code, length-class_code, jump_code, back,
  Fragment, empty, test, class, group, seq, alt, opt, star, plus, code, size, length-code, program,
}
use stdromano.Regex.Scannable.{IsScannable, IsScannableTest, IsScannableClass}
use stdromano.Regex.Emit.{length-jump_code}
use stdromano.Regex.Finalize.{scan_size, is_jump, resolve_fail_jumps, finalize_bytecode}
use stdromano.Regex.Scan.{
  Rewrites, Rewrites-nil, resolve-Rewrites, Rewrites-append, Rewrites-plain, Rewrites-jump,
  Rewrites-fail,
}

one_byte : (c : ℕ) → scan_size (opcode c) ≡ 1 → is_jump (opcode c) ≡ false
unfolding scan_size
one_byte c h = ground arith

module _ (fl : ℕ) where
  Rewrites-move : (p q : ℕ) (xs ys : Bytes) → p ≡ q → Rewrites fl p xs ys → Rewrites fl q xs ys
  Rewrites-move p q xs ys e r = rw (← e) r

  -- the second part at its own position
  both :
      (p q : ℕ) (xs ys xs' ys' : Bytes)
      → p + length xs ≡ q
      → Rewrites fl p xs ys
      → Rewrites fl q xs' ys'
      → Rewrites fl p (xs ++ xs') (ys ++ ys')
  both p q xs ys xs' ys' e r s =
      Rewrites-append fl p xs ys xs' ys' r (Rewrites-move q (p + length xs) xs' ys' (sym e) s)

  Rewrites-test :
      (t : CharTest) (p : ℕ) → IsScannableTest t → Rewrites fl p (test_bytes t) (test_bytes t)
  unfolding scan_size
  Rewrites-test (single c) p h = Rewrites-plain fl p 0 (c ∷ []) refl refl
  Rewrites-test (negated_single c) p h =
      both p (p + 1) (1 ∷ []) (1 ∷ []) (c ∷ []) (c ∷ []) refl (Rewrites-plain fl p 1 [] refl refl)
        (Rewrites-plain fl (p + 1) c [] (one_byte c h) h)
  Rewrites-test (range lo hi) p h = Rewrites-plain fl p 2 (lo ∷ hi ∷ []) refl refl
  Rewrites-test (negated_range lo hi) p h = Rewrites-plain fl p 3 (lo ∷ hi ∷ []) refl refl
  Rewrites-test any p h = Rewrites-plain fl p 4 [] refl refl
  Rewrites-test digit p h = Rewrites-plain fl p 5 [] refl refl
  Rewrites-test word p h = Rewrites-plain fl p 6 [] refl refl
  Rewrites-test whitespace p h = Rewrites-plain fl p 7 [] refl refl
  Rewrites-test lower p h = Rewrites-plain fl p 8 [] refl refl
  Rewrites-test upper p h = Rewrites-plain fl p 9 [] refl refl

  jump_eq-stays :
      (p w : ℕ)
      → w < 2 ^ 32
      → w ≢ jump_fail
      → Rewrites fl p (jump_code (byte jump_eq) w) (jump_code (byte jump_eq) w)
  unfolding scan_size
  jump_eq-stays p w h k = Rewrites-jump fl p (byte jump_eq) w refl refl h k

  jump_neq-stays :
      (p w : ℕ)
      → w < 2 ^ 32
      → w ≢ jump_fail
      → Rewrites fl p (jump_code (byte jump_neq) w) (jump_code (byte jump_neq) w)
  unfolding scan_size
  jump_neq-stays p w h k = Rewrites-jump fl p (byte jump_neq) w refl refl h k

  jump_neq-resolved :
      (p w : ℕ)
      → fl ≡ p + 5 + w
      → Rewrites fl p (jump_code (byte jump_neq) jump_fail) (jump_code (byte jump_neq) w)
  unfolding scan_size
  jump_neq-resolved p w h = Rewrites-fail fl p (byte jump_neq) w refl refl h

  set_flag-stays : (p v : ℕ) → Rewrites fl p (byte set_flag ∷ v ∷ []) (byte set_flag ∷ v ∷ [])
  unfolding scan_size
  set_flag-stays p v = Rewrites-plain fl p (byte set_flag) (v ∷ []) refl refl

  inc_pos_eq-stays : (p : ℕ) → Rewrites fl p (byte inc_pos_eq ∷ []) (byte inc_pos_eq ∷ [])
  unfolding scan_size
  inc_pos_eq-stays p = Rewrites-plain fl p (byte inc_pos_eq) [] refl refl

  Rewrites-class :
      (ts : List CharTest) (p : ℕ)
      → IsScannableClass ts
      → class_size ts < jump_fail
      → Rewrites fl p (class_code ts) (class_code ts)
  Rewrites-class [] p h k = set_flag-stays p 0
  Rewrites-class (t ∷ ts) p h k =
      let w = class_size ts in
      let q = p + test_size t in
      both p q (test_bytes t) (test_bytes t) _ _ refl (Rewrites-test t p h.0) (
        both q (q + 5) (jump_code (byte jump_eq) w) (jump_code (byte jump_eq) w) _ _
          (omega (arith, length-jump_code (byte jump_eq) w))
          (jump_eq-stays q w (omega arith) (omega arith))
          (Rewrites-class ts (q + 5) h.1 (omega arith)))

  Rewrites-code :
      (f : Fragment) (t p : ℕ)
      → IsScannable f
      → fl ≡ p + size f + t
      → fl < jump_fail
      → Rewrites fl p (code f none) (code f (some t))
  unfolding code scan_size
  Rewrites-code empty t p h e k = Rewrites-nil fl p
  Rewrites-code (test c) t p h e k =
      both p (p + test_size c) (test_bytes c) (test_bytes c) _ _ refl (Rewrites-test c p h)
        (inc_pos_eq-stays (p + test_size c))
  Rewrites-code (class ts) t p h e k =
      both p (p + class_size ts) (class_code ts) (class_code ts) _ _
        (omega (arith, length-class_code ts)) (Rewrites-class ts p h (omega arith))
        (inc_pos_eq-stays (p + class_size ts))
  Rewrites-code (group id f) t p h e k =
      let i = id ∷ [] in
      both p (p + 2) (byte group_start ∷ i) (byte group_start ∷ i) _ _ refl
        (Rewrites-plain fl p (byte group_start) i refl refl)
        (both (p + 2) (p + 2 + size f) (code f none) (code f (some (2 + t))) _ _
          (omega (arith, length-code f none)) (Rewrites-code f (2 + t) (p + 2) h (omega arith) k)
          (Rewrites-plain fl (p + 2 + size f) (byte group_end) i refl refl))
  Rewrites-code (seq f g) t p h e k =
      let q = p + size f in
      let j = jump_code (byte jump_neq) (size g) in
      both p q (code f none) (code f (some (5 + size g + t))) _ _
        (omega (arith, length-code f none)) (Rewrites-code f (5 + size g + t) p h.0 (omega arith) k)
        (both q (q + 5) j j _ _ (omega (arith, length-jump_code (byte jump_neq) (size g)))
          (jump_neq-stays q (size g) (omega arith) (omega arith))
          (Rewrites-code g t (q + 5) h.1 (omega arith) k))
  Rewrites-code (alt f g) t p h e k =
      let q = p + size f in
      let j = jump_code (byte jump_eq) (size g) in
      both p q (code f none) (code f (some (5 + size g + t))) _ _
        (omega (arith, length-code f none)) (Rewrites-code f (5 + size g + t) p h.0 (omega arith) k)
        (both q (q + 5) j j _ _ (omega (arith, length-jump_code (byte jump_eq) (size g)))
          (jump_eq-stays q (size g) (omega arith) (omega arith))
          (Rewrites-code g t (q + 5) h.1 (omega arith) k))
  Rewrites-code (opt f) t p h e k =
      let q = p + size f in
      both p q (code f none) (code f (some (2 + t))) _ _ (omega (arith, length-code f none))
        (Rewrites-code f (2 + t) p h (omega arith) k) (set_flag-stays q 1)
  Rewrites-code (star f) t p h e k =
      let q = p + size f in
      let w = back (size f + 5) in
      let j = jump_code (byte jump_eq) w in
      both p q (code f none) (code f (some (7 + t))) _ _ (omega (arith, length-code f none))
        (Rewrites-code f (7 + t) p h (omega arith) k)
        (both q (q + 5) j j _ _ (omega (arith, length-jump_code (byte jump_eq) w))
          (jump_eq-stays q w (omega arith) (omega arith)) (set_flag-stays (q + 5) 1))
  Rewrites-code (plus f) t p h e k =
      let q = p + size f in
      let r = q + 5 + size f in
      let u = size f + 12 + t in
      let w = back (size f + 10) in
      let j = jump_code (byte jump_eq) w in
      let x = jump_code (byte jump_neq) 5 in
      both p q (code f none) (code f (some (5 + (size f + 12) + t))) _ _
        (omega (arith, length-code f none))
        (Rewrites-code f (5 + (size f + 12) + t) p h (omega arith) k)
        (both q (q + 5) (jump_code (byte jump_neq) jump_fail) (jump_code (byte jump_neq) u) _ _
          (omega (arith, length-jump_code (byte jump_neq) jump_fail))
          (jump_neq-resolved q u (omega arith))
          (both (q + 5) r (code f none) (code f (some (12 + t))) _ _
            (omega (arith, length-code f none)) (Rewrites-code f (12 + t) (q + 5) h (omega arith) k)
            (both r (r + 5) x x _ _ (omega (arith, length-jump_code (byte jump_neq) 5))
              (jump_neq-stays r 5 (omega arith) (omega arith))
              (both (r + 5) (r + 10) j j _ _ (omega (arith, length-jump_code (byte jump_eq) w))
                (jump_eq-stays (r + 5) w (omega arith) (omega arith))
                (set_flag-stays (r + 10) 1)))))

-- On the code of a fragment shorter than the mark, in which no single character of a negated test
-- reads as an instruction with an operand, `finalize_bytecode` gives the program of the fragment:
-- each jump to `Fail` leads to the last instruction and nothing else is changed.
pub finalize_bytecode-code :
    (f : Fragment)
    → IsScannable f
    → size f + 6 < jump_fail
    → finalize_bytecode (code f none) ≡ some (program f)
unfolding finalize_bytecode emit_fail_jump program scan_size
finalize_bytecode-code f h k =
    let fl = size f + 6 in
    let last : Bytes = byte accept ∷ byte fail ∷ [] in
    let mark = jump_code (byte jump_neq) jump_fail in
    let whole = code f none ++ (mark ++ last) in
    let long : length whole - 1 ≡ fl = omega (
      arith,
      length-append (code f none) (mark ++ last),
      length-append mark last,
      length-jump_code (byte jump_neq) jump_fail,
      length-code f none,
    ) in
    let r =
      both fl 0 (size f) (code f none) (code f (some 6)) _ _ (omega (arith, length-code f none))
        (Rewrites-code fl f 6 0 h (omega arith) k)
        (both fl (size f) (size f + 5) mark (jump_code (byte jump_neq) 1) last last
          (omega (arith, length-jump_code (byte jump_neq) jump_fail))
          (jump_neq-resolved fl (size f) 1 (omega arith))
          (both fl (size f + 5) (size f + 6) (byte accept ∷ []) (byte accept ∷ []) _ _ (omega arith)
            (Rewrites-plain fl (size f + 5) (byte accept) [] refl refl)
            (Rewrites-plain fl (size f + 6) (byte fail) [] refl refl))) in
    let assoc = append_assoc (code f none) mark last in
    ap (λ w. resolve_fail_jumps (length w + 1) (length w - 1) 0 w) assoc
    ∙ ap (λ n. resolve_fail_jumps (length whole + 1) n 0 whole) long
    ∙ resolve-Rewrites fl whole _ r
