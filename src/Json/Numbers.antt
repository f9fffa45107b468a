-- ===== src/Json/Numbers.antt =====
-- src/json.cpp: an integer that the formatting library writes in decimal is read back by
-- `parse_number`; and a read behind the table of powers.
use stdromano.Prelude.{
  ℕ, zero, suc, ◌+◌, ◌-◌, ◌*◌, ◌/◌, ◌%◌, ◌^◌, ◌==◌, ◌≤◌, ◌<◌, ◌≡◌, refl, ◌∙◌, Bool, true, false,
  ltb, leb, if◌then◌else◌, ◌&&◌, ◌||◌, not, [], ◌∷◌, ◌++◌, arith, Bool-cases, inl, inr,
}
use stdromano.Json.Value.{Bytes, negsuc, u64, i64, Floats}
use stdromano.Json.Parser.{
  ok, undefined, bind, optional, need_digit, is_digit, max_i64, float_digit, integer_loop,
  parse_fraction, exponent_loop, parse_exponent, scale, finish_number, parse_number, negated,
}

-- the decimal digits of a number in front of a text, 20 at most
unfoldable pub emit : ℕ → ℕ → Bytes → Bytes
emit zero n out = out
emit (suc k) n out =
    let shorter = emit k (n / 10) ((48 + n % 10) ∷ out) in
    if ltb n 10 then (48 + n) ∷ out else shorter

abbrev pub decimal : ℕ → Bytes
decimal n = emit 20 n []

pub emit-append : (k n : ℕ) (out rest : Bytes) → emit k n out ++ rest ≡ emit k n (out ++ rest)
unfolding emit
emit-append zero n out rest = refl
emit-append (suc k) n out rest = elim (Bool-cases (ltb n 10)) [
  | inl small ↦ rw (small, emit) refl
  | inr large ↦ rw (large, emit) (emit-append k (n / 10) ((48 + n % 10) ∷ out) rest)
]

abbrev pub StartsDigit : Bytes → Type 0
StartsDigit [] = Unit {0} → ◌≡◌ {A = ℕ} 0 1
StartsDigit (c ∷ cs) = is_digit c ≡ true

emit_behind-StartsDigit : (k n : ℕ) (out : Bytes) → StartsDigit out → StartsDigit (emit k n out)
unfolding emit
emit_behind-StartsDigit zero n out h = h
emit_behind-StartsDigit (suc k) n out h = elim (Bool-cases (ltb n 10)) [
  | inl small ↦ rw (small, emit) (ground arith)
  | inr large ↦
      rw (large, emit) (emit_behind-StartsDigit k (n / 10) ((48 + n % 10) ∷ out) (ground arith))
]

pub emit-StartsDigit : (k n : ℕ) (out : Bytes) → StartsDigit (emit (suc k) n out)
unfolding emit
emit-StartsDigit k n out = elim (Bool-cases (ltb n 10)) [
  | inl small ↦ rw (small, emit) (ground arith)
  | inr large ↦
      rw (large, emit) (emit_behind-StartsDigit k (n / 10) ((48 + n % 10) ∷ out) (ground arith))
]

-- what ends a number: neither a digit nor the start of a fraction or an exponent
abbrev pub stops : ℕ → Bool
stops c = not (is_digit c) && not (c == b'.') && not (c == b'e' || c == b'E')

abbrev pub Stops : Bytes → Type 0
Stops [] = Unit
Stops (c ∷ cs) = stops c ≡ true

module _ {F : Type 0} (floats : Floats F) where
  integer_loop_step :
      (n d : ℕ) (x : F) (out : Bytes)
      → d < 10
      → n * 10 + d ≤ max_i64
      → integer_loop floats n x ((48 + d) ∷ out)
        ≡ integer_loop floats (n * 10 + d) (float_digit floats x d) out
  unfolding integer_loop
  integer_loop_step n d x out small fits =
      let back : 48 + d - 48 ≡ d = omega arith in
      let here : is_digit (48 + d) ≡ true = ground arith in
      let room : leb (n * 10 + d) max_i64 ≡ true = ground arith in
      rw (here, integer_loop) (rw (back) (rw room refl))

  integer_loop-emit :
      (k n : ℕ) (x : F) (out : Bytes)
      → n < 10 ^ k
      → n ≤ max_i64
      → (y : F) × (integer_loop floats 0 x (emit k n out) ≡ integer_loop floats n y out)
  unfolding emit
  integer_loop-emit zero n x out small fits =
      let none_left : n ≡ 0 = omega arith in (x, rw none_left refl)
  integer_loop-emit (suc k) n x out small fits = elim (Bool-cases (ltb n 10)) [
    | inl last ↦ (
      float_digit floats x n,
      rw (last, emit)
          (integer_loop_step 0 n x out (ground arith) (omega arith) ∙ rw (zero_more n) refl),
    )
    | inr more ↦
        let (y, e) =
          integer_loop-emit k (n / 10) x ((48 + n % 10) ∷ out) (omega arith) (omega arith) in
        let whole : n / 10 * 10 + n % 10 ≡ n = omega arith in
        (
          float_digit floats y (n % 10),
          rw (more, emit)
              (e
                ∙ integer_loop_step (n / 10) (n % 10) y out (omega arith) (omega arith)
                ∙ rw whole refl),
        )
  ]
    where
      zero_more : (n : ℕ) → 0 * 10 + n ≡ n
      zero_more n = omega arith

  integer_loop-Stops :
      (n : ℕ) (x : F) (rest : Bytes) → Stops rest → integer_loop floats n x rest ≡ ok (n, x) rest
  unfolding integer_loop
  integer_loop-Stops n x [] h = refl
  integer_loop-Stops n x (c ∷ cs) h =
      let other : is_digit c ≡ false = ground arith in rw (other, integer_loop) refl

  finish_number-Stops :
      (negative : Bool) (n : ℕ) (x : F) (rest : Bytes)
      → Stops rest
      → finish_number floats negative (n, x) rest
        ≡ ok (if negative then i64 (negated floats n) else u64 n) rest
  unfolding finish_number parse_fraction parse_exponent
  finish_number-Stops negative n x [] h = refl
  finish_number-Stops negative n x (c ∷ cs) h =
      let no_point : (c == b'.') ≡ false = ground arith in
      let no_letter : (c == b'e' || c == b'E') ≡ false = ground arith in
      rw (no_point, parse_fraction) (rw (no_letter, parse_exponent) refl)

  need_digit-StartsDigit : (bs : Bytes) → StartsDigit bs → need_digit bs ≡ ok tt bs
  need_digit-StartsDigit [] h = absurd (omega (arith, h tt))
  need_digit-StartsDigit (c ∷ cs) h = rw h refl

  optional-StartsDigit : (bs : Bytes) → StartsDigit bs → optional (λ c. c == b'-') bs ≡ ok false bs
  optional-StartsDigit [] h = absurd (omega (arith, h tt))
  optional-StartsDigit (c ∷ cs) h = let other : (c == b'-') ≡ false = ground arith in rw other refl

  -- the digits of a number, read behind its sign
  digits-read :
      (negative : Bool) (n : ℕ) (rest : Bytes)
      → n ≤ max_i64
      → Stops rest
      → bind
          (bind (need_digit (decimal n ++ rest)) (λ u. integer_loop floats 0 (floats.of_nat 0)))
          (finish_number floats negative)
        ≡ ok (if negative then i64 (negated floats n) else u64 n) rest
  digits-read negative n rest fits stop =
      let (y, e) = integer_loop-emit 20 n (floats.of_nat 0) rest (omega arith) fits in
      rw (emit-append 20 n [] rest) (
        rw (need_digit-StartsDigit (emit 20 n rest) (emit-StartsDigit 19 n rest))
          (rw (e, integer_loop-Stops n y rest stop) (finish_number-Stops negative n y rest stop)))

  -- A number below 2 ^ 63 is read back from its decimal digits, in front of a text that ends it.
  pub parse_number-decimal :
      (n : ℕ) (rest : Bytes)
      → n ≤ max_i64
      → Stops rest
      → parse_number floats (decimal n ++ rest) ≡ ok (u64 n) rest
  unfolding parse_number
  parse_number-decimal n rest fits stop =
      let start : StartsDigit (decimal n ++ rest) =
        rw (emit-append 20 n [] rest) (emit-StartsDigit 19 n rest) in
      rw (optional-StartsDigit (decimal n ++ rest) start) (digits-read false n rest fits stop)

  -- and so is a negative one above - 2 ^ 63 from a sign and digits
  pub parse_number-negative :
      (n : ℕ) (rest : Bytes)
      → suc n ≤ max_i64
      → Stops rest
      → parse_number floats (b'-' ∷ (decimal (suc n) ++ rest)) ≡ ok (i64 (negsuc n)) rest
  unfolding parse_number
  parse_number-negative n rest fits stop = digits-read true (suc n) rest fits stop

  finish_number-e23 :
      (negative : Bool) (n : ℕ) (x : F) (rest : Bytes)
      → Stops rest
      → finish_number floats negative (n, x) (b'e' ∷ b'-' ∷ b'2' ∷ b'3' ∷ rest) ≡ undefined
  unfolding finish_number parse_fraction parse_exponent exponent_loop scale
  finish_number-e23 negative n x [] stop = refl
  finish_number-e23 negative n x (c ∷ cs) stop =
      let other : is_digit c ≡ false = ground arith in rw (other, exponent_loop) refl

  -- A number with the exponent -23 makes `parse_number` read behind its table of powers of ten,
  -- whatever stands behind it that ends it.
  pub parse_number-e23 :
      (n : ℕ) (rest : Bytes)
      → n ≤ max_i64
      → Stops rest
      → parse_number floats (decimal n ++ (b'e' ∷ b'-' ∷ b'2' ∷ b'3' ∷ rest)) ≡ undefined
  unfolding parse_number integer_loop
  parse_number-e23 n rest fits stop =
      let tail = b'e' ∷ b'-' ∷ b'2' ∷ b'3' ∷ rest in
      let (y, e) = integer_loop-emit 20 n (floats.of_nat 0) tail (omega arith) fits in
      let start = emit-StartsDigit 19 n tail in
      rw (emit-append 20 n [] tail) (
        rw (optional-StartsDigit (emit 20 n tail) start) (
          rw (need_digit-StartsDigit (emit 20 n tail) start)
            (rw e (finish_number-e23 false n y rest stop))))
