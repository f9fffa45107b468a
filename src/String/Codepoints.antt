-- ===== src/String/Codepoints.antt =====
-- include/stdromano/string.hpp: `utf8_iterator`. The masks of a byte are written as quotients and
-- remainders, and the bits of a code point as a sum.
use stdromano.Prelude.{
  ℕ, zero, suc, ◌+◌, ◌-◌, ◌*◌, ◌/◌, ◌%◌, ◌==◌, ◌≤◌, ◌<◌, ◌≡◌, refl, sym, ap, ◌∙◌, true, false, ltb,
  if◌then◌else◌, List, [], ◌∷◌, ◌++◌, Option, none, some, ◌>>=◌, length, drop, arith, append_assoc,
  length-append, drop-append, Bool-cases, inl, inr,
}
use stdromano.Json.Value.{Bytes}
use stdromano.String.Storage.{Cells, String, load}
use stdromano.String.Contents.{cells_of, length-cells_of, IsText, cells_of-append, if_not}

-- `_sequence_length` of the byte at the pointer
unfoldable pub sequence_length : ℕ → ℕ
sequence_length p =
    if ltb p 128
    then 1
    else if p / 32 == 6
    then 2
    else if p / 16 == 14
    then 3
    else if p / 8 == 30
    then 4
    else 1

-- `operator*`
unfoldable pub decode : Cells → Option ℕ
decode cells = do
  p ← load cells 0
  if ltb p 128
      then some p
      else if p / 32 == 6
      then (do q ← load cells 1; some (p % 32 * 64 + q % 64))
      else if p / 16 == 14
      then (do q ← load cells 1; r ← load cells 2; some (p % 16 * 4096 + q % 64 * 64 + r % 64))
      else if p / 8 == 30
      then (do
        q ← load cells 1
        r ← load cells 2
        t ← load cells 3
        some (p % 8 * 262144 + q % 64 * 4096 + r % 64 * 64 + t % 64))
      else some 65533

-- The loop of `u8length`, up to an end that is a number of bytes ahead. A step over the end never meets
-- it again; the rounds are enough for a text.
unfoldable pub u8_loop : ℕ → ℕ → Cells → Option ℕ
unfolding sequence_length
u8_loop zero ahead cells = none
u8_loop (suc fuel) ahead cells = if ahead == 0 then some 0 else (do
  p ← load cells 0
  if ltb ahead (sequence_length p) then none else (do
    count ← u8_loop fuel (ahead - sequence_length p) (drop (sequence_length p) cells)
    some (count + 1)))

unfoldable pub u8length : String → Option ℕ
unfolding u8_loop
u8length s = u8_loop (s.size + 1) s.size s.cells

-- the bytes of a code point, as the standard of UTF-8 has them
abbrev pub encode : ℕ → Bytes
encode c =
    if ltb c 128
    then c ∷ []
    else if ltb c 2048
    then (192 + c / 64) ∷ (128 + c % 64) ∷ []
    else if ltb c 65536
    then (224 + c / 4096) ∷ (128 + c / 64 % 64) ∷ (128 + c % 64) ∷ []
    else (240 + c / 262144) ∷ (128 + c / 4096 % 64) ∷ (128 + c / 64 % 64) ∷ (128 + c % 64) ∷ []

-- a code point is read from its bytes, and their number from the first
record IsRead (c : ℕ) (bytes : Bytes) (rest : Cells) : Type 0 where
  first : ℕ
  others : Bytes
  whole : bytes ≡ first ∷ others
  decoded : decode (cells_of bytes ++ rest) ≡ some c
  counted : sequence_length first ≡ length bytes

one_byte : (c : ℕ) (rest : Cells) → c < 128 → IsRead c (c ∷ []) rest
unfolding decode sequence_length
one_byte c rest h =
    let low : ltb c 128 ≡ true = ground arith in
    record { first = c; others = []; whole = refl; decoded = rw low refl; counted = rw low refl }

three_bytes :
    (c : ℕ) (rest : Cells)
    → 2048 ≤ c
    → c < 65536
    → IsRead c ((224 + c / 4096) ∷ (128 + c / 64 % 64) ∷ (128 + c % 64) ∷ []) rest
unfolding decode sequence_length
three_bytes c rest low high =
    let p = 224 + c / 4096 in
    let a : ltb p 128 ≡ false = ground arith in
    let b : (p / 32 == 6) ≡ false = ground arith in
    let d : (p / 16 == 14) ≡ true = ground arith in
    record {
      first = p;
      others = (128 + c / 64 % 64) ∷ (128 + c % 64) ∷ [];
      whole = refl;
      decoded = rw (a, b, d) (ap some (omega arith));
      counted = rw (a, b, d) refl;
    }

four_bytes :
    (c : ℕ) (rest : Cells)
    → 65536 ≤ c
    → c < 1114112
    → IsRead c
        ((240 + c / 262144) ∷ (128 + c / 4096 % 64) ∷ (128 + c / 64 % 64) ∷ (128 + c % 64) ∷ [])
        rest
unfolding decode sequence_length
four_bytes c rest low high =
    let p = 240 + c / 262144 in
    let a : ltb p 128 ≡ false = ground arith in
    let b : (p / 32 == 6) ≡ false = ground arith in
    let d : (p / 16 == 14) ≡ false = ground arith in
    let e : (p / 8 == 30) ≡ true = ground arith in
    record {
      first = p;
      others = (128 + c / 4096 % 64) ∷ (128 + c / 64 % 64) ∷ (128 + c % 64) ∷ [];
      whole = refl;
      decoded = rw (a, b, d, e) (ap some (omega arith));
      counted = rw (a, b, d, e) refl;
    }

two_bytes :
    (c : ℕ) (rest : Cells)
    → 128 ≤ c
    → c < 2048
    → IsRead c ((192 + c / 64) ∷ (128 + c % 64) ∷ []) rest
unfolding decode sequence_length
two_bytes c rest low high =
    let p = 192 + c / 64 in
    let a : ltb p 128 ≡ false = ground arith in
    let b : (p / 32 == 6) ≡ true = ground arith in
    record {
      first = p;
      others = (128 + c % 64) ∷ [];
      whole = refl;
      decoded = rw (a, b) (ap some (omega arith));
      counted = rw (a, b) refl;
    }

encode-IsRead : (c : ℕ) (rest : Cells) → c < 1114112 → IsRead c (encode c) rest
encode-IsRead c rest h = elim (Bool-cases (ltb c 128)) [
  | inl a ↦ rw a (one_byte c rest (ground (arith, a)))
  | inr a ↦ elim (Bool-cases (ltb c 2048)) [
    | inl b ↦ rw (a, b) (two_bytes c rest (ground (arith, a)) (ground (arith, b)))
    | inr b ↦ elim (Bool-cases (ltb c 65536)) [
      | inl d ↦ rw (a, b, d) (three_bytes c rest (ground (arith, b)) (ground (arith, d)))
      | inr d ↦ rw (a, b, d) (four_bytes c rest (ground (arith, d)) h)
    ]
  ]
]

u8_loop-step :
    (fuel first : ℕ) (others more : Bytes) (rest : Cells)
    → sequence_length first ≡ length (first ∷ others)
    → u8_loop
        (suc fuel)
        (length ((first ∷ others) ++ more))
        (cells_of ((first ∷ others) ++ more) ++ rest)
      ≡ (do count ← u8_loop fuel (length more) (cells_of more ++ rest); some (count + 1))
unfolding u8_loop
u8_loop-step fuel first others more rest e =
    let bytes : Bytes = first ∷ others in
    let text : Cells = cells_of (bytes ++ more) ++ rest in
    let inside : ltb (length (bytes ++ more)) (length bytes) ≡ false =
      ground (arith, length-append others more) in
    let left : length (bytes ++ more) - length bytes ≡ length more =
      omega (arith, length-append others more) in
    let behind : drop (length bytes) text ≡ cells_of more ++ rest =
      ap (drop (length bytes)) (cells_of-append bytes more rest)
      ∙ drop-append (cells_of bytes) (cells_of more ++ rest) (length bytes)
          (sym (length-cells_of bytes)) in
    let then_ : ℕ → Option ℕ = λ n.
      if ltb (length (bytes ++ more)) n
      then none
      else (do count ← u8_loop fuel (length (bytes ++ more) - n) (drop n text); some (count + 1)) in
    let some_left : (length (bytes ++ more) == 0) ≡ false = ground arith in
    if_not (length (bytes ++ more) == 0) _ _ some_left
    ∙ ap then_ e
    ∙ if_not (ltb (length (bytes ++ more)) (length bytes)) _ _ inside
    ∙ ap (λ n. do count ← u8_loop fuel n (drop (length bytes) text); some (count + 1)) left
    ∙ ap (λ l. do count ← u8_loop fuel (length more) l; some (count + 1)) behind

abbrev pub encoded : List ℕ → Bytes
encoded [] = []
encoded (c ∷ cs) = encode c ++ encoded cs

abbrev pub AreCodepoints : List ℕ → Type 0
AreCodepoints [] = Unit
AreCodepoints (c ∷ cs) = (c < 1114112) × AreCodepoints cs

u8_loop-encoded :
    (fuel : ℕ) (cs : List ℕ) (rest : Cells)
    → AreCodepoints cs
    → length (encoded cs) < fuel
    → u8_loop fuel (length (encoded cs)) (cells_of (encoded cs) ++ rest) ≡ some (length cs)
unfolding u8_loop
u8_loop-encoded zero cs rest h enough = absurd (omega (arith, enough))
u8_loop-encoded (suc fuel) [] rest h enough = refl
u8_loop-encoded (suc fuel) (c ∷ cs) rest (h, hs) enough =
    let r = encode-IsRead c [] h in
    let more = encoded cs in
    let counted : length (encode c) ≡ suc (length r.others) = ap length r.whole in
    let ih =
      u8_loop-encoded fuel cs rest hs
        (omega (arith, enough, length-append (encode c) more, counted)) in
    ap (λ b. u8_loop (suc fuel) (length (b ++ more)) (cells_of (b ++ more) ++ rest)) r.whole
    ∙ u8_loop-step fuel r.first r.others more rest (r.counted ∙ ap length r.whole)
    ∙ ap (λ o. do count ← o; some (count + 1)) ih
    ∙ ap some (omega arith)

decode-encode : (c : ℕ) (rest : Cells) → c < 1114112 → decode (cells_of (encode c) ++ rest) ≡ some c
decode-encode c rest h = (encode-IsRead c rest h).decoded

encoded-append : (cs ds : List ℕ) → encoded (cs ++ ds) ≡ encoded cs ++ encoded ds
encoded-append [] ds = refl
encoded-append (c ∷ cs) ds =
    ap (λ l. encode c ++ l) (encoded-append cs ds)
    ∙ sym (append_assoc (encode c) (encoded cs) (encoded ds))

AreCodepoints-behind : (cs ds : List ℕ) → AreCodepoints (cs ++ ds) → AreCodepoints ds
AreCodepoints-behind [] ds h = h
AreCodepoints-behind (c ∷ cs) ds (h, hs) = AreCodepoints-behind cs ds hs

-- In a text of UTF-8, the iterator reads each code point where its bytes start, and u8length is the number
-- of code points.
pub codepoints_lem :
    (s : String) (before after : List ℕ) (c : ℕ)
    → IsText s (encoded (before ++ (c ∷ after)))
    → AreCodepoints (before ++ (c ∷ after))
    → (decode (drop (length (encoded before)) s.cells) ≡ some c)
      × (u8length s ≡ some (length (before ++ (c ∷ after))))
unfolding u8length
codepoints_lem s before after c text h =
    let all = before ++ (c ∷ after) in
    let front = encoded before in
    let here = encode c ++ encoded after in
    let split : s.cells ≡ cells_of front ++ (cells_of here ++ text.rest) =
      text.cells
      ∙ ap (λ l. cells_of l ++ text.rest) (encoded-append before (c ∷ after))
      ∙ cells_of-append front here text.rest in
    let behind : drop (length front) s.cells
        ≡ cells_of (encode c) ++ (cells_of (encoded after) ++ text.rest) =
      ap (drop (length front)) split
      ∙ drop-append (cells_of front) (cells_of here ++ text.rest) (length front)
          (sym (length-cells_of front))
      ∙ cells_of-append (encode c) (encoded after) text.rest in
    (
      ap decode behind
          ∙ decode-encode c (cells_of (encoded after) ++ text.rest)
              (AreCodepoints-behind before (c ∷ after) h).0,
      ap (λ n. u8_loop (n + 1) n s.cells) text.size
          ∙ ap (u8_loop (length (encoded all) + 1) (length (encoded all))) text.cells
          ∙ u8_loop-encoded (length (encoded all) + 1) all text.rest h (omega arith),
    )
