-- ===== src/Regex/Emit.antt =====
-- src/regex.cpp: what the compiler's emitters and `patch_jump` leave in the bytecode.
use stdromano.Prelude.{
  ℕ, suc, ◌+◌, ◌-◌, ◌%◌, ◌^◌, ◌≡◌, refl, sym, ap, ◌∙◌, List, [], ◌∷◌, ◌++◌, none, Bool, true, false,
  arith, length, length-append, append_assoc, append-nil, set, take, drop, map, if◌then◌else◌, ◌==◌,
  ◌&&◌,
}
use stdromano.Regex.Opcode.{
  Bytes, OpCode, byte, jump_bytes, encode_jump_at, patch_jump, emit_jump, emit_fail_jump, jump_eq,
  jump_neq, set_flag, inc_pos_eq, jump_fail,
}
use stdromano.Regex.Syntax.{
  CharTest, single, negated_single, range, negated_range, digit, lower, upper, test_bytes,
  test_size, Fragment, test, class, seq, alt, star, plus, code, size, length-code, jump_code, back,
  class_code, class_size,
}
use stdromano.Regex.Compiler.{
  patch_jumps, RangePair, is_range, class_test, class_tests, class_instrs, emit_class, star_instrs,
  plus_instrs, offset_back,
}

-- The bytes of an offset depend on its value modulo 2 ^ 32.
jump_bytes-mod : (a b : ℕ) → a % 2 ^ 32 ≡ b % 2 ^ 32 → jump_bytes a ≡ jump_bytes b
unfolding jump_bytes
jump_bytes-mod a b h = ground arith

set-append :
    (pre xs : Bytes) (p i v : ℕ) → p ≡ length pre + i → set (pre ++ xs) p v ≡ pre ++ set xs i v
set-append [] xs p i v e = let e' : p ≡ i = omega arith in rw e'
set-append (y ∷ pre) xs p i v e =
    let e' : p ≡ suc (length pre + i) = omega arith in
    rw (e', set-append pre xs (length pre + i) i v refl)

-- The offset of a jump is replaced where it stands.
pub encode_jump_at-append :
    (pre rest : Bytes) (op p v w b₀ b₁ b₂ b₃ : ℕ)
    → p ≡ length pre + 1
    → v % 2 ^ 32 ≡ w % 2 ^ 32
    → encode_jump_at (pre ++ (op ∷ b₀ ∷ b₁ ∷ b₂ ∷ b₃ ∷ rest)) p v ≡ pre ++ (jump_code op w ++ rest)
unfolding encode_jump_at
encode_jump_at-append pre rest op p v w b₀ b₁ b₂ b₃ e h = rw (set-append pre _ p 1 _ e) (
    rw (set-append pre _ (p + 1) 2 _ (omega arith)) (
      rw (set-append pre _ (p + 2) 3 _ (omega arith)) (
        rw (set-append pre _ (p + 3) 4 _ (omega arith))
          (rw (← jump_bytes-mod v w h) (unfold jump_bytes in refl)))))

patch_jump-append :
    (pre rest : Bytes) (op p v w : ℕ)
    → p ≡ length pre + 1
    → v % 2 ^ 32 ≡ w % 2 ^ 32
    → patch_jump (pre ++ (op ∷ 0 ∷ 0 ∷ 0 ∷ 0 ∷ rest)) p v ≡ pre ++ (jump_code op w ++ rest)
unfolding patch_jump
patch_jump-append pre rest op p v w e h = encode_jump_at-append pre rest op p v w 0 0 0 0 e h

module _ (b : Bool) where
  abbrev pub join : Fragment → Fragment → Fragment
  join f g = if b then seq f g else alt f g

  abbrev pub join_op : OpCode
  join_op = if b then jump_neq else jump_eq

  -- items joined to the right
  abbrev pub chain : Fragment → List Fragment → Fragment
  chain f [] = f
  chain f (g ∷ gs) = join f (chain g gs)

  -- the items behind the first one, before and after their jumps are resolved
  abbrev pub raw : List Fragment → Bytes
  raw [] = []
  raw (f ∷ fs) = byte join_op ∷ 0 ∷ 0 ∷ 0 ∷ 0 ∷ (code f none ++ raw fs)

  abbrev pub links : List Fragment → Bytes
  links [] = []
  links (f ∷ fs) = jump_code (byte join_op) (size (chain f fs)) ++ (code f none ++ links fs)

-- where the jumps of the items stand
abbrev pub positions : ℕ → List Fragment → List ℕ
positions p [] = []
positions p (f ∷ fs) = (p + 1) ∷ positions (p + 5 + size f) fs

pub code-chain :
    (b : Bool) (f : Fragment) (fs : List Fragment)
    → code (chain b f fs) none ≡ code f none ++ links b fs
unfolding code
code-chain b f [] = sym (append-nil _)
code-chain true f (g ∷ gs) = rw (code-chain true g gs)
code-chain false f (g ∷ gs) = rw (code-chain false g gs)

size-chain :
    (b : Bool) (f : Fragment) (fs : List Fragment)
    → size (chain b f fs) ≡ size f + length (raw b fs)
size-chain b f [] = omega arith
size-chain true f (g ∷ gs) =
    rw (length-append (code g none) (raw true gs), length-code g none, size-chain true g gs)
      (omega arith)
size-chain false f (g ∷ gs) =
    rw (length-append (code g none) (raw false gs), length-code g none, size-chain false g gs)
      (omega arith)

regroup : (pre xs ys zs : Bytes) → pre ++ (xs ++ (ys ++ zs)) ≡ (pre ++ (xs ++ ys)) ++ zs
regroup pre xs ys zs = simp append_assoc

pub length-jump_code : (op w : ℕ) → length (jump_code op w) ≡ 5
unfolding jump_bytes
length-jump_code op w = refl

pub patch_jumps-raw :
    (b : Bool) (fs : List Fragment) (pre : Bytes) (p label : ℕ)
    → p ≡ length pre
    → label ≡ p + length (raw b fs)
    → patch_jumps (positions p fs) label (pre ++ raw b fs) ≡ pre ++ links b fs
unfolding patch_jumps
patch_jumps-raw b [] pre p label e h = refl
patch_jumps-raw b (f ∷ fs) pre p label e h =
    let w = size (chain b f fs) in
    let op = byte (join_op b) in
    let cf = code f none in
    let total = length-append cf (raw b fs) in
    let v = (label + 2 ^ 64 - (p + 1 + 4)) % 2 ^ 32 in
    let pre' = pre ++ (jump_code op w ++ cf) in
    let long : length pre' ≡ p + 5 + size f = omega (
      arith,
      length-append pre (jump_code op w ++ cf),
      length-append (jump_code op w) cf,
      length-jump_code op w,
      length-code f none,
    ) in
    let one =
      patch_jump-append pre (cf ++ raw b fs) op (p + 1) v w (omega arith)
        (omega (arith, size-chain b f fs, length-code f none)) in
    ap (patch_jumps (positions (p + 5 + size f) fs) label)
      (one ∙ regroup pre (jump_code op w) cf (raw b fs))
    ∙ patch_jumps-raw b fs pre' (p + 5 + size f) label (sym long)
        (omega (arith, length-code f none))
    ∙ sym (regroup pre (jump_code op w) cf (links b fs))

-- the tests of a class, before their jumps are resolved, and where these stand
abbrev raw_class : List CharTest → Bytes
raw_class [] = []
raw_class (t ∷ ts) = test_bytes t ++ (byte jump_eq ∷ 0 ∷ 0 ∷ 0 ∷ 0 ∷ raw_class ts)

abbrev class_positions : ℕ → List CharTest → List ℕ
class_positions p [] = []
class_positions p (t ∷ ts) = (p + test_size t + 1) ∷ class_positions (p + test_size t + 5) ts

abbrev no_match_bytes : Bytes
no_match_bytes = byte set_flag ∷ 0 ∷ []

length-raw_class : (ts : List CharTest) → length (raw_class ts) + 2 ≡ class_size ts
length-raw_class [] = refl
length-raw_class (t ∷ ts) = rw (length-append (test_bytes t) _) (omega (arith, length-raw_class ts))

patch_jumps-class :
    (ts : List CharTest) (pre : Bytes) (p label : ℕ)
    → p ≡ length pre
    → label ≡ p + class_size ts
    → patch_jumps (class_positions p ts) label (pre ++ (raw_class ts ++ no_match_bytes))
      ≡ pre ++ class_code ts
unfolding patch_jumps
patch_jumps-class [] pre p label e h = refl
patch_jumps-class (t ∷ ts) pre p label e h =
    let w = class_size ts in
    let op = byte jump_eq in
    let tb = test_bytes t in
    let v = (label + 2 ^ 64 - (p + test_size t + 1 + 4)) % 2 ^ 32 in
    let left = pre ++ tb in
    let pre' = pre ++ (tb ++ jump_code op w) in
    let rest = raw_class ts ++ no_match_bytes in
    let long : length pre' ≡ p + test_size t + 5 = omega (
      arith,
      length-append pre (tb ++ jump_code op w),
      length-append tb (jump_code op w),
      length-jump_code op w,
    ) in
    let split : pre ++ (raw_class (t ∷ ts) ++ no_match_bytes)
        ≡ left ++ (op ∷ 0 ∷ 0 ∷ 0 ∷ 0 ∷ rest) =
      simp append_assoc in
    let one =
      patch_jump-append left rest op (p + test_size t + 1) v w (omega (arith, length-append pre tb))
        (omega arith) in
    let joined : left ++ (jump_code op w ++ rest) ≡ pre' ++ rest = simp append_assoc in
    let ps = class_positions (p + test_size t + 5) ts in
    ap (patch_jumps (class_positions p (t ∷ ts)) label) split
    ∙ ap (patch_jumps ps label) (one ∙ joined)
    ∙ patch_jumps-class ts pre' (p + test_size t + 5) label (sym long) (omega arith)
    ∙ simp append_assoc

-- The source's choice of an instruction for a range.
abbrev pub to_test : Bool → RangePair → CharTest
to_test negated r =
    if is_range r
    then (if negated
        then negated_range r.lo r.hi
        else if r.lo == b'0' && r.hi == b'9'
        then digit
        else if r.lo == b'a' && r.hi == b'z'
        then lower
        else if r.lo == b'A' && r.hi == b'Z'
        then upper
        else range r.lo r.hi)
    else if negated
    then negated_single r.lo
    else single r.lo

class_test-to_test :
    (negated : Bool) (r : RangePair) → class_test negated r ≡ test_bytes (to_test negated r)
unfolding class_test
class_test-to_test negated r = ground arith

class_tests-raw :
    (negated : Bool) (rs : List RangePair) (jumps : List ℕ) (pre : Bytes) (p : ℕ)
    → p ≡ length pre
    → class_tests negated rs jumps pre ≡ (
      pre ++ raw_class (map (to_test negated) rs),
      jumps ++ class_positions p (map (to_test negated) rs),
    )
unfolding class_tests emit_jump
class_tests-raw negated [] jumps pre p e = rw (append-nil pre, append-nil jumps)
class_tests-raw negated (r ∷ rs) jumps pre p e =
    let t = to_test negated r in
    let ts = map (to_test negated) rs in
    let placed = pre ++ test_bytes t in
    let e₁ : length placed + 1 ≡ p + test_size t + 1 =
      omega (arith, length-append pre (test_bytes t)) in
    let pre' = placed ++ (byte jump_eq ∷ 0 ∷ 0 ∷ 0 ∷ 0 ∷ []) in
    let e₂ : p + test_size t + 5 ≡ length pre' = omega (
      arith,
      length-append pre (test_bytes t),
      length-append placed (byte jump_eq ∷ 0 ∷ 0 ∷ 0 ∷ 0 ∷ []),
    ) in
    let ih =
      class_tests-raw negated rs (jumps ++ (length placed + 1) ∷ []) pre' (p + test_size t + 5)
        e₂ in
    rw (class_test-to_test negated r) (ih ∙ simp (append_assoc, e₁))

class_instrs-code :
    (negated : Bool) (rs : List RangePair) (pre : Bytes)
    → class_instrs negated rs pre ≡ pre ++ code (class (map (to_test negated) rs)) none
unfolding class_instrs code
class_instrs-code negated rs pre =
    let ts = map (to_test negated) rs in
    let flagged : pre ++ raw_class ts ++ no_match_bytes ≡ pre ++ (raw_class ts ++ no_match_bytes) =
      append_assoc pre (raw_class ts) no_match_bytes in
    let label : length (pre ++ (raw_class ts ++ no_match_bytes)) ≡ length pre + class_size ts =
      omega (
        arith,
        length-append pre (raw_class ts ++ no_match_bytes),
        length-append (raw_class ts) no_match_bytes,
        length-raw_class ts,
      ) in
    rw
      (
        class_tests-raw negated rs [] pre (length pre) refl,
        flagged,
        patch_jumps-class ts pre (length pre) _ refl label,
      )
      (append_assoc pre (class_code ts) (byte inc_pos_eq ∷ []))

-- what `emit_class` emits is a fragment
abbrev pub class_fragment : Bool → List RangePair → Fragment
class_fragment false (r ∷ []) = test (to_test false r)
class_fragment negated ranges = class (map (to_test negated) ranges)

pub emit_class-code :
    (negated : Bool) (ranges : List RangePair) (pre : Bytes)
    → emit_class negated ranges pre ≡ pre ++ code (class_fragment negated ranges) none
unfolding emit_class code
emit_class-code false (r ∷ []) pre = ground arith
emit_class-code true ranges pre = class_instrs-code true ranges pre
emit_class-code false [] pre = class_instrs-code false [] pre
emit_class-code false (r ∷ s ∷ rs) pre = class_instrs-code false (r ∷ s ∷ rs) pre

pub star_instrs-code :
    (f : Fragment) (pre : Bytes)
    → star_instrs (length pre) (pre ++ code f none) ≡ pre ++ code (star f) none
unfolding star_instrs code emit_jump
star_instrs-code f pre =
    let cf = code f none in
    let long : length (pre ++ cf) ≡ length pre + size f =
      omega (arith, length-append pre cf, length-code f none) in
    let at = length (pre ++ cf) + 1 in
    rw
      (patch_jump-append (pre ++ cf) [] (byte jump_eq) at (offset_back (length pre) at)
        (back (size f + 5)) refl (omega arith))
      (simp append_assoc)

take-append : (xs ys : Bytes) (n : ℕ) → n ≡ length xs → take n (xs ++ ys) ≡ xs
take-append [] ys n e = rw e
take-append (x ∷ xs) ys n e = rw e (ap (λ zs. x ∷ zs) (take-append xs ys (length xs) refl))

drop-append : (xs ys : Bytes) → drop (length xs) (xs ++ ys) ≡ ys
drop-append [] ys = refl
drop-append (x ∷ xs) ys = drop-append xs ys

copy-primary :
    (pre cf fj : Bytes) (n : ℕ)
    → n ≡ length cf
    → take n (drop (length pre) ((pre ++ cf) ++ fj)) ≡ cf
copy-primary pre cf fj n e =
    rw (append_assoc pre cf fj, drop-append pre (cf ++ fj)) (take-append cf fj n e)

pub plus_instrs-code :
    (f : Fragment) (pre : Bytes)
    → plus_instrs (length pre) (pre ++ code f none) ≡ pre ++ code (plus f) none
unfolding plus_instrs code emit_jump emit_fail_jump
plus_instrs-code f pre =
    let cf = code f none in
    let fj = jump_code (byte jump_neq) jump_fail in
    let checked = (pre ++ cf) ++ fj in
    let blank : Bytes = byte jump_neq ∷ 0 ∷ 0 ∷ 0 ∷ 0 ∷ [] in
    let exit_code = (checked ++ cf) ++ blank in
    let start = length checked in
    let loop_at = length exit_code + 1 in
    let exit_at = length (checked ++ cf) + 1 in
    let jump_back = jump_code (byte jump_eq) (back (size f + 10)) in
    let long₁ = length-append pre cf in
    let long₂ = length-append checked cf in
    let long₃ = length-append (checked ++ cf) blank in
    let long₄ = length-append exit_code jump_back in
    let copied = copy-primary pre cf fj (length (pre ++ cf) - length pre) (omega arith) in
    let looped =
      patch_jump-append exit_code [] (byte jump_eq) loop_at (offset_back start loop_at)
        (back (size f + 10)) refl (omega (arith, length-code f none)) in
    let v = (length (exit_code ++ jump_back) + 2 ^ 64 - (exit_at + 4)) % 2 ^ 32 in
    let exited =
      patch_jump-append (checked ++ cf) jump_back (byte jump_neq) exit_at v 5 refl
        (omega (arith, length-jump_code (byte jump_eq) (back (size f + 10)))) in
    rw copied (
      rw (looped, append-nil)
        (ap (λ c. c ++ (byte set_flag ∷ 1 ∷ []))
            (ap (λ c. patch_jump c exit_at v) (append_assoc (checked ++ cf) blank jump_back)
              ∙ exited)
          ∙ simp append_assoc))
