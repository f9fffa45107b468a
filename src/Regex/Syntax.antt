-- ===== src/Regex/Syntax.antt =====
-- src/regex.cpp: the shapes of the bytecode that `RegexCompiler` emits, as trees.
-- The compiler has no syntax tree; this one names each shape and gives its bytes.
use stdromano.Prelude.{
  ℕ, ◌+◌, ◌-◌, ◌%◌, ◌^◌, ◌≡◌, refl, List, [], ◌∷◌, ◌++◌, Option, none, some, arith, length,
  length-append,
}
use stdromano.Regex.Opcode.{
  Bytes, byte, test_single, test_negated_single, test_range, test_negated_range, test_any,
  test_digit, test_word, test_whitespace, test_lower_case, test_upper_case, jump_eq, jump_neq,
  accept, fail, group_start, group_end, inc_pos_eq, set_flag, jump_bytes, jump_fail,
}

pub data CharTest : Type 0 where
  single negated_single : ℕ → CharTest
  range negated_range : ℕ → ℕ → CharTest
  any digit word whitespace lower upper : CharTest

abbrev pub test_bytes : CharTest → Bytes
test_bytes (single c) = byte test_single ∷ c ∷ []
test_bytes (negated_single c) = byte test_negated_single ∷ c ∷ []
test_bytes (range lo hi) = byte test_range ∷ lo ∷ hi ∷ []
test_bytes (negated_range lo hi) = byte test_negated_range ∷ lo ∷ hi ∷ []
test_bytes any = byte test_any ∷ []
test_bytes digit = byte test_digit ∷ []
test_bytes word = byte test_word ∷ []
test_bytes whitespace = byte test_whitespace ∷ []
test_bytes lower = byte test_lower_case ∷ []
test_bytes upper = byte test_upper_case ∷ []

pub data Fragment : Type 0 where
  empty : Fragment
  test : CharTest → Fragment
  class : List CharTest → Fragment
  group : ℕ → Fragment → Fragment
  seq alt : Fragment → Fragment → Fragment
  opt star plus : Fragment → Fragment

abbrev pub test_size : CharTest → ℕ
test_size t = length (test_bytes t)

abbrev pub class_size : List CharTest → ℕ
class_size [] = 2
class_size (t ∷ ts) = test_size t + 5 + class_size ts

abbrev pub size : Fragment → ℕ
size empty = 0
size (test t) = test_size t + 1
size (class ts) = class_size ts + 1
size (group id f) = size f + 4
size (seq f g) = size f + 5 + size g
size (alt f g) = size f + 5 + size g
size (opt f) = size f + 2
size (star f) = size f + 7
size (plus f) = size f + 5 + size f + 12

abbrev pub jump_code : ℕ → ℕ → Bytes
jump_code op offset = op ∷ jump_bytes offset

-- the pattern of a jump of `n` bytes backwards
abbrev pub back : ℕ → ℕ
back n = 2 ^ 32 - n % 2 ^ 32

abbrev pub class_code : List CharTest → Bytes
class_code [] = byte set_flag ∷ 0 ∷ []
class_code (t ∷ ts) = test_bytes t ++ (jump_code (byte jump_eq) (class_size ts) ++ class_code ts)

-- How far `fail` stands behind the fragment's end, once that is known.
abbrev pub Tail : Type 0
Tail = Option ℕ

abbrev pub further : Tail → ℕ → Tail
further none n = none
further (some t) n = some (n + t)

abbrev pub fail_offset : Tail → ℕ
fail_offset none = jump_fail
fail_offset (some t) = t

unfoldable pub code : Fragment → Tail → Bytes
code empty t = []
code (test c) t = test_bytes c ++ (byte inc_pos_eq ∷ [])
code (class ts) t = class_code ts ++ (byte inc_pos_eq ∷ [])
code (group id f) t = byte group_start ∷ id ∷ (code f (further t 2) ++ (byte group_end ∷ id ∷ []))
code (seq f g) t =
    code f (further t (5 + size g)) ++ (jump_code (byte jump_neq) (size g) ++ code g t)
code (alt f g) t =
    code f (further t (5 + size g)) ++ (jump_code (byte jump_eq) (size g) ++ code g t)
code (opt f) t = code f (further t 2) ++ (byte set_flag ∷ 1 ∷ [])
code (star f) t =
    code f (further t 7)
    ++ (jump_code (byte jump_eq) (back (size f + 5)) ++ (byte set_flag ∷ 1 ∷ []))
code (plus f) t =
    code f (further t (5 + (size f + 12)))
    ++ (jump_code (byte jump_neq) (fail_offset (further t (size f + 12)))
        ++ (code f (further t 12)
            ++ (jump_code (byte jump_neq) 5
                ++ (jump_code (byte jump_eq) (back (size f + 10)) ++ (byte set_flag ∷ 1 ∷ [])))))

-- the whole program: the final check, `accept` and `fail`
unfoldable pub program : Fragment → Bytes
unfolding code
program f = code f (some 6) ++ (jump_code (byte jump_neq) 1 ++ (byte accept ∷ byte fail ∷ []))

pub length-class_code : (ts : List CharTest) → length (class_code ts) ≡ class_size ts
unfolding jump_bytes
length-class_code [] = refl
length-class_code (t ∷ ts) = simp length-append (omega (arith, length-class_code ts))

pub length-code : (f : Fragment) (t : Tail) → length (code f t) ≡ size f
unfolding code jump_bytes
length-code empty t = refl
length-code (test c) t = simp length-append (omega arith)
length-code (class ts) t = simp length-append (omega (arith, length-class_code ts))
length-code (group id f) t = simp length-append (omega (arith, length-code f (further t 2)))
length-code (seq f g) t =
    simp length-append (omega (arith, length-code f (further t (5 + size g)), length-code g t))
length-code (alt f g) t =
    simp length-append (omega (arith, length-code f (further t (5 + size g)), length-code g t))
length-code (opt f) t = simp length-append (omega (arith, length-code f (further t 2)))
length-code (star f) t = simp length-append (omega (arith, length-code f (further t 7)))
length-code (plus f) t =
    simp length-append
      (omega (arith, length-code f (further t (5 + (size f + 12))), length-code f (further t 12)))

pub length-program : (f : Fragment) → length (program f) ≡ size f + 7
unfolding program jump_bytes
length-program f = simp length-append (omega (arith, length-code f (some 6)))
