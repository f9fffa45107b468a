-- ===== src/Python/Tables.antt =====
-- src/python.cpp: the maps of keywords, delimiters and operators.
use stdromano.Prelude.{
  List, [], ◌∷◌, Bool, true, false, ◌==◌, ◌&&◌, if◌then◌else◌, Option, none, some,
}
use stdromano.Json.Value.{Bytes}
use stdromano.Python.Token.{
  Keyword, Delimiter, Operator, false_keyword, await_keyword, else_keyword, import_keyword,
  pass_keyword, none_keyword, break_keyword, except_keyword, in_keyword, raise_keyword,
  true_keyword, class_keyword, finally_keyword, is_keyword, return_keyword, and_keyword,
  continue_keyword, for_keyword, lambda_keyword, try_keyword, as_keyword, def_keyword, from_keyword,
  nonlocal_keyword, while_keyword, assert_keyword, del_keyword, global_keyword, not_keyword,
  with_keyword, async_keyword, elif_keyword, if_keyword, or_keyword, yield_keyword, left_paren,
  right_paren, left_bracket, right_bracket, left_brace, right_brace, comma, colon, dot, semicolon,
  right_arrow, addition, subtraction, multiplication, division, modulus, exponentiation,
  floor_division, mat_mul, assign, walrus_assign, addition_assign, subtraction_assign,
  multiplication_assign, division_assign, modulus_assign, floor_division_assign, mat_mul_assign,
  exponentiation_assign, bitwise_and_assign, bitwise_or_assign, bitwise_xor_assign,
  bitwise_left_shift_assign, bitwise_right_shift_assign, bitwise_and, bitwise_or, bitwise_xor,
  bitwise_not, bitwise_left_shift, bitwise_right_shift, comparator_equals, comparator_not_equals,
  comparator_greater_than, comparator_less_than, comparator_greater_equals_than,
  comparator_less_equals_than, logical_and, logical_or,
}

unfoldable pub keyword_map : List (Bytes × Keyword)
keyword_map =
    (b'F' ∷ b'a' ∷ b'l' ∷ b's' ∷ b'e' ∷ [], false_keyword)
    ∷ (b'a' ∷ b'w' ∷ b'a' ∷ b'i' ∷ b't' ∷ [], await_keyword)
    ∷ (b'e' ∷ b'l' ∷ b's' ∷ b'e' ∷ [], else_keyword)
    ∷ (b'i' ∷ b'm' ∷ b'p' ∷ b'o' ∷ b'r' ∷ b't' ∷ [], import_keyword)
    ∷ (b'p' ∷ b'a' ∷ b's' ∷ b's' ∷ [], pass_keyword)
    ∷ (b'N' ∷ b'o' ∷ b'n' ∷ b'e' ∷ [], none_keyword)
    ∷ (b'b' ∷ b'r' ∷ b'e' ∷ b'a' ∷ b'k' ∷ [], break_keyword)
    ∷ (b'e' ∷ b'x' ∷ b'c' ∷ b'e' ∷ b'p' ∷ b't' ∷ [], except_keyword)
    ∷ (b'i' ∷ b'n' ∷ [], in_keyword)
    ∷ (b'r' ∷ b'a' ∷ b'i' ∷ b's' ∷ b'e' ∷ [], raise_keyword)
    ∷ (b'T' ∷ b'r' ∷ b'u' ∷ b'e' ∷ [], true_keyword)
    ∷ (b'c' ∷ b'l' ∷ b'a' ∷ b's' ∷ b's' ∷ [], class_keyword)
    ∷ (b'f' ∷ b'i' ∷ b'n' ∷ b'a' ∷ b'l' ∷ b'l' ∷ b'y' ∷ [], finally_keyword)
    ∷ (b'i' ∷ b's' ∷ [], is_keyword)
    ∷ (b'r' ∷ b'e' ∷ b't' ∷ b'u' ∷ b'r' ∷ b'n' ∷ [], return_keyword)
    ∷ (b'a' ∷ b'n' ∷ b'd' ∷ [], and_keyword)
    ∷ (b'c' ∷ b'o' ∷ b'n' ∷ b't' ∷ b'i' ∷ b'n' ∷ b'u' ∷ b'e' ∷ [], continue_keyword)
    ∷ (b'f' ∷ b'o' ∷ b'r' ∷ [], for_keyword)
    ∷ (b'l' ∷ b'a' ∷ b'm' ∷ b'b' ∷ b'd' ∷ b'a' ∷ [], lambda_keyword)
    ∷ (b't' ∷ b'r' ∷ b'y' ∷ [], try_keyword)
    ∷ (b'a' ∷ b's' ∷ [], as_keyword)
    ∷ (b'd' ∷ b'e' ∷ b'f' ∷ [], def_keyword)
    ∷ (b'f' ∷ b'r' ∷ b'o' ∷ b'm' ∷ [], from_keyword)
    ∷ (b'n' ∷ b'o' ∷ b'n' ∷ b'l' ∷ b'o' ∷ b'c' ∷ b'a' ∷ b'l' ∷ [], nonlocal_keyword)
    ∷ (b'w' ∷ b'h' ∷ b'i' ∷ b'l' ∷ b'e' ∷ [], while_keyword)
    ∷ (b'a' ∷ b's' ∷ b's' ∷ b'e' ∷ b'r' ∷ b't' ∷ [], assert_keyword)
    ∷ (b'd' ∷ b'e' ∷ b'l' ∷ [], del_keyword)
    ∷ (b'g' ∷ b'l' ∷ b'o' ∷ b'b' ∷ b'a' ∷ b'l' ∷ [], global_keyword)
    ∷ (b'n' ∷ b'o' ∷ b't' ∷ [], not_keyword)
    ∷ (b'w' ∷ b'i' ∷ b't' ∷ b'h' ∷ [], with_keyword)
    ∷ (b'a' ∷ b's' ∷ b'y' ∷ b'n' ∷ b'c' ∷ [], async_keyword)
    ∷ (b'e' ∷ b'l' ∷ b'i' ∷ b'f' ∷ [], elif_keyword)
    ∷ (b'i' ∷ b'f' ∷ [], if_keyword)
    ∷ (b'o' ∷ b'r' ∷ [], or_keyword)
    ∷ (b'y' ∷ b'i' ∷ b'e' ∷ b'l' ∷ b'd' ∷ [], yield_keyword)
    ∷ []

unfoldable pub delimiter_map : List (Bytes × Delimiter)
delimiter_map =
    (b'(' ∷ [], left_paren)
    ∷ (b')' ∷ [], right_paren)
    ∷ (b'[' ∷ [], left_bracket)
    ∷ (b']' ∷ [], right_bracket)
    ∷ (b'{' ∷ [], left_brace)
    ∷ (b'}' ∷ [], right_brace)
    ∷ (b',' ∷ [], comma)
    ∷ (b':' ∷ [], colon)
    ∷ (b'.' ∷ [], dot)
    ∷ (b';' ∷ [], semicolon)
    ∷ (b'-' ∷ b'>' ∷ [], right_arrow)
    ∷ []

unfoldable pub operator_map : List (Bytes × Operator)
operator_map =
    (b'+' ∷ [], addition)
    ∷ (b'-' ∷ [], subtraction)
    ∷ (b'*' ∷ [], multiplication)
    ∷ (b'/' ∷ [], division)
    ∷ (b'%' ∷ [], modulus)
    ∷ (b'*' ∷ b'*' ∷ [], exponentiation)
    ∷ (b'/' ∷ b'/' ∷ [], floor_division)
    ∷ (b'@' ∷ [], mat_mul)
    ∷ (b'=' ∷ [], assign)
    ∷ (b':' ∷ b'=' ∷ [], walrus_assign)
    ∷ (b'+' ∷ b'=' ∷ [], addition_assign)
    ∷ (b'-' ∷ b'=' ∷ [], subtraction_assign)
    ∷ (b'*' ∷ b'=' ∷ [], multiplication_assign)
    ∷ (b'/' ∷ b'=' ∷ [], division_assign)
    ∷ (b'%' ∷ b'=' ∷ [], modulus_assign)
    ∷ (b'/' ∷ b'/' ∷ b'=' ∷ [], floor_division_assign)
    ∷ (b'@' ∷ b'=' ∷ [], mat_mul_assign)
    ∷ (b'*' ∷ b'*' ∷ b'=' ∷ [], exponentiation_assign)
    ∷ (b'&' ∷ b'=' ∷ [], bitwise_and_assign)
    ∷ (b'|' ∷ b'=' ∷ [], bitwise_or_assign)
    ∷ (b'^' ∷ b'=' ∷ [], bitwise_xor_assign)
    ∷ (b'<' ∷ b'<' ∷ b'=' ∷ [], bitwise_left_shift_assign)
    ∷ (b'>' ∷ b'>' ∷ b'=' ∷ [], bitwise_right_shift_assign)
    ∷ (b'&' ∷ [], bitwise_and)
    ∷ (b'|' ∷ [], bitwise_or)
    ∷ (b'^' ∷ [], bitwise_xor)
    ∷ (b'~' ∷ [], bitwise_not)
    ∷ (b'<' ∷ b'<' ∷ [], bitwise_left_shift)
    ∷ (b'>' ∷ b'>' ∷ [], bitwise_right_shift)
    ∷ (b'=' ∷ b'=' ∷ [], comparator_equals)
    ∷ (b'!' ∷ b'=' ∷ [], comparator_not_equals)
    ∷ (b'>' ∷ [], comparator_greater_than)
    ∷ (b'<' ∷ [], comparator_less_than)
    ∷ (b'>' ∷ b'=' ∷ [], comparator_greater_equals_than)
    ∷ (b'<' ∷ b'=' ∷ [], comparator_less_equals_than)
    ∷ (b'a' ∷ b'n' ∷ b'd' ∷ [], logical_and)
    ∷ (b'o' ∷ b'r' ∷ [], logical_or)
    ∷ []

abbrev pub same_bytes : Bytes → Bytes → Bool
same_bytes [] [] = true
same_bytes [] (b ∷ bs) = false
same_bytes (a ∷ cs) [] = false
same_bytes (a ∷ cs) (b ∷ bs) = (a == b) && same_bytes cs bs

-- `find` of a map, and what `->second` gives where it is not `end()`
abbrev pub find_word : {A : Type 0} → List (Bytes × A) → Bytes → Option A
find_word [] word = none
find_word ((key, a) ∷ rows) word = if same_bytes key word then some a else find_word rows word
