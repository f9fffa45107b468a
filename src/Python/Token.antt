-- ===== src/Python/Token.antt =====
-- src/python.cpp, include/stdromano/python.hpp: the tokens of the lexer.
use stdromano.Prelude.{ℕ}
use stdromano.Json.Value.{Bytes}

-- `Token::Kind`
pub data Kind : Type 0 where
  identifier keyword literal operator delimiter newline indent dedent : Kind

pub data Keyword : Type 0 where
  false_keyword await_keyword else_keyword import_keyword pass_keyword none_keyword : Keyword
  break_keyword except_keyword in_keyword raise_keyword true_keyword class_keyword : Keyword
  finally_keyword is_keyword return_keyword and_keyword continue_keyword for_keyword : Keyword
  lambda_keyword try_keyword as_keyword def_keyword from_keyword nonlocal_keyword while_keyword :
      Keyword
  assert_keyword del_keyword global_keyword not_keyword with_keyword async_keyword elif_keyword :
      Keyword
  if_keyword or_keyword yield_keyword match_keyword case_keyword type_keyword : Keyword

pub data Delimiter : Type 0 where
  left_paren right_paren left_bracket right_bracket left_brace right_brace comma colon dot :
      Delimiter
  semicolon right_arrow : Delimiter

pub data Operator : Type 0 where
  addition subtraction multiplication division modulus exponentiation floor_division mat_mul :
      Operator
  assign walrus_assign addition_assign subtraction_assign multiplication_assign division_assign :
      Operator
  modulus_assign floor_division_assign mat_mul_assign exponentiation_assign bitwise_and_assign :
      Operator
  bitwise_or_assign bitwise_xor_assign bitwise_left_shift_assign bitwise_right_shift_assign :
      Operator
  bitwise_and bitwise_or bitwise_xor bitwise_not bitwise_left_shift bitwise_right_shift : Operator
  comparator_equals comparator_not_equals comparator_greater_than comparator_less_than : Operator
  comparator_greater_equals_than comparator_less_equals_than logical_and logical_or logical_not :
      Operator
  identity_is identity_is_not membership_in membership_not_in bang : Operator

pub data Literal : Type 0 where
  string_literal unicode_string_literal raw_string_literal formatted_string_literal : Literal
  bytes_literal integer_literal float_literal complex_literal : Literal

-- the number `type` of a token, of the enumeration that its kind names, or of spaces
pub data TokenType : Type 0 where
  no_type : TokenType
  of_keyword : Keyword → TokenType
  of_literal : Literal → TokenType
  of_operator : Operator → TokenType
  of_delimiter : Delimiter → TokenType
  of_spaces : ℕ → TokenType

pub record Token : Type 0 where
  pub value : Bytes
  pub kind : Kind
  pub type : TokenType
  pub column : ℕ
  pub line : ℕ
