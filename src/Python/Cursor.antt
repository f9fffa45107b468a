-- ===== src/Python/Cursor.antt =====
-- src/python.cpp: the classes of a character, and the state of `Lexer`. A cursor is the bytes in front
-- of the zero that ends the source; no byte is left where it points to that zero.
use stdromano.Prelude.{
  ℕ, zero, suc, ◌+◌, ◌-◌, ◌%◌, ◌^◌, ◌==◌, Bool, true, ltb, leb, if◌then◌else◌, ◌&&◌, ◌||◌, not,
  List, [], ◌∷◌, ◌++◌, length, get_or, take, drop,
}
use stdromano.Json.Value.{Bytes}
use stdromano.Char.{is_digit, is_letter, minus}
use stdromano.Python.Token.{Token}

-- `static_cast<unsigned int>` of a `char`, which is signed
abbrev pub to_unsigned : ℕ → ℕ
to_unsigned c = if ltb c 128 then c else c + 4294967040

-- one more, in 32 bits
abbrev pub incr : ℕ → ℕ
incr n = (n + 1) % 2 ^ 32

unfoldable pub is_id_start : ℕ → Bool
is_id_start c = is_letter c || c == b'_'

unfoldable pub is_id_continue : ℕ → Bool
is_id_continue c = is_letter c || is_digit c || c == b'_'

unfoldable pub is_hex : ℕ → Bool
is_hex c = is_digit c || ltb (minus c b'a') 6 || ltb (minus c b'A') 6

unfoldable pub is_oct : ℕ → Bool
is_oct c = ltb (minus c b'0') 8

unfoldable pub is_bin : ℕ → Bool
is_bin c = c == b'0' || c == b'1'

unfoldable pub is_newline : ℕ → Bool
is_newline c = c == 10 || c == 13

unfoldable pub is_unicode_id_start : ℕ → Bool
is_unicode_id_start c = leb 128 c

-- `isalnum`
abbrev pub isalnum : ℕ → Bool
isalnum c = (leb 48 c && leb c 57) || (leb 65 c && leb c 90) || (leb 97 c && leb c 122)

unfoldable pub is_unicode_id_continue : ℕ → Bool
is_unicode_id_continue c = if ltb c 128 then isalnum c || c == b'_' else true

-- `peek`
abbrev pub peek : Bytes → ℕ → ℕ
peek cursor ahead = get_or cursor ahead 0

-- `Lexer`, with the vector of tokens; the top of the stack comes first
pub record Lexer : Type 0 where
  pub cursor : Bytes
  pub line : ℕ
  pub column : ℕ
  pub bracket_depth : ℕ
  pub indent_size : ℕ
  pub indent_stack : List ℕ
  pub out : List Token

abbrev pub indent_undefined : ℕ
indent_undefined = 4294967295

abbrev pub new_lexer : Bytes → Lexer
new_lexer source = record {
  cursor = source;
  line = 1;
  column = 1;
  bracket_depth = 0;
  indent_size = indent_undefined;
  indent_stack = 0 ∷ [];
  out = [];
}

-- a place in the source with its line and column
pub record Place : Type 0 where
  pub cursor : Bytes
  pub line : ℕ
  pub column : ℕ

abbrev pub place_of : Lexer → Place
place_of l = record { cursor = l.cursor; line = l.line; column = l.column }

abbrev pub goto_place : Lexer → Place → Lexer
goto_place l p = record l { cursor = p.cursor; line = p.line; column = p.column }

abbrev pub emplace : Lexer → Token → Lexer
emplace l t = record l { out = l.out ++ (t ∷ []) }

-- `advance`, in front of the zero
unfoldable pub advance : Place → Place
advance p = record p { cursor = drop 1 p.cursor; column = incr p.column }

-- the same, if the cursor is in front of these bytes and not of the zero
unfoldable pub advance_in : Place → Bytes → Place
unfolding advance
advance_in p [] = p
advance_in p (c ∷ cs) = advance p

unfoldable pub advance_n : ℕ → Place → Place
unfolding advance_in
advance_n zero p = p
advance_n (suc n) p = advance_n n (advance_in p p.cursor)

-- the bytes from a pointer up to a later one
abbrev pub text_between : Bytes → Bytes → Bytes
text_between start stop = take (length start - length stop) start

-- a loop that advances while a test holds
unfoldable pub advance_while : (ℕ → Bool) → ℕ → ℕ → Bytes → Place
advance_while test line column [] = record { cursor = []; line = line; column = column }
advance_while test line column (c ∷ cs) =
    let rest = advance_while test line (incr column) cs in
    if test c then rest else record { cursor = c ∷ cs; line = line; column = column }

-- the loop of `skip_comment`
unfoldable pub skip_comment : Place → Place
unfolding advance_while is_newline
skip_comment p = advance_while (λ c. not (is_newline (to_unsigned c))) p.line p.column p.cursor
