-- ===== src/CommandLine/Parser.antt =====
-- src/command_line_parser.cpp: the declared arguments and the loop over the command line.
-- A word of the command line is a list of bytes without its final zero. The map of the arguments is
-- a list of pairs with distinct keys; a key is looked up by comparison. It is what the declarations
-- have left: parse only looks keys up and changes what is stored under them.
use stdromano.Prelude.{
  ℕ, ◌==◌, Bool, true, false, if◌then◌else◌, ◌&&◌, ◌||◌, List, [], ◌∷◌, ◌++◌, Option, none, some,
}

abbrev pub Text : Type 0
Text = List ℕ

abbrev pub same_text : Text → Text → Bool
same_text [] [] = true
same_text (c ∷ cs) (d ∷ ds) = (c == d) && same_text cs ds
same_text _ _ = false

pub data ArgMode : Type 0 where
  store store_true store_false : ArgMode

pub record CommandLineArg : Type 0 where
  pub data_ : Text
  pub arg_type : ℕ
  pub mode : ArgMode

-- `_args`
abbrev pub Args : Type 0
Args = List (Text × CommandLineArg)

abbrev pub lookup : Args → Text → Option CommandLineArg
lookup [] key = none
lookup ((name, arg) ∷ args) key = if same_text name key then some arg else lookup args key

-- `_args[key].set_data(value)`, for a key that is there
abbrev pub set_data : Args → Text → Text → Args
set_data [] key value = []
set_data ((name, arg) ∷ args) key value =
    if same_text name key
    then (name, record arg { data_ = value }) ∷ args
    else (name, arg) ∷ set_data args key value

pub record CommandLineParser : Type 0 where
  pub args : Args
  pub aliases : List (Text × Text)
  pub command_after_args : Text

pub data Parsed : Type 0 where
  ok : CommandLineParser → Parsed
  missing_quote missing_value : Text → CommandLineParser → Parsed

-- the words behind `--`, with a space between two
unfoldable pub join_words : List Text → Text
join_words [] = []
join_words (w ∷ []) = w
join_words (w ∷ v ∷ ws) = w ++ (b' ' ∷ join_words (v ∷ ws))

-- `while(*key_start == '-') key_start++`
unfoldable pub skip_dashes : Text → Text
skip_dashes [] = []
skip_dashes (c ∷ cs) = if c == b'-' then skip_dashes cs else c ∷ cs

-- the key up to `:` or `=`, and the value behind it
unfoldable pub split_key : Text → Text × Option Text
split_key [] = ([], none)
split_key (c ∷ cs) =
    let rest = split_key cs in
    if c == b':' || c == b'=' then ([], some cs) else (c ∷ rest.0, rest.1)

-- the value up to the closing quote
unfoldable pub until_quote : ℕ → Text → Option Text
until_quote quote [] = none
until_quote quote (c ∷ cs) =
    let rest = until_quote quote cs in
    if c == quote then some [] else elim rest [ none ↦ none | some v ↦ some (c ∷ v) ]

-- an inline value; `none` has no closing quote
unfoldable pub inline_value : Text → Option Text
unfolding until_quote
inline_value [] = some []
inline_value (c ∷ cs) = if c == b'"' || c == b'\'' then until_quote c cs else some (c ∷ cs)

abbrev pub is_option : Text → Bool
is_option [] = false
is_option (c ∷ cs) = c == b'-'

abbrev pub put : CommandLineParser → Text → Text → CommandLineParser
put p key value = record p { args = set_data p.args key value }

-- what one round does: it goes on behind the word or the next one, stops, or takes all words
pub data Round : Type 0 where
  next next_two : CommandLineParser → Round
  stop : Parsed → Round
  after : Round

-- the round for the key and the inline value of a word, and the word behind it, if there is one
unfoldable pub assign : Text → Option Text → Option Text → CommandLineParser → Round
unfolding inline_value
assign key value following p = elim (lookup p.args key) [
  | none ↦ next p
  | some arg ↦ elim arg.mode [
    | store_true ↦ next (put p key (b't' ∷ b'r' ∷ b'u' ∷ b'e' ∷ []))
    | store_false ↦ next (put p key (b'f' ∷ b'a' ∷ b'l' ∷ b's' ∷ b'e' ∷ []))
    | store ↦ elim value [
      | some inline ↦ elim (inline_value inline) [
        | none ↦ stop (missing_quote key p)
        | some v ↦ next (put p key v)
      ]
      | none ↦ elim following [
        | none ↦ stop (missing_value key p)
        | some v ↦ next_two (put p key v)
      ]
    ]
  ]
]

unfoldable pub round : Text → Option Text → CommandLineParser → Round
unfolding skip_dashes split_key assign
round w following p =
    let (key, value) = split_key (skip_dashes w) in
    if same_text w (b'-' ∷ b'-' ∷ [])
    then after
    else if is_option w
    then assign key value following p
    else next p

-- the loop of `parse` over the words that are left
unfoldable pub parse_words : List Text → CommandLineParser → Parsed
unfolding join_words round
parse_words [] p = ok p
parse_words (w ∷ []) p = elim (round w none p) [
  | next p' ↦ ok p'
  | next_two p' ↦ ok p'
  | stop r ↦ r
  | after ↦ ok p
]
parse_words (w ∷ v ∷ ws) p = elim (round w (some v) p) [
  | next p' ↦ parse_words (v ∷ ws) p'
  | next_two p' ↦ parse_words ws p'
  | stop r ↦ r
  | after ↦ ok (record p { command_after_args = join_words (v ∷ ws) })
]

-- `parse`, for the words behind the name of the program
unfoldable pub parse : List Text → CommandLineParser → Parsed
unfolding parse_words
parse words p = parse_words words p
