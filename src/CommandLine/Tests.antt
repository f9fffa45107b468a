-- ===== src/CommandLine/Tests.antt =====
-- Runs of src/command_line_parser.cpp at concrete command lines.
use stdromano.Prelude.{◌≡◌, refl, [], ◌∷◌}
use stdromano.CommandLine.Parser.{CommandLineParser, store, store_true, parse, missing_value}
use stdromano.CommandLine.Values.{parse-inline_value}

-- the arguments `to` and `v`
abbrev declared : CommandLineParser
declared = record {
  args =
      (b't' ∷ b'o' ∷ [], record { data_ = []; arg_type = 2; mode = store })
      ∷ (b'v' ∷ [], record { data_ = []; arg_type = 0; mode = store_true })
      ∷ [];
  aliases = [];
  command_after_args = [];
}

needs_a_value :
    parse ((b'-' ∷ b't' ∷ b'o' ∷ []) ∷ []) declared ≡ missing_value (b't' ∷ b'o' ∷ []) declared
unfolding parse
needs_a_value = refl

-- `--to=hi -v` and `--to hi -v`
parse-inline_value_example :
    parse ((b'-' ∷ b'-' ∷ b't' ∷ b'o' ∷ b'=' ∷ b'h' ∷ b'i' ∷ []) ∷ (b'-' ∷ b'v' ∷ []) ∷ []) declared
    ≡ parse
        ((b'-' ∷ b'-' ∷ b't' ∷ b'o' ∷ []) ∷ (b'h' ∷ b'i' ∷ []) ∷ (b'-' ∷ b'v' ∷ []) ∷ [])
        declared
parse-inline_value_example =
    parse-inline_value declared b't' (b'o' ∷ []) b'=' b'h' (b'i' ∷ []) ((b'-' ∷ b'v' ∷ []) ∷ [])
      refl (refl, (refl, tt)) refl refl refl refl
