-- ===== src/Regex/Tests.antt =====
-- Runs of src/regex.cpp at concrete patterns and texts.
use Prim.Native.Char.{code as char_code}
use Prim.Native.String.{String}
use stdromano.Prelude.{
  ℕ, zero, suc, some, none, ◌≡◌, refl, true, false, List, [], ◌∷◌, arith, ◌≢◌, take, drop, ◌-◌, set,
}
use stdromano.Regex.Opcode.{
  Bytes, decode_jump, encode_jump_at, emit_fail_jump, emit_jump, patch_jump,
}
use stdromano.Regex.Vm.{RegexGroup, run, step, new_machine, execute, jump_target}
use stdromano.Regex.Syntax.{Fragment, program, code, single, test, plus, alt, opt}
use stdromano.Regex.Semantics.{eval}
use stdromano.Regex.Correct.{Answers, start_state, run-program}
use stdromano.Regex.Compiler.{new_compiler, compile_alternation, patch_jumps}
use stdromano.Regex.Finalize.{finalize_bytecode, scan_size}
use stdromano.Regex.Api.{
  compile, Regex, RegexMatch, match_all, replace_iter, replace_all, exec_fresh, new_match,
  first_group, valid, exec_at, no_groups, replaced, overrun,
}
use stdromano.Regex.Reads.{items}
use stdromano.Regex.Appends.{Appends}
use stdromano.Regex.Cursor.{IsPlain}
use stdromano.Regex.Grammar.{compile_alternation-Appends}
use stdromano.Regex.Resolve.{finalize_bytecode-code}
use stdromano.Regex.Refine.{Denotes, compile-program, compile-Answers}
use stdromano.Regex.Matches.{HasOwnGroups, InOrder, match_all-InOrder}
use stdromano.Regex.Replace.{
  HasAnswers, match_all-total, replace_iter-identity, replace_iter-overrun,
}

abbrev bytes : String → Bytes
bytes String.[] = []
bytes (String.◌∷◌ c s) = char_code c ∷ bytes s

-- the bytecode of `(a|[^b])+c`
abbrev grouped : Regex
grouped = record {
  bytecode =
      15 ∷ 1 ∷ 0 ∷ 97 ∷ 18 ∷ 11 ∷ 0 ∷ 0 ∷ 0 ∷ 10 ∷ 1 ∷ 98 ∷ 11 ∷ 0 ∷ 0 ∷ 0 ∷ 2 ∷ 19 ∷ 0 ∷ 18 ∷ 16
      ∷ 1 ∷ 12 ∷ 0 ∷ 0 ∷ 0 ∷ 48 ∷ 15 ∷ 1 ∷ 0 ∷ 97 ∷ 18 ∷ 11 ∷ 0 ∷ 0 ∷ 0 ∷ 10 ∷ 1 ∷ 98 ∷ 11 ∷ 0 ∷ 0
      ∷ 0 ∷ 2 ∷ 19 ∷ 0 ∷ 18 ∷ 16 ∷ 1 ∷ 12 ∷ 0 ∷ 0 ∷ 0 ∷ 5 ∷ 11 ∷ 255 ∷ 255 ∷ 255 ∷ 224 ∷ 19 ∷ 1 ∷ 12
      ∷ 0 ∷ 0 ∷ 0 ∷ 3 ∷ 0 ∷ 99 ∷ 18 ∷ 12 ∷ 0 ∷ 0 ∷ 0 ∷ 1 ∷ 13 ∷ 14 ∷ [];
  group_count = 2;
}

-- the bytecode of `[0-9]+`
abbrev number : Regex
number = record {
  bytecode =
      5 ∷ 18 ∷ 12 ∷ 0 ∷ 0 ∷ 0 ∷ 20 ∷ 5 ∷ 18 ∷ 12 ∷ 0 ∷ 0 ∷ 0 ∷ 5 ∷ 11 ∷ 255 ∷ 255 ∷ 255 ∷ 244 ∷ 19
      ∷ 1 ∷ 12 ∷ 0 ∷ 0 ∷ 0 ∷ 1 ∷ 13 ∷ 14 ∷ [];
  group_count = 1;
}

-- the bytecode of `[0-9]*`
abbrev digits : Regex
digits = record {
  bytecode = 5 ∷ 18 ∷ 11 ∷ 255 ∷ 255 ∷ 255 ∷ 249 ∷ 19 ∷ 1 ∷ 12 ∷ 0 ∷ 0 ∷ 0 ∷ 1 ∷ 13 ∷ 14 ∷ [];
  group_count = 1;
}

compiles_grouped : compile (bytes "(a|[^b])+c") ≡ some (true, grouped)
unfolding compile emit_fail_jump patch_jumps patch_jump encode_jump_at emit_jump decode_jump
compiles_grouped = refl

compiles_number : compile (bytes "[0-9]+") ≡ some (true, number)
unfolding compile emit_fail_jump patch_jumps patch_jump encode_jump_at emit_jump decode_jump
compiles_number = refl

compiles_digits : compile (bytes "[0-9]*") ≡ some (true, digits)
unfolding compile emit_fail_jump patch_jumps patch_jump encode_jump_at emit_jump decode_jump
compiles_digits = refl

replaces_numbers : replace_all number 100 (bytes "ab12c3") (bytes "X") ≡ replaced (bytes "abXcX")
unfolding replace_all valid run step new_machine execute decode_jump jump_target
replaces_numbers = refl

grouped-IsPlain : IsPlain (bytes "(a|[^b])+c")
unfolding scan_size
grouped-IsPlain = (refl, (refl, (refl, (refl, (refl, (refl, (refl, (refl, (refl, (refl, tt))))))))))

compile-program_example :
    (f : Fragment) × Denotes (bytes "(a|[^b])+c") 2 f × (grouped.bytecode ≡ program f)
compile-program_example =
    compile-program (bytes "(a|[^b])+c") {re = grouped} grouped-IsPlain compiles_grouped
      (omega arith)

compile-Answers_example :
    (f : Fragment) × Denotes (bytes "(a|[^b])+c") 2 f
    × ((str : Bytes) (n : ℕ) → Answers grouped.bytecode str (eval str n f start_state))
compile-Answers_example =
    compile-Answers (bytes "(a|[^b])+c") {re = grouped} grouped-IsPlain compiles_grouped
      (omega arith)

-- `a+|b?`
abbrev letters : Fragment
letters = alt (plus (test (single b'a'))) (opt (test (single b'b')))

run-program_example :
    Answers (program letters) (bytes "aab") (eval (bytes "aab") 5 letters start_state)
run-program_example = run-program letters (bytes "aab") 5 (omega arith)

finalize_bytecode-code_example : finalize_bytecode (code letters none) ≡ some (program letters)
finalize_bytecode-code_example = finalize_bytecode-code letters (tt, tt) (omega arith)

compile_alternation-Appends_example :
    Appends
      (bytes "(a|[^b])+c")
      (items false)
      0
      1
      []
      (compile_alternation (bytes "(a|[^b])+c") 11 11 new_compiler)
compile_alternation-Appends_example =
    compile_alternation-Appends (bytes "(a|[^b])+c") grouped-IsPlain 11 11 new_compiler

abbrev two_matches : List RegexMatch
two_matches =
    new_match (bytes "ab12c3") true (set no_groups 0 (record { start = 2; end = 4 })) 1
    ∷ new_match (bytes "ab12c3") true (set no_groups 0 (record { start = 5; end = 6 })) 1
    ∷ []

match_all-InOrder_example : InOrder (HasOwnGroups number 100 (bytes "ab12c3")) 0 6 two_matches
unfolding match_all valid run step new_machine execute decode_jump jump_target
match_all-InOrder_example =
    match_all-InOrder number 100 (bytes "ab12c3") {ms = two_matches} (omega arith) refl

number-HasAnswers : HasAnswers (exec_fresh number 100 (bytes "a1")) (bytes "a1")
unfolding exec_at valid run step new_machine execute decode_jump jump_target
number-HasAnswers zero h = λ e. cc
number-HasAnswers (suc zero) h = λ e. cc
number-HasAnswers (suc (suc zero)) h = λ e. cc
number-HasAnswers (suc (suc (suc n))) h = absurd (omega arith)

match_all-total_example : match_all number 100 (bytes "a1") ≢ none
match_all-total_example = match_all-total number 100 (bytes "a1") number-HasAnswers

digits-HasAnswers : HasAnswers (exec_fresh digits 100 (bytes "a1")) (bytes "a1")
unfolding exec_at valid run step new_machine execute decode_jump jump_target
digits-HasAnswers zero h = λ e. cc
digits-HasAnswers (suc zero) h = λ e. cc
digits-HasAnswers (suc (suc zero)) h = λ e. cc
digits-HasAnswers (suc (suc (suc n))) h = absurd (omega arith)

replace_iter-overrun_example : replace_iter digits 100 (bytes "a1") (λ m. []) ≡ overrun
unfolding exec_at valid run step new_machine execute decode_jump jump_target
replace_iter-overrun_example =
    replace_iter-overrun digits 100 (bytes "a1") (λ m. []) refl digits-HasAnswers refl

abbrev whole_match : RegexMatch → Bytes
whole_match m =
    take ((first_group m.groups).end - (first_group m.groups).start)
      (drop (first_group m.groups).start m.source)

whole_match-new_match :
    (str : Bytes) (gs : List RegexGroup)
    → whole_match (new_match str true gs 1)
      ≡ take ((first_group gs).end - (first_group gs).start) (drop (first_group gs).start str)
unfolding new_match
whole_match-new_match str [] = refl
whole_match-new_match str (g ∷ gs) = refl

replace_iter-identity_example :
    replace_iter number 100 (bytes "a1") whole_match ≡ replaced (bytes "a1")
unfolding exec_at valid run step new_machine execute decode_jump jump_target
replace_iter-identity_example =
    replace_iter-identity number 100 (bytes "a1") whole_match refl number-HasAnswers refl
      (whole_match-new_match (bytes "a1"))
