-- ===== src/Regex/Correct.antt =====
-- `regex_exec` on a whole program answers what its fragment means.
use stdromano.Prelude.{
  ℕ, suc, ◌+◌, ◌^◌, ◌<◌, ◌≡◌, refl, [], ◌∷◌, ◌++◌, some, Bool, true, false, arith, get_elem?,
  Bool-cases, inl, inr, ◌∙◌,
}
use stdromano.Regex.Opcode.{Bytes, byte, jump_neq, accept, fail}
use stdromano.Regex.Vm.{Machine, halted, step, run, execute, new_machine}
use stdromano.Regex.Syntax.{Fragment, size, code, program, jump_code}
use stdromano.Regex.Semantics.{State, machine_at, Result, done, abort, unfinished, eval}
use stdromano.Regex.Steps.{At, At-self, Steps, here, next}
use stdromano.Regex.Simulation.{
  Steps-trans, Simulates, eval-Simulates, At-code, At-jump, At-move, Steps-jump_taken,
  Steps-jump_passed,
}

abbrev pub start_state : State
unfolding new_machine
start_state = record {
  sp = new_machine.sp;
  status_flag = new_machine.status_flag;
  groups = new_machine.groups;
}

module _ (code str : Bytes) where
  Steps-run :
      {m o : Machine}
      → Steps code str m o
      → (j : ℕ) → (k : ℕ) × (run code str k m ≡ run code str j o)
  unfolding run
  Steps-run here j = (j, refl)
  Steps-run (next e r) j = let (k, q) = Steps-run r j in (suc k, rw (e, run) q)

  -- The machine halts with the answer that a result stands for.
  abbrev pub Answers : Result → Type 0
  Answers (done s) =
      (k pc : ℕ) × (run code str k new_machine ≡ halted s.status_flag (machine_at pc s))
  Answers (abort s) = (k pc : ℕ) × (run code str k new_machine ≡ halted false (machine_at pc s))
  Answers unfinished = Unit

  halt :
      (pc : ℕ) (s : State) (b : Bool) (pc' : ℕ)
      → Steps code str new_machine (machine_at pc s)
      → step code str (machine_at pc s) ≡ halted b (machine_at pc' s)
      → (k pc : ℕ) × (run code str k new_machine ≡ halted b (machine_at pc s))
  unfolding run
  halt pc s b pc' r e = let (k, q) = Steps-run r 1 in (k, pc', q ∙ rw (e, run))

-- On the program of a fragment whose jumps fit an `int`, the machine halts with what `eval` gives:
-- its flag, position and groups where the evaluation ends or gives up, for any bound on its loops;
-- nothing is said where the bound is used up.
pub run-program :
    (f : Fragment) (str : Bytes) (n : ℕ)
    → size f + 11 < 2 ^ 31
    → Answers (program f) str (eval str n f start_state)
unfolding program step execute new_machine
run-program f str n h = go (eval str n f start_state) sim
  where
    bytes : Bytes
    bytes = program f

    ending : Bytes
    ending = byte accept ∷ byte fail ∷ []

    check_ending : Bytes
    check_ending = jump_code (byte jump_neq) 1 ++ ending

    placed : At bytes 0 (code f (some 6)) × At bytes (0 + size f) check_ending
    placed = At-code bytes str f (some 6) 0 check_ending (At-self bytes)

    at_end : At bytes (size f) (jump_code (byte jump_neq) 1) × At bytes (size f + 5) ending
    at_end =
        At-jump bytes str (byte jump_neq) 1 (size f) ending
          (At-move bytes str {p = 0 + size f} {q = size f} check_ending (omega arith) placed.1)

    at_fail : get_elem? bytes (size f + 6) ≡ some (byte fail)
    at_fail = let e : size f + 5 + 1 ≡ size f + 6 = omega arith in rw e at (at_end.1.1.0)

    sim : Simulates bytes str 0 (size f) (size f + 6) start_state (eval str n f start_state)
    sim =
        eval-Simulates bytes str n f 6 0 (size f) (size f + 6) start_state (omega arith) refl
          (omega arith) placed.0

    go :
        (r : Result)
        → Simulates bytes str 0 (size f) (size f + 6) start_state r
        → Answers bytes str r
    go (done s) r = elim (Bool-cases s.status_flag) [
      | inl set ↦
          (halt bytes str (size f + 5) s s.status_flag (size f + 5)
            (Steps-trans bytes str r (
              Steps-jump_passed bytes str true (byte jump_neq) 1 (size f) (size f + 5) s set refl
                refl at_end.0))
            (ground (arith, at_end.1.0)))
      | inr clear ↦
          (halt bytes str (size f + 6) s s.status_flag (size f + 6)
            (Steps-trans bytes str r (
              Steps-jump_taken bytes str false (byte jump_neq) 1 (size f) (size f + 6) s clear refl
                (omega arith) (omega arith) at_end.0))
            (ground (arith, at_fail)))
    ]
    go (abort s) r = halt bytes str (size f + 6) s false (size f + 6) r (ground (arith, at_fail))
    go unfinished r = tt
