-- ===== src/Regex/Simulation.antt =====
-- `regex_exec` on the bytecode of a fragment follows the fragment's meaning.
use stdromano.Prelude.{
  ℕ, zero, suc, ◌+◌, ◌^◌, ◌<◌, ◌≡◌, refl, List, [], ◌∷◌, ◌++◌, some, Bool, true, false, arith, ◌∙◌,
  ap, sym, inl, inr, Bool-cases, if◌then◌else◌,
}
use stdromano.Regex.Opcode.{Bytes, byte, jump_bytes, jump_eq, jump_neq, set_flag, inc_pos_eq}
use stdromano.Regex.Vm.{Machine, running, step}
use stdromano.Regex.Syntax.{
  CharTest, test_bytes, test_size, jump_code, back, Fragment, empty, test, class, group, seq, alt,
  opt, star, plus, code, size, class_code, class_size, length-code, length-class_code, Tail,
}
use stdromano.Regex.Semantics.{
  State, machine_at, Result, done, abort, unfinished, and_then, accepts, accepts_one, consume,
  repeat, eval,
}
use stdromano.Regex.Steps.{
  At, At-append, Steps, here, next, test_flag, step-test, step-jump_taken, step-jump_passed,
  step-set_flag, step-inc_pos_eq, step-group_start, step-group_end, jump_target-forward,
  jump_target-back,
}

module _ (bytes str : Bytes) where
  pub Steps-trans :
      {m n o : Machine} → Steps bytes str m n → Steps bytes str n o → Steps bytes str m o
  Steps-trans here r = r
  Steps-trans (next e q) r = next e (Steps-trans q r)

  one : {m n : Machine} → step bytes str m ≡ running n → Steps bytes str m n
  one e = next e here

  -- From `pc` the machine comes to `stop` with the state of a result, or to `fl` on an abort.
  abbrev pub Simulates : ℕ → ℕ → ℕ → State → Result → Type 0
  Simulates pc stop fl s (done s') = Steps bytes str (machine_at pc s) (machine_at stop s')
  Simulates pc stop fl s (abort s') = Steps bytes str (machine_at pc s) (machine_at fl s')
  Simulates pc stop fl s unfinished = Unit

  -- steps in front of a simulation
  Simulates-prepend :
      (pc pc' stop fl : ℕ) (s s' : State) (r : Result)
      → Steps bytes str (machine_at pc s) (machine_at pc' s')
      → Simulates pc' stop fl s' r
      → Simulates pc stop fl s r
  Simulates-prepend pc pc' stop fl s s' (done _) a b = Steps-trans a b
  Simulates-prepend pc pc' stop fl s s' (abort _) a b = Steps-trans a b
  Simulates-prepend pc pc' stop fl s s' unfinished a b = tt

  Simulates-and_then :
      (pc mid stop fl : ℕ) (s : State) (r : Result) (k : State → Result)
      → Simulates pc mid fl s r
      → ((s' : State) → Simulates mid stop fl s' (k s'))
      → Simulates pc stop fl s (and_then r k)
  Simulates-and_then pc mid stop fl s (done s') k a b =
      Simulates-prepend pc mid stop fl s s' (k s') a (b s')
  Simulates-and_then pc mid stop fl s (abort s') k a b = a
  Simulates-and_then pc mid stop fl s unfinished k a b = tt

  -- a branch on the flag
  Simulates-flag :
      (b : Bool) (pc stop fl : ℕ) (s : State) (x y : Result)
      → (b ≡ true → Simulates pc stop fl s x)
      → (b ≡ false → Simulates pc stop fl s y)
      → Simulates pc stop fl s (elim b [ true ↦ x | false ↦ y ])
  Simulates-flag true pc stop fl s x y set clear = set refl
  Simulates-flag false pc stop fl s x y set clear = clear refl

  Simulates-repeat :
      (pc e stop fl : ℕ) (body : State → Result)
      → ((s : State) → Simulates pc e fl s (body s))
      → ((s : State) → s.status_flag ≡ true → Steps bytes str (machine_at e s) (machine_at pc s))
      → ((s : State)
          → s.status_flag ≡ false
          → Steps bytes str (machine_at e s) (machine_at stop (record s { status_flag = true })))
      → (n : ℕ) (s : State) → Simulates pc stop fl s (repeat n body s)
  unfolding repeat
  Simulates-repeat pc e stop fl body h again leave zero s = tt
  Simulates-repeat pc e stop fl body h again leave (suc n) s =
      Simulates-and_then pc e stop fl s (body s) _ (h s) (λ s'.
        Simulates-flag s'.status_flag e stop fl s' _ _
          (λ f.
            Simulates-prepend e pc stop fl s' s' _ (again s' f)
              (Simulates-repeat pc e stop fl body h again leave n s'))
          (λ f. leave s' f))

  -- `IncPosEq` behind the tests completes the consumption of a character
  consume-inc_pos_eq :
      (pass : ℕ → Bool) (pc : ℕ) (s : State)
      → At bytes pc (byte inc_pos_eq ∷ [])
      → Steps bytes str
          (machine_at pc (record s { status_flag = test_flag str pass s }))
          (machine_at (pc + 1) (consume str pass s))
  unfolding consume
  consume-inc_pos_eq pass pc s a =
      one (step-inc_pos_eq bytes str pc _ a ∙ ap running (ground arith))

  pub At-code :
      (f : Fragment) (t : Tail) (pc : ℕ) (ys : Bytes)
      → At bytes pc (code f t ++ ys)
      → At bytes pc (code f t) × At bytes (pc + size f) ys
  At-code f t pc ys a =
      let (l, r) = At-append bytes pc (code f t) ys a in (l, rw (length-code f t) at r)

  pub At-move : {p q : ℕ} (xs : Bytes) → p ≡ q → At bytes p xs → At bytes q xs
  At-move xs e a = rw (← e) a

  pub At-jump :
      (op w pc : ℕ) (ys : Bytes)
      → At bytes pc (jump_code op w ++ ys)
      → At bytes pc (jump_code op w) × At bytes (pc + 5) ys
  unfolding jump_bytes
  At-jump op w pc ys a = let (l, r) = At-append bytes pc (jump_code op w) ys a in (l, r)

  module _ (b : Bool) (op w : ℕ) (pc target : ℕ) (s : State) (flagged : s.status_flag ≡ b) where
    pub Steps-jump_taken :
        op ≡ (if b then byte jump_eq else byte jump_neq)
        → target ≡ pc + 5 + w
        → target < 2 ^ 31
        → At bytes pc (jump_code op w)
        → Steps bytes str (machine_at pc s) (machine_at target s)
    Steps-jump_taken e e' h a = one (
        step-jump_taken bytes str pc s b flagged op w target e (omega arith)
          (jump_target-forward pc w (omega arith) ∙ ap some (sym e')) a)

    pub Steps-jump_passed :
        op ≡ (if b then byte jump_neq else byte jump_eq)
        → target ≡ pc + 5
        → At bytes pc (jump_code op w)
        → Steps bytes str (machine_at pc s) (machine_at target s)
    Steps-jump_passed e e' a = rw e' (one (step-jump_passed bytes str pc s b flagged op w e a))

  Steps-jump_back :
      (n pc target : ℕ) (s : State)
      → s.status_flag ≡ true
      → target + n ≡ pc + 5
      → 0 < n
      → pc + 5 < 2 ^ 31
      → At bytes pc (jump_code (byte jump_eq) (back n))
      → Steps bytes str (machine_at pc s) (machine_at target s)
  Steps-jump_back n pc target s set e p h a = one (
      step-jump_taken bytes str pc s true set (byte jump_eq) (back n) target refl (omega arith)
        (jump_target-back pc n h (omega arith) p ∙ ap some (omega arith)) a)

  Steps-set_flag :
      (pc stop : ℕ) (s : State)
      → stop ≡ pc + 2
      → At bytes pc (byte set_flag ∷ 1 ∷ [])
      → Steps bytes str (machine_at pc s) (machine_at stop (record s { status_flag = true }))
  Steps-set_flag pc stop s e a = rw e (one (step-set_flag bytes str pc s 1 a))

  -- the tests of a class, up to the common `IncPosEq`
  class_code-Steps :
      (ts : List CharTest) (pc stop : ℕ) (s : State)
      → stop ≡ pc + class_size ts
      → stop < 2 ^ 31
      → At bytes pc (class_code ts)
      → Steps bytes str
          (machine_at pc s)
          (machine_at stop (record s { status_flag = test_flag str (accepts_one ts) s }))
  unfolding accepts_one
  class_code-Steps [] pc stop s e h a =
      rw e (one (step-set_flag bytes str pc s 0 a ∙ ap running (ground arith)))
  class_code-Steps (t ∷ ts) pc stop s e h a =
      let (at_test, rest) = At-append bytes pc (test_bytes t) _ a in
      let p = pc + test_size t in
      let (at_jump, more) = At-jump (byte jump_eq) (class_size ts) p _ rest in
      let s' : State = record s { status_flag = test_flag str (accepts t) s } in
      next (step-test bytes str pc s t at_test) (elim (Bool-cases (test_flag str (accepts t) s)) [
        | inl set ↦
            let same : test_flag str (accepts_one (t ∷ ts)) s ≡ test_flag str (accepts t) s =
              ground arith in
            rw same (
              Steps-jump_taken true (byte jump_eq) (class_size ts) p stop s' set refl (omega arith)
                h at_jump)
        | inr clear ↦
            let same : test_flag str (accepts_one (t ∷ ts)) s ≡ test_flag str (accepts_one ts) s =
              ground arith in
            rw same (
              Steps-trans
                (Steps-jump_passed false (byte jump_eq) (class_size ts) p (p + 5) s' clear refl refl
                  at_jump)
                (class_code-Steps ts (p + 5) stop s' (omega arith) h more))
      ])

  module _ (n : ℕ) where
    pub eval-Simulates :
        (f : Fragment) (t pc stop fl : ℕ) (s : State)
        → stop ≡ pc + size f
        → fl ≡ stop + t
        → fl + 5 < 2 ^ 31
        → At bytes pc (code f (some t))
        → Simulates pc stop fl s (eval str n f s)
    unfolding eval code
    eval-Simulates empty t pc stop fl s e e' h a = let e'' : stop ≡ pc = omega arith in rw e'' here
    eval-Simulates (test c) t pc stop fl s e e' h a =
        let (at_test, at_inc) = At-append bytes pc (test_bytes c) _ a in
        let e'' : stop ≡ pc + test_size c + 1 = omega arith in
        rw e'' (
          next (step-test bytes str pc s c at_test)
            (consume-inc_pos_eq (accepts c) (pc + test_size c) s at_inc))
    eval-Simulates (class ts) t pc stop fl s e e' h a =
        let (at_tests, r) = At-append bytes pc (class_code ts) _ a in
        let at_inc = rw (length-class_code ts) at r in
        let e'' : stop ≡ pc + class_size ts + 1 = omega arith in
        rw e'' (
          Steps-trans (class_code-Steps ts pc (pc + class_size ts) s refl (omega arith) at_tests)
            (consume-inc_pos_eq (accepts_one ts) (pc + class_size ts) s at_inc))
    eval-Simulates (group id f) t pc stop fl s e e' h a =
        let (at_f, at_end) = At-code f (some (2 + t)) (pc + 2) _ (At-move _ (omega arith) a.1.1) in
        Simulates-prepend pc (pc + 2) stop fl s _ _
          (one (step-group_start bytes str pc s id (a.0, (a.1.0, tt))))
          (Simulates-and_then (pc + 2) (pc + 2 + size f) stop fl _ (eval str n f _) _
            (eval-Simulates f (2 + t) (pc + 2) (pc + 2 + size f) fl _ refl (omega arith) h at_f)
            (λ s'.
              let e'' : stop ≡ pc + 2 + size f + 2 = omega arith in
              rw e'' (one (step-group_end bytes str (pc + 2 + size f) s' id at_end))))
    eval-Simulates (seq f g) t pc stop fl s e e' h a =
        let (at_f, r) = At-code f (some (5 + size g + t)) pc _ a in
        let p = pc + size f in
        let (at_jump, at_g) = At-jump (byte jump_neq) (size g) p _ r in
        Simulates-and_then pc p stop fl s (eval str n f s) _
          (eval-Simulates f (5 + size g + t) pc p fl s refl (omega arith) h at_f)
          (λ s'.
            Simulates-flag s'.status_flag p stop fl s' _ _
              (λ set.
                Simulates-prepend p (p + 5) stop fl s' s' _
                  (Steps-jump_passed true (byte jump_neq) (size g) p (p + 5) s' set refl refl
                    at_jump)
                  (eval-Simulates g t (p + 5) stop fl s' (omega arith) e' h at_g))
              (λ clear.
                Steps-jump_taken false (byte jump_neq) (size g) p stop s' clear refl (omega arith)
                  (omega arith) at_jump))
    eval-Simulates (alt f g) t pc stop fl s e e' h a =
        let (at_f, r) = At-code f (some (5 + size g + t)) pc _ a in
        let p = pc + size f in
        let (at_jump, at_g) = At-jump (byte jump_eq) (size g) p _ r in
        Simulates-and_then pc p stop fl s (eval str n f s) _
          (eval-Simulates f (5 + size g + t) pc p fl s refl (omega arith) h at_f)
          (λ s'.
            Simulates-flag s'.status_flag p stop fl s' _ _
              (λ set.
                Steps-jump_taken true (byte jump_eq) (size g) p stop s' set refl (omega arith)
                  (omega arith) at_jump)
              (λ clear.
                Simulates-prepend p (p + 5) stop fl s' s' _
                  (Steps-jump_passed false (byte jump_eq) (size g) p (p + 5) s' clear refl refl
                    at_jump)
                  (eval-Simulates g t (p + 5) stop fl s' (omega arith) e' h at_g)))
    eval-Simulates (opt f) t pc stop fl s e e' h a =
        let (at_f, at_set) = At-code f (some (2 + t)) pc _ a in
        let p = pc + size f in
        Simulates-and_then pc p stop fl s (eval str n f s) _
          (eval-Simulates f (2 + t) pc p fl s refl (omega arith) h at_f)
          (λ s'. Steps-set_flag p stop s' (omega arith) at_set)
    eval-Simulates (star f) t pc stop fl s e e' h a =
        let (at_f, r) = At-code f (some (7 + t)) pc _ a in
        let p = pc + size f in
        let (at_jump, at_set) = At-jump (byte jump_eq) (back (size f + 5)) p _ r in
        Simulates-repeat pc p stop fl (eval str n f)
          (λ s'. eval-Simulates f (7 + t) pc p fl s' refl (omega arith) h at_f)
          (λ s' set.
            Steps-jump_back (size f + 5) p pc s' set (omega arith) (omega arith) (omega arith)
              at_jump)
          (λ s' clear.
            Steps-trans
              (Steps-jump_passed false (byte jump_eq) (back (size f + 5)) p (p + 5) s' clear refl
                refl at_jump)
              (Steps-set_flag (p + 5) stop s' (omega arith) at_set))
          n s
    eval-Simulates (plus f) t pc stop fl s e e' h a =
        let (at_f, r) = At-code f (some (5 + (size f + 12) + t)) pc _ a in
        let p = pc + size f in
        let (at_fail, r₁) = At-jump (byte jump_neq) (size f + 12 + t) p _ r in
        let (at_copy, r₂) = At-code f (some (12 + t)) (p + 5) _ r₁ in
        let q = p + 5 + size f in
        let (at_exit, r₃) = At-jump (byte jump_neq) 5 q _ r₂ in
        let (at_jump, at_set) = At-jump (byte jump_eq) (back (size f + 10)) (q + 5) _ r₃ in
        Simulates-and_then pc p stop fl s (eval str n f s) _
          (eval-Simulates f (5 + (size f + 12) + t) pc p fl s refl (omega arith) h at_f)
          (λ s'.
            Simulates-flag s'.status_flag p stop fl s' _ _
              (λ set.
                Simulates-prepend p (p + 5) stop fl s' s' _
                  (Steps-jump_passed true (byte jump_neq) (size f + 12 + t) p (p + 5) s' set refl
                    refl at_fail)
                  (Simulates-repeat (p + 5) q stop fl (eval str n f)
                    (λ u. eval-Simulates f (12 + t) (p + 5) q fl u refl (omega arith) h at_copy)
                    (λ u on.
                      Steps-trans
                        (Steps-jump_passed true (byte jump_neq) 5 q (q + 5) u on refl refl at_exit)
                        (Steps-jump_back (size f + 10) (q + 5) (p + 5) u on (omega arith)
                          (omega arith) (omega arith) at_jump))
                    (λ u off.
                      Steps-trans
                        (Steps-jump_taken false (byte jump_neq) 5 q (q + 10) u off refl
                          (omega arith) (omega arith) at_exit)
                        (Steps-set_flag (q + 10) stop u (omega arith) (
                          At-move {p = q + 5 + 5} {q = q + 10} (byte set_flag ∷ 1 ∷ [])
                            (omega arith) at_set)))
                    n s'))
              (λ clear.
                Steps-jump_taken false (byte jump_neq) (size f + 12 + t) p fl s' clear refl
                  (omega arith) (omega arith) at_fail))
