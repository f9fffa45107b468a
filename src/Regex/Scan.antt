-- ===== src/Regex/Scan.antt =====
-- src/regex.cpp: the scan of `finalize_bytecode` over the code of a fragment.
use stdromano.Prelude.{
  ℕ, suc, ◌+◌, ◌-◌, ◌%◌, ◌^◌, ◌≤◌, ◌<◌, ◌≡◌, ◌≢◌, refl, ap, ◌∙◌, [], ◌∷◌, ◌++◌, none, some, true,
  false, arith, length, length-append, append_assoc, append-nil, get_elem?,
}
use stdromano.Regex.Opcode.{Bytes, opcode, decode_jump, jump_bytes, jump_fail, encode_jump_at}
use stdromano.Regex.Syntax.{jump_code}
use stdromano.Regex.Steps.{At, At-append, At-middle, decode_jump-At}
use stdromano.Regex.Emit.{encode_jump_at-append, length-jump_code}
use stdromano.Regex.Finalize.{scan_size, is_jump, resolve_jump, resolve_fail_jumps}

At-placed : (pre xs suf : Bytes) (p : ℕ) → length pre ≡ p → At (pre ++ (xs ++ suf)) p xs
At-placed pre xs suf p e = (At-append _ p xs suf (rw e at (At-middle pre (xs ++ suf)))).0

get_elem?-length : (xs : Bytes) → get_elem? xs (length xs) ≡ none
get_elem?-length [] = refl
get_elem?-length (x ∷ xs) = get_elem?-length xs

decode_jump-placed :
    (pre suf : Bytes) (p b w : ℕ)
    → length pre ≡ p
    → w < 2 ^ 32
    → decode_jump (pre ++ (jump_code b w ++ suf)) (p + 1) ≡ some w
decode_jump-placed pre suf p b w e h =
    decode_jump-At _ (p + 1) w h (At-placed pre (jump_code b w) suf p e).1

module _ (fail_addr : ℕ) where
  -- The scan comes from one position and code to another, with at most a round for each byte.
  abbrev pub Scans : ℕ → Bytes → ℕ → Bytes → Type 0
  Scans i c i' c' =
      (k : ℕ) × (k + i ≤ i')
      × ((n m : ℕ)
          → m ≡ k + n
          → resolve_fail_jumps m fail_addr i c ≡ resolve_fail_jumps n fail_addr i' c')

  Scans-trans : (i j l : ℕ) (c d e : Bytes) → Scans i c j d → Scans j d l e → Scans i c l e
  Scans-trans i j l c d e (k, le₁, r₁) (k', le₂, r₂) =
      (k + k', omega arith, λ n m h. r₁ (k' + n) m (omega arith) ∙ r₂ n (k' + n) refl)

  -- one round at an instruction that is no jump
  Scans-plain :
      (i b : ℕ) (c : Bytes)
      → get_elem? c i ≡ some b
      → is_jump (opcode b) ≡ false
      → 0 < scan_size (opcode b)
      → Scans i c (i + scan_size (opcode b)) c
  unfolding resolve_fail_jumps
  Scans-plain i b c at plain pos =
      (1, omega arith, λ n m h. let e : m ≡ suc n = omega arith in rw e (ground arith))

  -- and at a jump
  Scans-jump :
      (i b : ℕ) (c c' : Bytes)
      → get_elem? c i ≡ some b
      → is_jump (opcode b) ≡ true
      → scan_size (opcode b) ≡ 5
      → resolve_jump fail_addr i c ≡ some c'
      → Scans i c (i + 5) c'
  unfolding resolve_fail_jumps
  Scans-jump i b c c' at jumps five e' =
      (1, omega arith, λ n m h. let e : m ≡ suc n = omega arith in rw e (ground arith))

  -- The scan over `xs` at position `p` leaves `ys` there.
  pub record Rewrites (p : ℕ) (xs ys : Bytes) : Type 0 where
    pub scans :
        (pre suf : Bytes)
        → length pre ≡ p
        → Scans p (pre ++ (xs ++ suf)) (p + length xs) (pre ++ (ys ++ suf))
    pub same_length : length xs ≡ length ys

  pub Rewrites-nil : (p : ℕ) → Rewrites p [] []
  Rewrites-nil p = record {
    scans = λ pre suf e. (
      0,
      omega arith,
      λ n m h. let e₁ : m ≡ n = omega arith in let e₂ : p + 0 ≡ p = omega arith in rw (e₁, e₂),
    );
    same_length = refl;
  }

  -- the scan of a whole code that it rewrites ends
  pub resolve-Rewrites :
      (xs ys : Bytes)
      → Rewrites 0 xs ys
      → resolve_fail_jumps (length xs + 1) fail_addr 0 xs ≡ some ys
  unfolding resolve_fail_jumps
  resolve-Rewrites xs ys r =
      let (k, le, run) = r.scans [] [] refl in
      let e : get_elem? ys (length xs) ≡ none = rw (r.same_length) (get_elem?-length ys) in
      let rounds : length xs + 1 ≡ k + suc (length xs - k) = omega arith in
      let e' : get_elem? (ys ++ []) (0 + length xs) ≡ none =
        rw (append-nil ys) (let z : 0 + length xs ≡ length xs = omega arith in rw z e) in
      let moved = run (suc (length xs - k)) (length xs + 1) rounds in
      let start : xs ++ [] ≡ xs = append-nil xs in
      rw start at moved ∙ rw (e', resolve_fail_jumps) (ap some (append-nil ys))

  pub Rewrites-append :
      (p : ℕ) (xs ys xs' ys' : Bytes)
      → Rewrites p xs ys
      → Rewrites (p + length xs) xs' ys'
      → Rewrites p (xs ++ xs') (ys ++ ys')
  Rewrites-append p xs ys xs' ys' r s = record {
    scans = λ pre suf e.
        let e₁ : pre ++ ((xs ++ xs') ++ suf) ≡ pre ++ (xs ++ (xs' ++ suf)) = simp append_assoc in
        let e₂ : (pre ++ ys) ++ (xs' ++ suf) ≡ pre ++ (ys ++ (xs' ++ suf)) = simp append_assoc in
        let e₃ : (pre ++ ys) ++ (ys' ++ suf) ≡ pre ++ ((ys ++ ys') ++ suf) = simp append_assoc in
        let e₄ : p + length xs + length xs' ≡ p + length (xs ++ xs') =
          omega (arith, length-append xs xs') in
        let second = s.scans (pre ++ ys) suf (omega (arith, length-append pre ys, r.same_length)) in
        rw (e₁, ← e₃, ← e₄)
          (Scans-trans p (p + length xs) _ _ (pre ++ (ys ++ (xs' ++ suf))) _
            (r.scans pre (xs' ++ suf) e) (rw e₂ at second));
    same_length =
        omega (arith, length-append xs xs', length-append ys ys', r.same_length, s.same_length);
  }

  -- an instruction that is no jump stays
  pub Rewrites-plain :
      (p b : ℕ) (operands : Bytes)
      → is_jump (opcode b) ≡ false
      → scan_size (opcode b) ≡ length operands + 1
      → Rewrites p (b ∷ operands) (b ∷ operands)
  Rewrites-plain p b operands plain e = record {
    scans = λ pre suf long.
        let at : get_elem? (pre ++ (b ∷ (operands ++ suf))) p ≡ some b =
          rw long at ((At-middle pre (b ∷ (operands ++ suf))).0) in
        let five : p + scan_size (opcode b) ≡ p + length (b ∷ operands) = omega arith in
        rw (← five) (Scans-plain p b _ at plain (omega arith));
    same_length = refl;
  }

  -- a jump whose offset is not the mark stays
  pub Rewrites-jump :
      (p b w : ℕ)
      → is_jump (opcode b) ≡ true
      → scan_size (opcode b) ≡ 5
      → w < 2 ^ 32
      → w ≢ jump_fail
      → Rewrites p (jump_code b w) (jump_code b w)
  unfolding resolve_jump
  Rewrites-jump p b w jumps five h ne = record {
    scans = λ pre suf long.
        let decoded = decode_jump-placed pre suf p b w long h in
        let at = (At-placed pre (jump_code b w) suf p long).0 in
        let five' : p + 5 ≡ p + length (jump_code b w) = omega (arith, length-jump_code b w) in
        rw (← five') (Scans-jump p b _ _ at jumps five (ground arith));
    same_length = refl;
  }

  -- a jump to `Fail` is resolved
  pub Rewrites-fail :
      (p b w : ℕ)
      → is_jump (opcode b) ≡ true
      → scan_size (opcode b) ≡ 5
      → fail_addr ≡ p + 5 + w
      → Rewrites p (jump_code b jump_fail) (jump_code b w)
  unfolding resolve_jump jump_bytes
  Rewrites-fail p b w jumps five e = record {
    scans = λ pre suf long.
        let decoded = decode_jump-placed pre suf p b jump_fail long (omega arith) in
        let at = (At-placed pre (jump_code b jump_fail) suf p long).0 in
        let five' : p + 5 ≡ p + length (jump_code b jump_fail) =
          omega (arith, length-jump_code b jump_fail) in
        let v = (fail_addr + 2 ^ 64 - (p + 5)) % 2 ^ 32 in
        let patched : encode_jump_at (pre ++ (jump_code b jump_fail ++ suf)) (p + 1) v
            ≡ pre ++ (jump_code b w ++ suf) =
          encode_jump_at-append pre suf b (p + 1) v w _ _ _ _ (omega arith) (omega arith) in
        rw (← five') (Scans-jump p b _ _ at jumps five (ground arith));
    same_length = omega (arith, length-jump_code b w, length-jump_code b jump_fail);
  }
