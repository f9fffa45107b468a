-- ===== src/Regex/Cursor.antt =====
-- src/regex.cpp: what `peek`, `advance` and `at_end` of `RegexCompiler` show of the pattern.
use stdromano.Prelude.{
  ℕ, zero, suc, ◌+◌, ◌≡◌, refl, [], ◌∷◌, none, some, true, false, not, ◌&&◌, ◌||◌, arith, length,
  get_or, get_elem?, ◌≢◌, ◌<◌, ◌≤◌, ◌==◌, Bool-cases, inl, inr,
}
use stdromano.Regex.Opcode.{Bytes, opcode}
use stdromano.Regex.Compiler.{Compiler, advance, peek, at_end}
use stdromano.Regex.Finalize.{scan_size}
use stdromano.Regex.Reads.{ends_ranges, Shows}

get_elem?-get_or : (bs : Bytes) (i : ℕ) → i < length bs → get_elem? bs i ≡ some (get_or bs i 0)
get_elem?-get_or [] i h = absurd (omega arith)
get_elem?-get_or (b ∷ bs) zero h = refl
get_elem?-get_or (b ∷ bs) (suc i) h = get_elem?-get_or bs i (omega arith)

get_elem?-past : (bs : Bytes) (i : ℕ) → length bs ≤ i → get_elem? bs i ≡ none
get_elem?-past [] i h = refl
get_elem?-past (b ∷ bs) zero h = absurd (omega arith)
get_elem?-past (b ∷ bs) (suc i) h = get_elem?-past bs i (omega arith)

-- Every byte of the text is the opcode of an instruction of one byte, or of none.
abbrev pub IsPlain : Bytes → Type 0
IsPlain [] = Unit
IsPlain (b ∷ bs) = (scan_size (opcode b) ≡ 1) × IsPlain bs

pub IsPlain-get_or :
    (bs : Bytes) (i : ℕ) → IsPlain bs → i < length bs → scan_size (opcode (get_or bs i 0)) ≡ 1
IsPlain-get_or [] i p h = absurd (omega arith)
IsPlain-get_or (b ∷ bs) zero p h = p.0
IsPlain-get_or (b ∷ bs) (suc i) p h = IsPlain-get_or bs i p.1 (omega arith)

module _ (pattern : Bytes) where
  pub bytecode-advance : (c : Compiler) → (advance pattern c).bytecode ≡ c.bytecode
  unfolding advance
  bytecode-advance c = ground arith

  pub next_group_id-advance : (c : Compiler) → (advance pattern c).next_group_id ≡ c.next_group_id
  unfolding advance
  next_group_id-advance c = ground arith

  pub pos-advance : (c : Compiler) → at_end pattern c ≡ false → (advance pattern c).pos ≡ c.pos + 1
  unfolding advance
  pos-advance c h = ground arith

  -- the byte that `peek` reads, where there is one
  pub peek-Shows : (c : Compiler) → at_end pattern c ≡ false → Shows pattern c.pos (peek pattern c)
  unfolding at_end peek
  peek-Shows c h = get_elem?-get_or pattern c.pos (ground arith)

  pub at_end-none : (c : Compiler) → at_end pattern c ≡ true → get_elem? pattern c.pos ≡ none
  unfolding at_end
  at_end-none c h = get_elem?-past pattern c.pos (ground arith)

  -- a byte that is not there is no other byte
  pub not_shown :
      (c : Compiler) (b : ℕ)
      → (not (at_end pattern c) && peek pattern c == b) ≡ false
      → get_elem? pattern c.pos ≢ some b
  not_shown c b h = elim (Bool-cases (at_end pattern c)) [
    | inl e ↦ λ q. ground (arith, at_end-none c e)
    | inr e ↦ λ q. ground (arith, peek-Shows c e)
  ]

  pub shown :
      (c : Compiler) (b : ℕ)
      → (not (at_end pattern c) && peek pattern c == b) ≡ true
      → Shows pattern c.pos b
  shown c b h = ground (arith, peek-Shows c)

  pub ranges_end :
      (c : Compiler)
      → (at_end pattern c || peek pattern c == b']') ≡ true
      → ends_ranges (get_elem? pattern c.pos) ≡ true
  ranges_end c h = elim (Bool-cases (at_end pattern c)) [
    | inl e ↦ rw (at_end-none c e)
    | inr e ↦ rw (peek-Shows c e) (ground arith)
  ]
