-- ===== src/Regex/Ranges.antt =====
-- src/regex.cpp: the part of `compile_primary` that reads a class.
use stdromano.Prelude.{
  ℕ, zero, suc, ◌+◌, ◌≡◌, refl, sym, ◌∙◌, List, [], ◌++◌, none, some, Bool, true, false, not, ◌&&◌,
  ◌||◌, arith, get_elem?, append_assoc, append-nil, if◌then◌else◌, ◌==◌, Bool-cases, inl, inr,
  Option,
}
use mathlib.Core.Path.{subst}
use stdromano.Regex.Opcode.{Bytes, opcode}
use stdromano.Regex.Compiler.{
  Compiler, ok, out_of_fuel, error, advance, peek, at_end, read_ranges, compile_ranges, emit_class,
  RangePair, read_range,
}
use stdromano.Regex.Emit.{emit_class-code, class_fragment}
use stdromano.Regex.Finalize.{scan_size}
use stdromano.Regex.Reads.{
  primary, ends_ranges, Shows, ReadsRanges, no_ranges, one_byte, last_dash, two_bytes, Reads,
}
use stdromano.Regex.Scannable.{PlainRanges, PlainRanges-append, class_fragment-IsScannable}
use stdromano.Regex.Appends.{Appends, appended, gave_up, starved, Appends-if}
use stdromano.Regex.Cursor.{
  IsPlain, IsPlain-get_or, next_group_id-advance, pos-advance, peek-Shows, not_shown, shown,
  ranges_end,
}

module _ (pattern : Bytes) where
  read_range-bytecode : (c : Compiler) → (read_range pattern c).1.bytecode ≡ c.bytecode
  unfolding read_range advance
  read_range-bytecode c = ground arith

  read_ranges-bytecode :
      (n : ℕ) (ranges : List RangePair) (c : Compiler) {r : List RangePair × Compiler}
      → read_ranges pattern n ranges c ≡ some r
      → r.1.bytecode ≡ c.bytecode
  unfolding read_ranges
  read_ranges-bytecode zero ranges c h = cc
  read_ranges-bytecode (suc n) ranges c {r} h =
      let (rs, c') = read_range pattern c in
      ground (arith, read_ranges-bytecode n (ranges ++ rs) c' {r = r}, read_range-bytecode c)

  read_range-next_group_id :
      (c : Compiler) → (read_range pattern c).1.next_group_id ≡ c.next_group_id
  unfolding read_range advance
  read_range-next_group_id c = ground arith

  read_ranges-next_group_id :
      (n : ℕ) (ranges : List RangePair) (c : Compiler) {r : List RangePair × Compiler}
      → read_ranges pattern n ranges c ≡ some r
      → r.1.next_group_id ≡ c.next_group_id
  unfolding read_ranges
  read_ranges-next_group_id zero ranges c h = cc
  read_ranges-next_group_id (suc n) ranges c {r} h =
      let (rs, c') = read_range pattern c in
      ground
        (arith, read_ranges-next_group_id n (ranges ++ rs) c' {r = r}, read_range-next_group_id c)

  read_range-ReadsRanges :
      (c : Compiler) (rs : List RangePair) (q : ℕ)
      → at_end pattern c ≡ false
      → (peek pattern c == b']') ≡ false
      → ReadsRanges pattern (read_range pattern c).1.pos rs q
      → ReadsRanges pattern c.pos ((read_range pattern c).0 ++ rs) q
  unfolding read_range
  read_range-ReadsRanges c rs q inside other h =
      let c₁ = advance pattern c in
      let c₂ = advance pattern c₁ in
      let p₁ = pos-advance pattern c inside in
      let here = peek-Shows pattern c inside in
      elim (Bool-cases (not (at_end pattern c₁) && peek pattern c₁ == b'-')) [
        | inr no_dash ↦
            let h' = rw (no_dash, p₁) at h in
            rw no_dash (one_byte here other (rw p₁ at (not_shown pattern c₁ b'-' no_dash)) h')
        | inl dash ↦
            let p₂ : c₂.pos ≡ c.pos + 2 = pos-advance pattern c₁ (ground arith) ∙ ground arith in
            let dash_shown = rw p₁ at (shown pattern c₁ b'-' dash) in
            elim (Bool-cases (at_end pattern c₂ || peek pattern c₂ == b']')) [
              | inl done ↦
                  let h' = rw (dash, done, p₂) at h in
                  rw (dash, done)
                    (last_dash here other dash_shown (rw p₂ at (ranges_end pattern c₂ done)) h')
              | inr on ↦
                  let last_inside : at_end pattern c₂ ≡ false = ground arith in
                  let p₃ : (advance pattern c₂).pos ≡ c.pos + 3 =
                    pos-advance pattern c₂ last_inside ∙ ground arith in
                  let last_shown : Shows pattern (c.pos + 2) (peek pattern c₂) =
                    subst (λ p. Shows pattern p (peek pattern c₂)) p₂
                      (peek-Shows pattern c₂ last_inside) in
                  let h' = rw (dash, on, p₃) at h in
                  rw (dash, on) (two_bytes here other dash_shown last_shown (ground arith) h')
            ]
      ]

  read_ranges-ReadsRanges :
      (n : ℕ) (ranges : List RangePair) (c : Compiler) {r : List RangePair × Compiler}
      → read_ranges pattern n ranges c ≡ some r
      → (rs : List RangePair) × (r.0 ≡ ranges ++ rs) × ReadsRanges pattern c.pos rs r.1.pos
  unfolding read_ranges
  read_ranges-ReadsRanges zero ranges c h = cc
  read_ranges-ReadsRanges (suc n) ranges c {r} h =
      let (rs, c') = read_range pattern c in
      elim (Bool-cases (not (at_end pattern c) && not (peek pattern c == b']'))) [
        | inl go ↦
            let (ss, e, d) =
              read_ranges-ReadsRanges n (ranges ++ rs) c' {r = r} (rw (go, read_ranges) at h) in
            (
              rs ++ ss,
              e ∙ append_assoc ranges rs ss,
              read_range-ReadsRanges c ss r.1.pos (ground arith) (ground arith) d,
            )
        | inr stop ↦
            let same : (ranges, c) ≡ r = ground arith in
            let here : ends_ranges (get_elem? pattern c.pos) ≡ true =
              ranges_end pattern c (ground arith) in
            subst
              (λ r.
                (rs : List RangePair) × (r.0 ≡ ranges ++ rs) × ReadsRanges pattern c.pos rs r.1.pos)
              same ([], sym (append-nil ranges), no_ranges here)
      ]

  -- the ranges end at a bracket, if not at the end of the pattern
  read_ranges-closed :
      (n : ℕ) (ranges : List RangePair) (c : Compiler) {r : List RangePair × Compiler}
      → read_ranges pattern n ranges c ≡ some r
      → at_end pattern r.1 ≡ false
      → Shows pattern r.1.pos b']'
  unfolding read_ranges
  read_ranges-closed zero ranges c h k = cc
  read_ranges-closed (suc n) ranges c {r} h k =
      let (rs, c') = read_range pattern c in
      elim (Bool-cases (not (at_end pattern c) && not (peek pattern c == b']'))) [
        | inl go ↦ read_ranges-closed n (ranges ++ rs) c' {r = r} (rw (go, read_ranges) at h) k
        | inr stop ↦
            let same : c ≡ r.1 = ground arith in
            let inside : at_end pattern c ≡ false = cc in
            subst (λ c. Shows pattern c.pos b']') same (shown pattern c b']' (ground arith))
      ]

  PlainRanges-if :
      (b : Bool) (x y : List RangePair × Compiler)
      → PlainRanges x.0
      → PlainRanges y.0
      → PlainRanges (if b then x else y).0
  PlainRanges-if true x y h k = h
  PlainRanges-if false x y h k = k

  module _ (plain : IsPlain pattern) where
    peek-plain : (c : Compiler) → at_end pattern c ≡ false → scan_size (opcode (peek pattern c)) ≡ 1
    unfolding at_end peek
    peek-plain c h = IsPlain-get_or pattern c.pos plain (ground arith)

    read_range-plain :
        (c : Compiler) → at_end pattern c ≡ false → PlainRanges (read_range pattern c).0
    unfolding read_range scan_size
    read_range-plain c h =
        let lo = peek-plain c h in
        let c₂ = advance pattern (advance pattern c) in
        PlainRanges-if
          (not (at_end pattern (advance pattern c)) && peek pattern (advance pattern c) == b'-') _ _
          (PlainRanges-if (at_end pattern c₂ || peek pattern c₂ == b']') _ _ (lo, (refl, tt))
            (lo, tt))
          (lo, tt)

    read_ranges-plain :
        (n : ℕ) (ranges : List RangePair) (c : Compiler) {r : List RangePair × Compiler}
        → PlainRanges ranges
        → read_ranges pattern n ranges c ≡ some r
        → PlainRanges r.0
    unfolding read_ranges
    read_ranges-plain zero ranges c p h = cc
    read_ranges-plain (suc n) ranges c {r} p h =
        let (rs, c') = read_range pattern c in
        elim (Bool-cases (not (at_end pattern c) && not (peek pattern c == b']'))) [
          | inl go ↦
              let inside : at_end pattern c ≡ false = ground arith in
              read_ranges-plain n (ranges ++ rs) c' {r = r}
                (PlainRanges-append ranges rs p (read_range-plain c inside))
                (rw (go, read_ranges) at h)
          | inr stop ↦ let same : ranges ≡ r.0 = ground arith in subst PlainRanges same p
        ]

    -- the ranges up to the closing bracket, behind which the class ends
    pub compile_ranges-Appends :
        (n : ℕ) (negative : Bool) (c : Compiler) (p : ℕ)
        → ((rs : List RangePair) (q : ℕ)
            → ReadsRanges pattern c.pos rs q
            → Shows pattern q b']'
            → Reads pattern primary p c.next_group_id
                (class_fragment negative rs)
                (q + 1)
                c.next_group_id)
        → Appends pattern primary p c.next_group_id c.bytecode (compile_ranges pattern n negative c)
    unfolding compile_ranges
    compile_ranges-Appends n negative c p whole =
        Appends-if (at_end pattern c) _ _ (λ e. gave_up) (λ e. go (read_ranges pattern n [] c) refl)
      where
        go :
            (o : Option (List RangePair × Compiler))
            → read_ranges pattern n [] c ≡ o
            → Appends pattern primary p c.next_group_id c.bytecode (elim o [
              | none ↦ out_of_fuel
              | some (ranges, c') ↦
                  if at_end pattern c'
                  then error c'
                  else ok (record (advance pattern c') {
                    bytecode = emit_class negative ranges c'.bytecode;
                  })
            ])
        go none e = starved
        go (some (ranges, c')) e =
            let same = read_ranges-bytecode n [] c e in
            let i = class_fragment-IsScannable negative ranges (read_ranges-plain n [] c tt e) in
            let (rs, f, d) = read_ranges-ReadsRanges n [] c e in
            Appends-if (at_end pattern c') _ _ (λ e. gave_up)
              (λ inside.
                let closed : Shows pattern c'.pos b']' = read_ranges-closed n [] c e inside in
                appended (class_fragment negative ranges)
                  (rw
                    (
                      pos-advance pattern c' inside,
                      next_group_id-advance pattern c',
                      read_ranges-next_group_id n [] c e,
                      f,
                    )
                    (whole rs c'.pos d closed))
                  i (rw same (emit_class-code negative ranges c.bytecode)))
