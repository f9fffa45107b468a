-- ===== src/Regex/Scannable.antt =====
-- src/regex.cpp: the fragments that the scan of `finalize_bytecode` reads as they are meant.
use stdromano.Prelude.{◌≡◌, ◌++◌, ◌==◌, ◌&&◌, if◌then◌else◌, List, [], ◌∷◌, Bool, true, false, map}
use stdromano.Regex.Opcode.{opcode}
use stdromano.Regex.Syntax.{
  CharTest, single, negated_single, range, negated_range, digit, lower, upper, Fragment, empty,
  test, class, group, seq, alt, opt, star, plus,
}
use stdromano.Regex.Compiler.{RangePair, is_range}
use stdromano.Regex.Finalize.{scan_size}
use stdromano.Regex.Emit.{chain, to_test, class_fragment}

-- The scan takes the operand of a negated single test for an instruction: it must be of one byte.
abbrev pub IsScannableTest : CharTest → Type 0
IsScannableTest (negated_single c) = scan_size (opcode c) ≡ 1
IsScannableTest _ = Unit

abbrev pub IsScannableClass : List CharTest → Type 0
IsScannableClass [] = Unit
IsScannableClass (t ∷ ts) = IsScannableTest t × IsScannableClass ts

abbrev pub IsScannable : Fragment → Type 0
IsScannable empty = Unit
IsScannable (test t) = IsScannableTest t
IsScannable (class ts) = IsScannableClass ts
IsScannable (group id f) = IsScannable f
IsScannable (seq f g) = IsScannable f × IsScannable g
IsScannable (alt f g) = IsScannable f × IsScannable g
IsScannable (opt f) = IsScannable f
IsScannable (star f) = IsScannable f
IsScannable (plus f) = IsScannable f

abbrev pub AllScannable : List Fragment → Type 0
AllScannable [] = Unit
AllScannable (f ∷ fs) = IsScannable f × AllScannable fs

pub AllScannable-append :
    (fs : List Fragment) (g : Fragment)
    → AllScannable fs
    → IsScannable g
    → AllScannable (fs ++ g ∷ [])
AllScannable-append [] g h k = (k, tt)
AllScannable-append (f ∷ fs) g h k = (h.0, AllScannable-append fs g h.1 k)

pub chain-IsScannable :
    (b : Bool) (f : Fragment) (fs : List Fragment)
    → IsScannable f
    → AllScannable fs
    → IsScannable (chain b f fs)
chain-IsScannable b f [] h k = h
chain-IsScannable true f (g ∷ gs) h k = (h, chain-IsScannable true g gs k.0 k.1)
chain-IsScannable false f (g ∷ gs) h k = (h, chain-IsScannable false g gs k.0 k.1)

-- the ranges of a class whose single characters are one-byte instructions, if any
abbrev pub PlainRanges : List RangePair → Type 0
PlainRanges [] = Unit
PlainRanges (r ∷ rs) = (scan_size (opcode r.lo) ≡ 1) × PlainRanges rs

pub PlainRanges-append :
    (rs ss : List RangePair) → PlainRanges rs → PlainRanges ss → PlainRanges (rs ++ ss)
PlainRanges-append [] ss h k = k
PlainRanges-append (r ∷ rs) ss h k = (h.0, PlainRanges-append rs ss h.1 k)

pub IsScannableTest-if :
    (b : Bool) (t u : CharTest)
    → IsScannableTest t
    → IsScannableTest u
    → IsScannableTest (if b then t else u)
IsScannableTest-if true t u h k = h
IsScannableTest-if false t u h k = k

pub to_test-IsScannable :
    (negated : Bool) (r : RangePair)
    → scan_size (opcode r.lo) ≡ 1
    → IsScannableTest (to_test negated r)
to_test-IsScannable negated r h =
    let ranged = IsScannableTest-if (r.lo == b'A' && r.hi == b'Z') upper (range r.lo r.hi) tt tt in
    let lowered = IsScannableTest-if (r.lo == b'a' && r.hi == b'z') lower _ tt ranged in
    let digits = IsScannableTest-if (r.lo == b'0' && r.hi == b'9') digit _ tt lowered in
    IsScannableTest-if (is_range r) _ _
      (IsScannableTest-if negated (negated_range r.lo r.hi) _ tt digits)
      (IsScannableTest-if negated (negated_single r.lo) (single r.lo) h tt)

pub PlainRanges-IsScannable :
    (negated : Bool) (rs : List RangePair)
    → PlainRanges rs
    → IsScannableClass (map (to_test negated) rs)
PlainRanges-IsScannable negated [] h = tt
PlainRanges-IsScannable negated (r ∷ rs) h =
    (to_test-IsScannable negated r h.0, PlainRanges-IsScannable negated rs h.1)

pub class_fragment-IsScannable :
    (negated : Bool) (rs : List RangePair)
    → PlainRanges rs
    → IsScannable (class_fragment negated rs)
class_fragment-IsScannable false (r ∷ []) h = to_test-IsScannable false r h.0
class_fragment-IsScannable true rs h = PlainRanges-IsScannable true rs h
class_fragment-IsScannable false [] h = tt
class_fragment-IsScannable false (r ∷ s ∷ rs) h = PlainRanges-IsScannable false (r ∷ s ∷ rs) h
