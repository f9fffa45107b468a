-- ===== src/Python/Suffix.antt =====
-- src/python.cpp: cursors that are further on, and the tokens found on the way.
use stdromano.Prelude.{
  ℕ, zero, suc, ◌-◌, ◌≤◌, ◌≡◌, refl, sym, ap, List, [], ◌∷◌, ◌++◌, length, drop, arith,
  append_assoc, append-nil, false, ltb, ◌==◌, Bool-cases, inl, inr,
}
use stdromano.Json.Value.{Bytes}
use stdromano.Python.Token.{Token}
use stdromano.Python.Cursor.{text_between}

pub data Suffix (rest : Bytes) : Bytes → Type 0 where
  same : Suffix rest rest
  behind : {c : ℕ} {cs : Bytes} → Suffix rest cs → Suffix rest (c ∷ cs)

pub Suffix_trans : {a b c : Bytes} → Suffix a b → Suffix b c → Suffix a c
Suffix_trans s same = s
Suffix_trans s (behind t) = behind (Suffix_trans s t)

pub Suffix-nil : (cs : Bytes) → Suffix [] cs
Suffix-nil [] = same
Suffix-nil (c ∷ cs) = behind (Suffix-nil cs)

pub Suffix-drop : (n : ℕ) (cs : Bytes) → Suffix (drop n cs) cs
Suffix-drop zero cs = same
Suffix-drop (suc n) [] = same
Suffix-drop (suc n) (c ∷ cs) = behind (Suffix-drop n cs)

pub length-Suffix : {rest cs : Bytes} → Suffix rest cs → length rest ≤ length cs
length-Suffix same = omega arith
length-Suffix (behind s) = omega (arith, length-Suffix s)

pub text_between-Suffix : {rest cs : Bytes} → Suffix rest cs → cs ≡ text_between cs rest ++ rest
text_between-Suffix {rest = rest} same =
    let none_between : length rest - length rest ≡ 0 = omega arith in rw none_between refl
text_between-Suffix {rest = rest} (behind {c = c} {cs = cs} s) =
    let more : suc (length cs) - length rest ≡ suc (length cs - length rest) =
      omega (arith, length-Suffix s) in
    rw more (ap (λ bs. c ∷ bs) (text_between-Suffix s))

-- The texts of the tokens stand in the source in their order, one behind the other with bytes between
-- them, and the bytes in the end are what is left behind the last.
pub data Found (source : Bytes) : List Token → Bytes → Type 0 where
  start : Found source [] source
  skip :
      {c : ℕ} {rest : Bytes} {out : List Token}
      → Found source out (c ∷ rest)
      → Found source out rest
  text :
      {before rest : Bytes} {out : List Token} (t : Token)
      → Found source out before
      → before ≡ t.value ++ rest
      → Found source (out ++ (t ∷ [])) rest

pub Found-Suffix :
    {source : Bytes} {out : List Token} {rest cs : Bytes}
    → Suffix rest cs
    → Found source out cs
    → Found source out rest
Found-Suffix same f = f
Found-Suffix (behind s) f = Found-Suffix s (skip f)

-- tokens without a text
abbrev pub AreEmpty : List Token → Type 0
AreEmpty [] = Unit
AreEmpty (t ∷ ts) = (t.value ≡ []) × AreEmpty ts

pub Found-AreEmpty :
    {source : Bytes} {out : List Token} {rest : Bytes} (ts : List Token)
    → AreEmpty ts
    → Found source out rest
    → Found source (out ++ ts) rest
Found-AreEmpty {out = out} [] e f = rw (append-nil out) f
Found-AreEmpty {out = out} {rest = rest} (t ∷ ts) (e, es) f =
    let one = text t f (ap (λ v. v ++ rest) (sym e)) in
    rw (append_assoc out (t ∷ []) ts) at (Found-AreEmpty ts es one)

-- the bytes in front of a later place, less some of them
pub Suffix-drop_less :
    {rest cs : Bytes} (k : ℕ) → Suffix rest cs → Suffix rest (drop (length cs - length rest - k) cs)
Suffix-drop_less {rest = rest} k same =
    let none_between : length rest - length rest - k ≡ 0 = omega arith in rw none_between same
Suffix-drop_less {rest = rest} k (behind {c = c} {cs = cs} s) =
    elim (Bool-cases (ltb k (suc (length cs) - length rest))) [
      | inl e ↦
          let more : suc (length cs) - length rest - k ≡ suc (length cs - length rest - k) =
            ground (arith, length-Suffix s, e) in
          rw more (Suffix-drop_less k s)
      | inr e ↦
          let all : suc (length cs) - length rest - k ≡ 0 = ground (arith, e) in rw all (behind s)
    ]

pub Suffix-drop-drop : (n k c : ℕ) (cs : Bytes) → Suffix (drop (suc k) (drop n (c ∷ cs))) cs
Suffix-drop-drop zero k c cs = Suffix-drop k cs
Suffix-drop-drop (suc n) k c cs = Suffix_trans (Suffix-drop (suc k) (drop n cs)) (Suffix-drop n cs)

pub Suffix_strict :
    {rest cs : Bytes} {c : ℕ}
    → (length (c ∷ cs) == length rest) ≡ false
    → Suffix rest (c ∷ cs)
    → Suffix rest cs
Suffix_strict {cs = cs} h same = absurd (ground (arith, h))
Suffix_strict h (behind s) = s
