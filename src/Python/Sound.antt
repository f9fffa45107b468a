-- ===== src/Python/Sound.antt =====
-- src/python.cpp: what every round of the lexer keeps.
use stdromano.Prelude.{
  ℕ, zero, suc, ◌-◌, ◌<◌, ◌≡◌, refl, ◌∙◌, Bool, true, false, List, [], ◌∷◌, ◌++◌, Option, none,
  some, ◌>>=◌, length, arith, if◌then◌else◌,
}
use stdromano.Json.Value.{Bytes}
use stdromano.Python.Token.{
  Token, Kind, identifier, keyword, literal, operator, delimiter, newline, indent, dedent,
}
use stdromano.Python.Cursor.{Lexer, Place, goto_place}
use stdromano.Python.Suffix.{Suffix, behind, Suffix_trans, Found, text, Found-Suffix}

-- how many levels are open behind a token, and `none` where it closes one that is not
abbrev pub next_level : Kind → ℕ → Option ℕ
next_level indent n = some (suc n)
next_level dedent zero = none
next_level dedent (suc n) = some n
next_level other n = some n

abbrev pub level : List Token → ℕ → Option ℕ
level [] n = some n
level (t ∷ ts) n = next_level t.kind n >>= level ts

pub level-append : (ts us : List Token) (n : ℕ) → level (ts ++ us) n ≡ (level ts n >>= level us)
level-append [] us n = refl
level-append (t ∷ ts) us n = behind_token (level-append ts us) (next_level t.kind n)
  where
    behind_token :
        ((m : ℕ) → level (ts ++ us) m ≡ (level ts m >>= level us))
        → (o : Option ℕ) → (o >>= level (ts ++ us)) ≡ ((o >>= level ts) >>= level us)
    behind_token ih none = refl
    behind_token ih (some m) = ih m

-- The columns of the open levels grow from 0 on.
abbrev pub IsStack : List ℕ → Type 0
IsStack [] = ◌≡◌ {A = ℕ} 0 1
IsStack (a ∷ []) = a ≡ 0
IsStack (a ∷ b ∷ stack) = (b < a) × IsStack (b ∷ stack)

-- The tokens have opened the levels that stand on the stack.
abbrev pub IsLevelled : List ℕ → List Token → Type 0
IsLevelled stack out = IsStack stack × (level out 0 ≡ some (length stack - 1))

abbrev pub quiet : Kind → Bool
quiet indent = false
quiet dedent = false
quiet other = true

abbrev pub AreQuiet : List Token → Type 0
AreQuiet [] = Unit
AreQuiet (t ∷ ts) = (quiet t.kind ≡ true) × AreQuiet ts

next_level-quiet : (k : Kind) (n : ℕ) → quiet k ≡ true → next_level k n ≡ some n
next_level-quiet identifier n h = refl
next_level-quiet keyword n h = refl
next_level-quiet literal n h = refl
next_level-quiet operator n h = refl
next_level-quiet delimiter n h = refl
next_level-quiet newline n h = refl
next_level-quiet indent n h = absurd (ground (arith, h))
next_level-quiet dedent n h = absurd (ground (arith, h))

pub level-AreQuiet : (ts : List Token) (n : ℕ) → AreQuiet ts → level ts n ≡ some n
level-AreQuiet [] n h = refl
level-AreQuiet (t ∷ ts) n (h, hs) = rw (next_level-quiet t.kind n h) (level-AreQuiet ts n hs)

pub IsLevelled-quiet :
    (stack : List ℕ) (out ts : List Token)
    → AreQuiet ts
    → IsLevelled stack out
    → IsLevelled stack (out ++ ts)
IsLevelled-quiet stack out ts h (s, e) =
    (s, level-append out ts 0 ∙ rw e (level-AreQuiet ts (length stack - 1) h))

-- A round at a byte passes that byte, finds its tokens in the source, and keeps the levels.
pub record Sound (behind_byte : Bytes) (l next : Lexer) : Type 0 where
  pub shorter : Suffix next.cursor behind_byte
  pub found : (source : Bytes) → Found source l.out l.cursor → Found source next.out next.cursor
  pub levels : IsLevelled l.indent_stack l.out → IsLevelled next.indent_stack next.out

module _ (l : Lexer) {c : ℕ} {cs : Bytes} (here : l.cursor ≡ c ∷ cs) where
  pub Suffix-here : {rest : Bytes} → Suffix rest cs → Suffix rest l.cursor
  Suffix-here s = rw here (behind s)

  pub Sound-skip : (p : Place) → Suffix p.cursor cs → Sound cs l (goto_place l p)
  Sound-skip p s = record {
    shorter = s;
    found = λ source f. Found-Suffix (Suffix-here s) f;
    levels = λ h. h;
  }

  -- a token with the bytes in front of its text and behind it
  pub Sound-token :
      (t : Token) (next : Lexer) (before after : Bytes)
      → quiet t.kind ≡ true
      → next.out ≡ l.out ++ (t ∷ [])
      → next.indent_stack ≡ l.indent_stack
      → Suffix before l.cursor
      → before ≡ t.value ++ after
      → Suffix next.cursor after
      → Suffix next.cursor cs
      → Sound cs l next
  Sound-token t next before after q out stack front value back short = record {
    shorter = short;
    found = λ source f. rw out (Found-Suffix back (text t (Found-Suffix front f) value));
    levels = λ h. rw (out, stack) (IsLevelled-quiet l.indent_stack l.out (t ∷ []) (q, tt) h);
  }

-- a round that does not stop with an error
abbrev pub Sounds : Bytes → Lexer → Option Lexer → Type 0
Sounds cs l none = Unit
Sounds cs l (some next) = Sound cs l next

pub Sounds-if :
    (b : Bool) (x y : Option Lexer) (cs : Bytes) (l : Lexer)
    → Sounds cs l x
    → Sounds cs l y
    → Sounds cs l (if b then x else y)
Sounds-if true x y cs l h g = h
Sounds-if false x y cs l h g = g

pub Sound-trans :
    {cs : Bytes} {l middle next : Lexer}
    → Sound cs l middle
    → Sound middle.cursor middle next
    → Sound cs l next
Sound-trans h g = record {
  shorter = Suffix_trans g.shorter h.shorter;
  found = λ source f. g.found source (h.found source f);
  levels = λ k. g.levels (h.levels k);
}

pub Sounds-trans :
    (cs : Bytes) (l middle : Lexer) (o : Option Lexer)
    → Sound cs l middle
    → Sounds middle.cursor middle o
    → Sounds cs l o
Sounds-trans cs l middle none h g = tt
Sounds-trans cs l middle (some next) h g = Sound-trans h g
