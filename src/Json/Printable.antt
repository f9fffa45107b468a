-- ===== src/Json/Printable.antt =====
-- src/json.cpp: documents that the writer tells apart, and how their texts begin and end.
use stdromano.Prelude.{
  ℕ, zero, suc, ◌^◌, ◌==◌, ◌≤◌, ◌<◌, ◌≡◌, refl, ap, ◌∙◌, Bool, true, false, ltb, ◌&&◌, not, [], ◌∷◌,
  ◌++◌, length, replicate, arith, Bool-cases, inl, inr, append_assoc,
}
use stdromano.Json.Value.{
  Bytes, pos, negsuc, Value, Items, Members, null, bool, u64, i64, f64, str, array, dict, no_items,
  item, no_members, member, Format,
}
use stdromano.Json.Parser.{ok, skip_whitespace, is_space, optional, c_str, max_i64}
use stdromano.Json.Writer.{write_str, newline, write_value, write_items, write_members}
use stdromano.Json.Strings.{IsText}
use stdromano.Json.Numbers.{decimal, StartsDigit, emit-StartsDigit, Stops, stops}

-- what the formatting library documents of the texts of integers and of padding
pub record IsFormat {F : Type 0} (format : Format F) : Type 0 where
  pub of_u64 : (n : ℕ) → n < 2 ^ 64 → format.of_u64 n ≡ decimal n
  pub of_i64 : (n : ℕ) → n < 2 ^ 63 → format.of_i64 (negsuc n) ≡ b'-' ∷ decimal (suc n)
  pub pad : (n : ℕ) → format.pad n ≡ replicate n 32

-- Documents that the text tells apart: integers that the parser can read, a signed one negative; no
-- floating-point numbers, which lose digits; strings of printable and escaped bytes.
module _ {F : Type 0} where
  abbrev mutual
    pub IsPrintable : Value F → Type 0
    IsPrintable null = Unit
    IsPrintable (bool b) = Unit
    IsPrintable (u64 n) = n ≤ max_i64
    IsPrintable (i64 (pos n)) = ◌≡◌ {A = ℕ} 0 1
    IsPrintable (i64 (negsuc n)) = suc n ≤ max_i64
    IsPrintable (f64 x) = ◌≡◌ {A = ℕ} 0 1
    IsPrintable (str s) = IsText s
    IsPrintable (array vs) = ArePrintable vs
    IsPrintable (dict ms) = MembersPrintable ms

    pub ArePrintable : Items F → Type 0
    ArePrintable no_items = Unit
    ArePrintable (item v vs) = IsPrintable v × ArePrintable vs

    pub MembersPrintable : Members F → Type 0
    MembersPrintable no_members = Unit
    MembersPrintable (member key v ms) = IsText key × (IsPrintable v × MembersPrintable ms)

-- how a value begins: neither with space nor with a bracket that closes
abbrev pub begins : ℕ → Bool
begins c = not (is_space c) && (not (c == b']') && not (c == b'}'))

abbrev pub Begins : Bytes → Type 0
Begins [] = ◌≡◌ {A = ℕ} 0 1
Begins (c ∷ cs) = begins c ≡ true

pub Begins-append : (bs rest : Bytes) → Begins bs → Begins (bs ++ rest)
Begins-append [] rest h = absurd (omega arith)
Begins-append (c ∷ cs) rest h = h

pub length_of_Begins : (bs : Bytes) → Begins bs → 0 < length bs
length_of_Begins [] h = absurd (omega arith)
length_of_Begins (c ∷ cs) h = omega arith

pub StartsDigit-Begins : (bs : Bytes) → StartsDigit bs → Begins bs
StartsDigit-Begins [] h = h tt
StartsDigit-Begins (c ∷ cs) h = ground arith

pub skip_whitespace-Begins : (bs : Bytes) → Begins bs → skip_whitespace bs ≡ bs
unfolding skip_whitespace
skip_whitespace-Begins [] h = refl
skip_whitespace-Begins (c ∷ cs) h =
    let solid : is_space c ≡ false = ground arith in rw (solid, skip_whitespace) refl

pub optional-Begins :
    (b : ℕ) (bs : Bytes) → (begins b ≡ false) → Begins bs → optional (λ c. c == b) bs ≡ ok false bs
optional-Begins b [] g h = refl
optional-Begins b (c ∷ cs) g h = let other : (c == b) ≡ false = ground arith in rw other refl

skip_whitespace-replicate :
    (n : ℕ) (rest : Bytes) → skip_whitespace (replicate n 32 ++ rest) ≡ skip_whitespace rest
unfolding skip_whitespace
skip_whitespace-replicate zero rest = refl
skip_whitespace-replicate (suc n) rest = skip_whitespace-replicate n rest

pub write_str-Begins : (s : Bytes) → Begins (write_str s)
unfolding write_str
write_str-Begins s = refl

pub c_str-IsText : (s : Bytes) → IsText s → c_str s ≡ s
unfolding c_str
c_str-IsText [] h = refl
c_str-IsText (c ∷ cs) h =
    let nonzero : (c == 0) ≡ false = ground arith in
    rw (nonzero, c_str) (ap (λ ds. c ∷ ds) (c_str-IsText cs h.1))

module _ {F : Type 0} (format : Format F) (laws : IsFormat format) (indent_size : ℕ) where
  pub skip_whitespace-newline :
      (indent : ℕ) (rest : Bytes)
      → skip_whitespace (newline format indent_size indent ++ rest) ≡ skip_whitespace rest
  unfolding newline skip_whitespace
  skip_whitespace-newline indent rest = elim (Bool-cases (ltb 0 indent_size)) [
    | inl wide ↦ rw (wide, laws.pad indent, newline) (skip_whitespace-replicate indent rest)
    | inr narrow ↦ rw (narrow, newline) refl
  ]

  pub write_value-Begins :
      (indent : ℕ) (v : Value F) → IsPrintable v → Begins (write_value format indent_size indent v)
  unfolding write_value write_str
  write_value-Begins indent null h = refl
  write_value-Begins indent (bool true) h = refl
  write_value-Begins indent (bool false) h = refl
  write_value-Begins indent (u64 n) h =
      rw (laws.of_u64 n (omega arith)) (StartsDigit-Begins (decimal n) (emit-StartsDigit 19 n []))
  write_value-Begins indent (i64 (pos n)) h = absurd (omega arith)
  write_value-Begins indent (i64 (negsuc n)) h = rw (laws.of_i64 n (omega arith)) refl
  write_value-Begins indent (f64 x) h = absurd (omega arith)
  write_value-Begins indent (str s) h = refl
  write_value-Begins indent (array vs) h = refl
  write_value-Begins indent (dict ms) h = refl

  pub Stops-newline :
      (indent : ℕ) (b : ℕ) (rest : Bytes)
      → stops b ≡ true
      → Stops (newline format indent_size indent ++ (b ∷ rest))
  unfolding newline
  Stops-newline indent b rest h = elim (Bool-cases (ltb 0 indent_size)) [
    | inl wide ↦ rw (wide, newline) refl
    | inr narrow ↦ rw (narrow, newline) h
  ]

  pub Stops-items :
      (indent close : ℕ) (vs : Items F) (rest : Bytes)
      → Stops (
          write_items format indent_size indent false vs
          ++ (newline format indent_size close ++ (b']' ∷ rest)))
  unfolding write_items
  Stops-items indent close no_items rest = Stops-newline close b']' rest refl
  Stops-items indent close (item v vs) rest = refl

  pub Stops-members :
      (indent close : ℕ) (ms : Members F) (rest : Bytes)
      → Stops (
          write_members format indent_size indent false ms
          ++ (newline format indent_size close ++ (b'}' ∷ rest)))
  unfolding write_members
  Stops-members indent close no_members rest = Stops-newline close b'}' rest refl
  Stops-members indent close (member key v ms) rest = refl

  -- the space in front of an element is passed
  pub skip_to-Begins :
      (indent : ℕ) (text more rest : Bytes)
      → Begins text
      → skip_whitespace ((newline format indent_size indent ++ (text ++ more)) ++ rest)
        ≡ text ++ (more ++ rest)
  skip_to-Begins indent text more rest h =
      ap skip_whitespace (append_assoc (newline format indent_size indent) (text ++ more) rest)
      ∙ skip_whitespace-newline indent ((text ++ more) ++ rest)
      ∙ ap skip_whitespace (append_assoc text more rest)
      ∙ skip_whitespace-Begins (text ++ (more ++ rest)) (Begins-append text (more ++ rest) h)

  pub skip_to-close :
      (indent b : ℕ) (rest : Bytes)
      → begins b ≡ false
      → is_space b ≡ false
      → skip_whitespace ((newline format indent_size indent ++ (b ∷ [])) ++ rest) ≡ b ∷ rest
  unfolding skip_whitespace
  skip_to-close indent b rest h solid =
      ap skip_whitespace (append_assoc (newline format indent_size indent) (b ∷ []) rest)
      ∙ skip_whitespace-newline indent (b ∷ rest)
      ∙ rw (solid, skip_whitespace) refl
