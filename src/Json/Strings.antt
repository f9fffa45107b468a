-- ===== src/Json/Strings.antt =====
-- src/json.cpp: a string that `write_str` writes is read back by `parse_string`.
use stdromano.Prelude.{
  ℕ, suc, ◌+◌, ◌==◌, ◌≤◌, ◌≡◌, ◌≢◌, refl, sym, ap, ◌∙◌, Bool, true, false, leb, if◌then◌else◌, ◌&&◌,
  ◌||◌, not, [], ◌∷◌, ◌++◌, length, take, arith, Bool-cases, inl, inr, append_assoc, append-nil,
}
use stdromano.Json.Value.{Bytes}
use stdromano.Json.Parser.{ok, scan, push, decode, unescape, parse_string}
use stdromano.Json.Writer.{char_needs_escape, escape_char, write_segments, write_str}

-- a byte of a C string that is printable or has an escape of its own
abbrev pub is_text : ℕ → Bool
is_text c = not (c == 0) && (char_needs_escape c || leb 32 c)

abbrev pub IsText : Bytes → Type 0
IsText [] = Unit
IsText (c ∷ cs) = (is_text c ≡ true) × IsText cs

-- what the segments come to
abbrev pub escape : Bytes → Bytes
escape [] = []
escape (c ∷ cs) = if char_needs_escape c then b'\\' ∷ escape_char c ∷ escape cs else c ∷ escape cs

abbrev pub has_escape : Bytes → Bool
has_escape [] = false
has_escape (c ∷ cs) = char_needs_escape c || has_escape cs

write_segments-escape :
    (segment s : Bytes) → IsText s → write_segments segment s ≡ segment ++ escape s
unfolding write_segments
write_segments-escape segment [] h = sym (append-nil segment)
write_segments-escape segment (c ∷ cs) h =
    let nonzero : (c == 0) ≡ false = ground arith in
    elim (Bool-cases (char_needs_escape c)) [
      | inl escaped ↦
          rw (nonzero, escaped, write_segments) (rw (write_segments-escape [] cs h.1) refl)
      | inr plain ↦
          rw (nonzero, plain, write_segments)
            (write_segments-escape (segment ++ (c ∷ [])) cs h.1
              ∙ append_assoc segment (c ∷ []) (escape cs))
    ]

scan_quote :
    (rest : Bytes)
    → scan 0 (b'"' ∷ rest) ≡ ok (record { raw = []; slen = 0; has_escape = false }) (b'"' ∷ rest)
unfolding scan
scan_quote [] = refl
scan_quote (d ∷ ds) = refl

scan_plain :
    (c : ℕ) (ds : Bytes)
    → char_needs_escape c ≡ false
    → 32 ≤ c
    → ds ≢ []
    → scan 0 (c ∷ ds) ≡ push (c ∷ []) 1 false (scan 0 ds)
unfolding scan
scan_plain c [] h g e = absurd (e refl)
scan_plain c (d ∷ ds) h g e = ground arith

scan_escape :
    (c : ℕ) (ds : Bytes)
    → char_needs_escape c ≡ true
    → scan 0 (b'\\' ∷ escape_char c ∷ ds) ≡ push (b'\\' ∷ escape_char c ∷ []) 1 true (scan 0 ds)
unfolding scan
scan_escape c ds h = ground arith

unescape-escape_char : (c : ℕ) → char_needs_escape c ≡ true → unescape (escape_char c) ≡ c
unescape-escape_char c h = ground arith

append_quote : (s rest : Bytes) → s ++ (b'"' ∷ rest) ≢ []
append_quote [] rest = cc
append_quote (c ∷ cs) rest = cc

one_more : (n : ℕ) → 1 + n ≡ suc n
one_more n = omega arith

scan-escape :
    (s rest : Bytes)
    → IsText s
    → scan 0 (escape s ++ (b'"' ∷ rest))
      ≡ ok (record { raw = escape s; slen = length s; has_escape = has_escape s }) (b'"' ∷ rest)
scan-escape [] rest h = scan_quote rest
scan-escape (c ∷ cs) rest h = elim (Bool-cases (char_needs_escape c)) [
  | inl escaped ↦ rw escaped (
      scan_escape c (escape cs ++ (b'"' ∷ rest)) escaped
      ∙ ap (push (b'\\' ∷ escape_char c ∷ []) 1 true) (scan-escape cs rest h.1)
      ∙ rw (one_more (length cs)) refl)
  | inr plain ↦ rw plain (
      scan_plain c (escape cs ++ (b'"' ∷ rest)) plain (ground arith) (append_quote (escape cs) rest)
      ∙ ap (push (c ∷ []) 1 false) (scan-escape cs rest h.1)
      ∙ rw (one_more (length cs)) refl)
]

decode_plain : (c : ℕ) (ds : Bytes) → (c == b'\\') ≡ false → decode 0 (c ∷ ds) ≡ c ∷ decode 0 ds
unfolding decode
decode_plain c [] h = rw h refl
decode_plain c (d ∷ ds) h = rw (h, decode) refl

decode_escape :
    (c : ℕ) (ds : Bytes)
    → char_needs_escape c ≡ true
    → decode 0 (b'\\' ∷ escape_char c ∷ ds) ≡ c ∷ decode 0 ds
unfolding decode
decode_escape c ds h =
    let back = unescape-escape_char c h in
    let other : (escape_char c == b'u') ≡ false = ground arith in rw (other, decode) (rw back refl)

decode-escape : (s : Bytes) → decode 0 (escape s) ≡ s
unfolding decode
decode-escape [] = refl
decode-escape (c ∷ cs) = elim (Bool-cases (char_needs_escape c)) [
  | inl escaped ↦
      rw escaped (decode_escape c (escape cs) escaped ∙ ap (λ ds. c ∷ ds) (decode-escape cs))
  | inr plain ↦
      rw plain (decode_plain c (escape cs) (ground arith) ∙ ap (λ ds. c ∷ ds) (decode-escape cs))
]

escape_same : (s : Bytes) → has_escape s ≡ false → escape s ≡ s
escape_same [] h = refl
escape_same (c ∷ cs) h =
    let plain : char_needs_escape c ≡ false = ground arith in
    rw plain (ap (λ ds. c ∷ ds) (escape_same cs (ground arith)))

take_all : (s : Bytes) → take (length s) s ≡ s
take_all [] = refl
take_all (c ∷ cs) = ap (λ ds. c ∷ ds) (take_all cs)

-- A string that `write_str` writes is read back, whatever stands behind it, if each of its bytes is
-- printable or has an escape of its own.
pub parse_string-write_str :
    (s rest : Bytes) → IsText s → parse_string (write_str s ++ rest) ≡ ok s rest
unfolding parse_string write_str
parse_string-write_str s rest h =
    rw (write_segments-escape [] s h, append_assoc (escape s) (b'"' ∷ []) rest)
      (rw (scan-escape s rest h) (elim (Bool-cases (has_escape s)) [
        | inl some_escape ↦ rw (some_escape, decode-escape s) refl
        | inr no_escape ↦ rw (no_escape, escape_same s no_escape, take_all s) refl
      ]))
