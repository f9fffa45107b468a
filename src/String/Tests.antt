-- ===== src/String/Tests.antt =====
-- Runs of include/stdromano/string.hpp at concrete strings.
use stdromano.Prelude.{ℕ, ◌*◌, ◌/◌, ◌≡◌, refl, true, false, List, [], ◌∷◌, none, some, inr, arith}
use stdromano.Json.Value.{Bytes}
use stdromano.String.Storage.{String, inserts, erase, npos, copy}
use stdromano.String.Contents.{IsString, IsText, HoldsText}
use stdromano.String.Views.{strip, find, is_digit}
use stdromano.String.Inserted.{inserts-IsString}
use stdromano.String.Erased.{erase-IsString}
use stdromano.String.Strip.{Stripped, strip-Stripped}
use stdromano.String.Search.{Search, find-Search}
use stdromano.String.Splits.{Parts, Joins, split-Joins}
use stdromano.String.Copies.{copy-IsString}
use stdromano.String.Codepoints.{decode, u8length, codepoints_lem}

-- the growth rate of 1.61
abbrev scaled : ℕ → ℕ
scaled n = n * 161 / 100

-- `a,b` in a local buffer of 7
abbrev listed : String
listed = record {
  cells = some b'a' ∷ some b',' ∷ some b'b' ∷ some 0 ∷ none ∷ none ∷ none ∷ none ∷ [];
  size = 3;
  capacity = 7;
  is_local = true;
  is_ref = false;
}

abbrev listed_text : Bytes
listed_text = b'a' ∷ b',' ∷ b'b' ∷ []

listed-IsString : IsString listed listed_text
listed-IsString = record {
  left = none ∷ none ∷ none ∷ none ∷ [];
  cells = refl;
  size = refl;
  capacity = refl;
  small = omega arith;
  owned = refl;
}

-- a buffer of 1 that is full, with a comma
abbrev comma : String
comma = record {
  cells = some b',' ∷ some 0 ∷ [];
  size = 1;
  capacity = 1;
  is_local = true;
  is_ref = false;
}

comma-IsString : IsString comma (b',' ∷ [])
comma-IsString = record {
  left = [];
  cells = refl;
  size = refl;
  capacity = refl;
  small = omega arith;
  owned = refl;
}

listed-IsText : IsText listed listed_text
listed-IsText = record { rest = some 0 ∷ none ∷ none ∷ none ∷ none ∷ []; cells = refl; size = refl }

-- `  a ` of which the last space is the end of the text
abbrev padded : String
padded = record {
  cells = some b' ' ∷ some b'a' ∷ some b' ' ∷ some b'!' ∷ [];
  size = 3;
  capacity = 3;
  is_local = false;
  is_ref = true;
}

padded-IsText : IsText padded (b' ' ∷ b'a' ∷ b' ' ∷ [])
padded-IsText = record { rest = some b'!' ∷ []; cells = refl; size = refl }

inserts-IsString_example :
    HoldsText (inserts scaled listed 1 padded) (b'a' ∷ b' ' ∷ b'a' ∷ b' ' ∷ b',' ∷ b'b' ∷ [])
inserts-IsString_example =
    inserts-IsString scaled listed padded (b'a' ∷ []) (b',' ∷ b'b' ∷ []) (b' ' ∷ b'a' ∷ b' ' ∷ [])
      listed-IsString padded-IsText (omega arith)

erase-IsString_example : HoldsText (erase listed 1 npos) (b'a' ∷ [])
erase-IsString_example =
    erase-IsString listed (b'a' ∷ []) (b',' ∷ b'b' ∷ []) [] npos listed-IsString (omega arith)
      (inr refl)

strip-Stripped_example : Stripped b' ' (strip padded b' ') (b' ' ∷ b'a' ∷ b' ' ∷ [])
strip-Stripped_example =
    strip-Stripped padded (b' ' ∷ b'a' ∷ b' ' ∷ []) b' ' padded-IsText (omega arith)

find-Search_example : Search (b',' ∷ []) listed_text (find listed comma)
find-Search_example =
    find-Search listed comma listed_text (b',' ∷ []) listed-IsString comma-IsString
      (refl, (refl, (refl, tt))) (refl, tt)

split-Joins_example : (ps : List Bytes) × Parts listed comma 0 ps × Joins (b',' ∷ []) ps listed_text
split-Joins_example =
    split-Joins listed comma listed_text b',' [] listed-IsString comma-IsString
      (refl, (refl, (refl, tt))) (refl, tt)

copy-IsString_example : HoldsText (copy 7 padded) (b' ' ∷ b'a' ∷ b' ' ∷ [])
copy-IsString_example =
    copy-IsString 7 padded (b' ' ∷ b'a' ∷ b' ' ∷ [])
      (inr (record { cell = some b'!'; rest = []; cells = refl; size = refl; refers = refl }))
      (omega arith) (omega arith)

-- a minus sign is taken for a digit
is_digit-minus : is_digit (record listed { cells = some b'-' ∷ some 0 ∷ []; size = 1 }) ≡ some true
unfolding is_digit
is_digit-minus = refl

-- `é` in front of `!`
abbrev accented : String
accented = record {
  cells = some 195 ∷ some 169 ∷ some b'!' ∷ some 0 ∷ [];
  size = 3;
  capacity = 3;
  is_local = true;
  is_ref = false;
}

codepoints_lem_example :
    (decode (some b'!' ∷ some 0 ∷ []) ≡ some b'!') × (u8length accented ≡ some 2)
codepoints_lem_example =
    codepoints_lem accented (233 ∷ []) [] b'!'
      (record { rest = some 0 ∷ []; cells = refl; size = refl }) (omega arith, (omega arith, tt))
