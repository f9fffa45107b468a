-- ===== src/Regex/Bounds.antt =====
-- The position of a match stays within the text and never goes back.
use stdromano.Prelude.{
  ℕ, zero, suc, ◌≤◌, ◌≡◌, refl, [], ◌∷◌, none, Bool, true, false, arith, length, get_elem?,
}
use stdromano.Regex.Opcode.{Bytes}
use stdromano.Regex.Syntax.{Fragment, empty, test, class, group, seq, alt, opt, star, plus}
use stdromano.Regex.Semantics.{
  State, Result, done, abort, unfinished, and_then, accepts, accepts_one, consume, repeat, eval,
}

get_elem?-past : (xs : Bytes) (i : ℕ) → length xs ≤ i → get_elem? xs i ≡ none
get_elem?-past [] i h = refl
get_elem?-past (x ∷ xs) zero h = absurd (omega arith)
get_elem?-past (x ∷ xs) (suc i) h = get_elem?-past xs i (omega arith)

module _ (str : Bytes) where
  -- the position of a result lies between `lo` and the end of the text
  abbrev pub Within : ℕ → Result → Type 0
  Within lo (done s) = (lo ≤ s.sp) × (s.sp ≤ length str)
  Within lo (abort s) = (lo ≤ s.sp) × (s.sp ≤ length str)
  Within lo unfinished = Unit

  Within-le : (lo lo' : ℕ) (r : Result) → lo ≤ lo' → Within lo' r → Within lo r
  Within-le lo lo' (done s) h w = omega arith
  Within-le lo lo' (abort s) h w = omega arith
  Within-le lo lo' unfinished h w = tt

  Within-and_then :
      (lo : ℕ) (r : Result) (k : State → Result)
      → Within lo r
      → ((s : State) → s.sp ≤ length str → Within s.sp (k s))
      → Within lo (and_then r k)
  Within-and_then lo (done s) k w h = Within-le lo s.sp (k s) w.0 (h s w.1)
  Within-and_then lo (abort s) k w h = w
  Within-and_then lo unfinished k w h = tt

  Within-flag :
      (b : Bool) (lo : ℕ) (x y : Result)
      → Within lo x
      → Within lo y
      → Within lo (elim b [ true ↦ x | false ↦ y ])
  Within-flag true lo x y h k = h
  Within-flag false lo x y h k = k

  consume-Within :
      (pass : ℕ → Bool) (s : State) → s.sp ≤ length str → Within s.sp (done (consume str pass s))
  unfolding consume
  consume-Within pass s h = (ground arith, ground (arith, get_elem?-past str s.sp))

  repeat-Within :
      (body : State → Result)
      → ((s : State) → s.sp ≤ length str → Within s.sp (body s))
      → (n : ℕ) (s : State) → s.sp ≤ length str
      → Within s.sp (repeat n body s)
  unfolding repeat
  repeat-Within body h zero s k = tt
  repeat-Within body h (suc n) s k =
      Within-and_then s.sp (body s) _ (h s k)
        (λ s' k'. Within-flag s'.status_flag s'.sp _ _ (repeat-Within body h n s' k') (omega arith))

  -- Matching moves the position forward only, and not past the end of the text.
  pub eval-Within :
      (n : ℕ) (f : Fragment) (s : State) → s.sp ≤ length str → Within s.sp (eval str n f s)
  unfolding eval
  eval-Within n empty s h = omega arith
  eval-Within n (test t) s h = consume-Within (accepts t) s h
  eval-Within n (class ts) s h = consume-Within (accepts_one ts) s h
  eval-Within n (group id f) s h =
      Within-and_then s.sp (eval str n f _) _ (eval-Within n f _ h) (λ s' k. omega arith)
  eval-Within n (seq f g) s h =
      Within-and_then s.sp (eval str n f s) _ (eval-Within n f s h)
        (λ s' k. Within-flag s'.status_flag s'.sp _ _ (eval-Within n g s' k) (omega arith))
  eval-Within n (alt f g) s h =
      Within-and_then s.sp (eval str n f s) _ (eval-Within n f s h)
        (λ s' k. Within-flag s'.status_flag s'.sp _ _ (omega arith) (eval-Within n g s' k))
  eval-Within n (opt f) s h =
      Within-and_then s.sp (eval str n f s) _ (eval-Within n f s h) (λ s' k. omega arith)
  eval-Within n (star f) s h = repeat-Within (eval str n f) (λ s' k. eval-Within n f s' k) n s h
  eval-Within n (plus f) s h =
      Within-and_then s.sp (eval str n f s) _ (eval-Within n f s h) (λ s' k.
        Within-flag s'.status_flag s'.sp _ _
          (repeat-Within (eval str n f) (λ u k'. eval-Within n f u k') n s' k) (omega arith))
