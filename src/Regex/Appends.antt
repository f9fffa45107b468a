-- ===== src/Regex/Appends.antt =====
-- src/regex.cpp: what a method of `RegexCompiler` that succeeds does: it reads a stretch of the
-- pattern as a tree and appends the code of the tree. The items of the loops are kept as pending.
use stdromano.Prelude.{
  ℕ, ◌+◌, ◌≡◌, refl, sym, ap, ◌∙◌, List, [], ◌∷◌, ◌++◌, none, Bool, true, false, arith, length,
  get_elem?, length-append, append_assoc, append-nil, if◌then◌else◌,
}
use stdromano.Regex.Opcode.{Bytes, byte, emit_jump}
use stdromano.Regex.Syntax.{Fragment, code, size, length-code}
use stdromano.Regex.Compiler.{Compiler, Compiled, ok, failed, out_of_fuel, ◌>>=◌, link, resolve}
use stdromano.Regex.Emit.{join_op, chain, raw, links, positions, links, code-chain, patch_jumps-raw}
use stdromano.Regex.Reads.{
  concatenation, some_items, Sort, items, item, stops, item_start, Reads, last, more,
}
use stdromano.Regex.Scannable.{IsScannable, AllScannable, AllScannable-append, chain-IsScannable}

-- A success has read a stretch of the pattern as a tree, and appended the code of the tree to the
-- bytes.
pub data Appends (pattern : Bytes) (s : Sort) (p i : ℕ) (pre : Bytes) : Compiled → Type 0 where
  appended :
      {c : Compiler} (f : Fragment)
      → Reads pattern s p i f c.pos c.next_group_id
      → IsScannable f
      → c.bytecode ≡ pre ++ code f none
      → Appends pattern s p i pre (ok c)
  gave_up : {c : Compiler} → Appends pattern s p i pre (failed c)
  starved : Appends pattern s p i pre out_of_fuel

pub Appends-if :
    {pattern : Bytes} {s : Sort} {p i : ℕ} {pre : Bytes} (b : Bool) (x y : Compiled)
    → (b ≡ true → Appends pattern s p i pre x)
    → (b ≡ false → Appends pattern s p i pre y)
    → Appends pattern s p i pre (if b then x else y)
Appends-if true x y h k = h refl
Appends-if false x y h k = k refl

pub Reads-at :
    {pattern : Bytes} {s : Sort} {p i q j p' i' q' j' : ℕ} {f : Fragment}
    → p ≡ p'
    → i ≡ i'
    → q ≡ q'
    → j ≡ j'
    → Reads pattern s p i f q j
    → Reads pattern s p' i' f q' j'
Reads-at {pattern} {s} {p} {i} {q} {j} {p'} {i'} {q'} {j'} {f} a b c d h = rw (a, b, c, d) at h

pub Appends-from :
    {pattern : Bytes} {s : Sort} {p i i' : ℕ} {pre pre' : Bytes} {r : Compiled}
    → i ≡ i'
    → pre ≡ pre'
    → Appends pattern s p i pre r
    → Appends pattern s p i' pre' r
Appends-from {pattern} {s} {p} {i} {i'} {pre} {pre'} {r} e d h = rw (e, d) at h

-- what follows a success continues from it
pub Appends-bind :
    {pattern : Bytes} {s s' : Sort} {p i p' i' : ℕ} {pre pre' : Bytes} (r : Compiled)
    (k : Compiler → Compiled)
    → Appends pattern s p i pre r
    → ((c : Compiler) (f : Fragment)
        → Reads pattern s p i f c.pos c.next_group_id
        → IsScannable f
        → c.bytecode ≡ pre ++ code f none
        → Appends pattern s' p' i' pre' (k c))
    → Appends pattern s' p' i' pre' (r >>= k)
Appends-bind (ok c) k (appended f d i e) h = h c f d i e
Appends-bind (failed c) k a h = gave_up
Appends-bind out_of_fuel k a h = starved

raw-append :
    (b : Bool) (fs : List Fragment) (g : Fragment)
    → raw b (fs ++ g ∷ []) ≡ raw b fs ++ (byte (join_op b) ∷ 0 ∷ 0 ∷ 0 ∷ 0 ∷ code g none)
raw-append b [] g = simp append-nil
raw-append b (f ∷ fs) g = simp (raw-append b fs g, append_assoc)

positions-append :
    (b : Bool) (fs : List Fragment) (g : Fragment) (p : ℕ)
    → positions p (fs ++ g ∷ []) ≡ positions p fs ++ (p + length (raw b fs) + 1) ∷ []
positions-append b [] g p = let e : p + 0 ≡ p = omega arith in rw e
positions-append b (f ∷ fs) g p =
    let e : p + 5 + size f + length (raw b fs) + 1 ≡ p + length (raw b (f ∷ fs)) + 1 =
      omega (arith, length-append (code f none) (raw b fs), length-code f none) in
    ap (λ ps. (p + 1) ∷ ps) (positions-append b fs g (p + 5 + size f) ∙ rw e)

-- The items read so far, with the jumps between them unresolved. They make up the whole if the
-- items stop here, and otherwise do so with those that are still to come.
pub record Pending (pattern : Bytes) (b : Bool) (p i : ℕ) (pre : Bytes) (jumps : List ℕ)
    (c : Compiler) : Type 0 where
  pub first : Fragment
  pub others : List Fragment
  pub first_ok : IsScannable first
  pub others_ok : AllScannable others
  pub ready :
      stops b (get_elem? pattern c.pos) ≡ true
      → Reads pattern (items b) p i (chain b first others) c.pos c.next_group_id
  pub extended :
      (g : Fragment) (gs : List Fragment) (r k : ℕ)
      → stops b (get_elem? pattern c.pos) ≡ false
      → Reads pattern (items b) (item_start b c.pos) c.next_group_id (chain b g gs) r k
      → Reads pattern (items b) p i (chain b first (others ++ g ∷ gs)) r k
  pub emitted : c.bytecode ≡ pre ++ (code first none ++ raw b others)
  pub jumps_at : jumps ≡ positions (length pre + size first) others

pub resolve-Appends :
    {pattern : Bytes} {p₀ i₀ : ℕ} (b : Bool) (pre : Bytes) (jumps : List ℕ) (c : Compiler)
    → Pending pattern b p₀ i₀ pre jumps c
    → stops b (get_elem? pattern c.pos) ≡ true
    → Appends pattern (items b) p₀ i₀ pre (ok (resolve jumps c))
resolve-Appends b pre jumps c p stop =
    let cf = code p.first none in
    let q = length pre + size p.first in
    let e₁ : c.bytecode ≡ (pre ++ cf) ++ raw b p.others =
      p.emitted ∙ sym (append_assoc pre cf (raw b p.others)) in
    let e₂ : q ≡ length (pre ++ cf) =
      omega (arith, length-append pre cf, length-code p.first none) in
    let e₃ : length ((pre ++ cf) ++ raw b p.others) ≡ q + length (raw b p.others) =
      omega (arith, length-append (pre ++ cf) (raw b p.others)) in
    appended (chain b p.first p.others) (p.ready stop)
      (chain-IsScannable b p.first p.others p.first_ok p.others_ok)
      (rw (p.jumps_at, e₁)
        (patch_jumps-raw b p.others (pre ++ cf) q _ e₂ e₃
          ∙ append_assoc pre cf (links b p.others)
          ∙ rw (code-chain b p.first p.others)))

pub link-Pending :
    {pattern : Bytes} {p₀ i₀ : ℕ} (b : Bool) (pre : Bytes) (jumps : List ℕ) (c c₁ c' : Compiler)
    (g : Fragment)
    → c₁.bytecode ≡ c.bytecode
    → Pending pattern b p₀ i₀ pre jumps c
    → stops b (get_elem? pattern c.pos) ≡ false
    → Reads pattern (item b) (item_start b c.pos) c.next_group_id g c'.pos c'.next_group_id
    → IsScannable g
    → c'.bytecode ≡ (link false (join_op b) jumps c₁).0.bytecode ++ code g none
    → Pending pattern b p₀ i₀ pre (link false (join_op b) jumps c₁).1 c'
unfolding emit_jump
link-Pending b pre jumps c c₁ c' g same p go d i e = record {
  first = p.first;
  others = p.others ++ g ∷ [];
  first_ok = p.first_ok;
  others_ok = AllScannable-append p.others g p.others_ok i;
  ready = λ stop. p.extended g [] c'.pos c'.next_group_id go (last d stop);
  extended = λ h hs r k on rest.
      rw (append_assoc p.others (g ∷ []) (h ∷ hs)) (p.extended g (h ∷ hs) r k go (more d on rest));
  emitted = e ∙ rw (same, p.emitted, raw-append b p.others g) (simp append_assoc);
  jumps_at =
      let total : length c.bytecode ≡ length pre + size p.first + length (raw b p.others) =
        rw
          (
            p.emitted,
            length-append pre,
            length-append (code p.first none),
            length-code p.first none,
          )
          (omega arith) in
      rw (same, p.jumps_at, positions-append b p.others g (length pre + size p.first), total);
}

-- one item is pending
pub Pending-first :
    {pattern : Bytes} {p₀ i₀ : ℕ} (b : Bool) (pre : Bytes) (c : Compiler) (f : Fragment)
    → Reads pattern (item b) p₀ i₀ f c.pos c.next_group_id
    → IsScannable f
    → c.bytecode ≡ pre ++ code f none
    → Pending pattern b p₀ i₀ pre [] c
Pending-first b pre c f d i e = record {
  first = f;
  others = [];
  first_ok = i;
  others_ok = tt;
  ready = λ stop. last d stop;
  extended = λ g gs r k on rest. more d on rest;
  emitted = rw e (rw append-nil);
  jumps_at = refl;
}

-- a concatenation with items is a concatenation
pub Appends-some_items :
    {pattern : Bytes} {p i : ℕ} {pre : Bytes} {r : Compiled}
    → Appends pattern (items true) p i pre r
    → Appends pattern concatenation p i pre r
Appends-some_items (appended f d i e) = appended f (some_items d) i e
Appends-some_items gave_up = gave_up
Appends-some_items starved = starved
