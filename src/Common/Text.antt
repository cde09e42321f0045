-- ===== src/Common/Text.antt =====
-- What the program uses of Python's `str`: `strip`, `lower`, `split`, `in` and slices from the
-- start. White space is Python's; `lower` changes the ASCII letters only.
use Prim.Native.Char.{Char, code}
use Prim.Native.Nat.{ℕ, zero, suc}
use Prim.Native.String
use Prim.Native.String.{String}
use Prim.Native.String.append
use mathlib.Core.Path.{◌≡◌, refl, sym, ap, ◌∙◌}
use mathlib.Core.Bool.{Bool, true, false, ◌&&◌, ◌||◌, not}
use mathlib.Core.Option.{Option, some, none}
use mathlib.Core.List.{List, [], ◌∷◌}
use native.Mathlib.Omega.{arith}
use mathlib.Core.Logic.{inl, inr}
use text.Mathlib.Text.{◌==◌}
use text.Mathlib.TextEquality.{eq_iff}
use coreline_auth_module.Common.Tests.{leb, eqb, Bool-cases, if◌then◌else◌}

-- `str.isspace` of one character.
abbrev pub is_space : ℕ → Bool
is_space c =
    leb 9 c && leb c 13
    || leb 28 c && leb c 32
    || eqb c 133
    || eqb c 160
    || eqb c 5760
    || leb 8192 c && leb c 8202
    || eqb c 8232
    || eqb c 8233
    || eqb c 8239
    || eqb c 8287
    || eqb c 12288

unfoldable pub lstrip : String → String
lstrip String.[] = String.[]
lstrip (String.◌∷◌ c s) = let rest = lstrip s in if is_space (code c) then rest else String.◌∷◌ c s

unfoldable pub rstrip : String → String
rstrip String.[] = String.[]
rstrip (String.◌∷◌ c s) =
    let rest = rstrip s in if is_space (code c) && rest == "" then String.[] else String.◌∷◌ c rest

unfoldable pub strip : String → String
unfolding lstrip rstrip
strip s = rstrip (lstrip s)

-- The character at the place in `to` where `c` stands in `from`.
translate : String → String → Char → Char
translate String.[] to c = c
translate (String.◌∷◌ a from) String.[] c = c
translate (String.◌∷◌ a from) (String.◌∷◌ b to) c =
    let rest = translate from to c in if eqb (code a) (code c) then b else rest

unfoldable pub lower : String → String
unfolding translate
lower String.[] = String.[]
lower (String.◌∷◌ c s) =
    String.◌∷◌ (translate "ABCDEFGHIJKLMNOPQRSTUVWXYZ" "abcdefghijklmnopqrstuvwxyz" c) (lower s)

-- Puts a character in front of the first part.
abbrev extend : Char → List String → List String
extend c [] = (String.◌∷◌ c String.[]) ∷ []
extend c (p ∷ ps) = (String.◌∷◌ c p) ∷ ps

-- `s.split(sep)` for a separator of one character.
unfoldable pub split : ℕ → String → List String
split sep String.[] = String.[] ∷ []
split sep (String.◌∷◌ c s) =
    let rest = split sep s in if eqb (code c) sep then String.[] ∷ rest else extend c rest

-- `s.partition(sep)` for a separator of one character: the text before it, and the text after it
-- if it is there.
unfoldable pub partition : ℕ → String → String × Option String
partition sep String.[] = (String.[], none)
partition sep (String.◌∷◌ c s) =
    let (before, after) = partition sep s in
    if eqb (code c) sep then (String.[], some s) else (String.◌∷◌ c before, after)

-- `sep not in s`
unfoldable pub lacks : ℕ → String → Bool
lacks sep String.[] = true
lacks sep (String.◌∷◌ c s) = not (eqb (code c) sep) && lacks sep s

unfoldable pub is_prefix : String → String → Bool
is_prefix String.[] s = true
is_prefix (String.◌∷◌ a t) String.[] = false
is_prefix (String.◌∷◌ a t) (String.◌∷◌ c s) = eqb (code a) (code c) && is_prefix t s

-- `t in s`
unfoldable pub occurs_in : String → String → Bool
unfolding is_prefix
occurs_in t String.[] = t == ""
occurs_in t (String.◌∷◌ c s) = is_prefix t (String.◌∷◌ c s) || occurs_in t s

-- `s.endswith(t)`
unfoldable pub is_suffix : String → String → Bool
is_suffix t String.[] = t == ""
is_suffix t (String.◌∷◌ c s) = t == String.◌∷◌ c s || is_suffix t s

-- `s[:n]`
unfoldable pub slice_to : ℕ → String → String
slice_to zero s = String.[]
slice_to (suc n) String.[] = String.[]
slice_to (suc n) (String.◌∷◌ c s) = String.◌∷◌ c (slice_to n s)

-- Splitting a text without the separator.
pub split-lacks : (sep : ℕ) (s : String) → lacks sep s ≡ true → split sep s ≡ s ∷ []
unfolding split lacks
split-lacks sep String.[] h = refl
split-lacks sep (String.◌∷◌ c s) h = ground (arith, split-lacks sep s)

-- Splitting after a part without the separator.
pub split-append :
    (sep : ℕ) (s : String) (c : Char) (t : String)
    → lacks sep s ≡ true
    → eqb (code c) sep ≡ true
    → split sep (String.◌++◌ s (String.◌∷◌ c t)) ≡ s ∷ split sep t
unfolding split lacks
split-append sep String.[] c t h e = rw (append.nil (String.◌∷◌ c t)) (ground arith)
split-append sep (String.◌∷◌ d s) c t h e =
    rw (append.cons d s (String.◌∷◌ c t)) (ground (arith, split-append sep s c t))

-- A text is cut at the first separator.
pub partition-append :
    (sep : ℕ) (s : String) (c : Char) (t : String)
    → lacks sep s ≡ true
    → eqb (code c) sep ≡ true
    → partition sep (String.◌++◌ s (String.◌∷◌ c t)) ≡ (s, some t)
unfolding partition lacks
partition-append sep String.[] c t h e = rw (append.nil (String.◌∷◌ c t)) (ground arith)
partition-append sep (String.◌∷◌ d s) c t h e =
    rw (append.cons d s (String.◌∷◌ c t)) (ground (arith, partition-append sep s c t))

-- A text that ends with another is some text followed by it.
pub is_suffix-append : (t s : String) → is_suffix t s ≡ true → (p : String) × (s ≡ String.◌++◌ p t)
unfolding is_suffix
is_suffix-append t String.[] h = ("", rw ((eq_iff t "").0 h) (sym (append.nil "")))
is_suffix-append t (String.◌∷◌ c s) h = elim (Bool-cases (t == String.◌∷◌ c s)) [
  | inl same ↦ ("", sym (append.nil t ∙ (eq_iff t (String.◌∷◌ c s)).0 same))
  | inr more ↦
      let (p, e) = is_suffix-append t s (ground (arith, h, more)) in
      (String.◌∷◌ c p, ap (String.◌∷◌ c) e ∙ sym (append.cons c p t))
]

split_three : split 58 "a:b:c" ≡ "a" ∷ "b" ∷ "c" ∷ []
unfolding split
split_three = refl

lower-strip : lower (strip "  A@b.C ") ≡ "a@b.c"
unfolding lower strip
lower-strip = refl

-- A text with a character in front is not empty.
pub append-text : (s t : String) → not (s == "") ≡ true → not (String.◌++◌ s t == "") ≡ true
append-text String.[] t h = absurd (ground (arith, h, eq_iff "" ""))
append-text (String.◌∷◌ c s) t h = elim (Bool-cases (String.◌++◌ (String.◌∷◌ c s) t == "")) [
  | inl e ↦ absurd (
      no_text c (String.◌++◌ s t)
        (sym (append.cons c s t) ∙ (eq_iff (String.◌++◌ (String.◌∷◌ c s) t) "").0 e))
  | inr e ↦ rw e refl
]
  where
    is_cons : String → Bool
    is_cons String.[] = false
    is_cons (String.◌∷◌ _ _) = true

    no_text : (c : Char) (s : String) → String.◌∷◌ c s ≡ "" → ⊥
    no_text c s e = ground (arith, ap is_cons e)
