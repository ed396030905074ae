-- ===== src/Base/Strings.antt =====
-- Go strings: byte sequences, as lists of numbers.
use Prim.Native.Char.{code}
use Prim.Native.String.{String}
use Prim.Native.Nat.{ℕ}
use mathlib.Core.Path.{◌≡◌, refl}
use mathlib.Core.Logic.{◌↔◌}
use mathlib.Core.Bool.{Bool, true, false, ◌&&◌, ◌||◌}
use mathlib.Core.Option.{Option, none, some}
use mathlib.Core.List.{List, [], ◌∷◌, ◌++◌, reverse, reverse-append, reverse-reverse}
use native.Mathlib.Omega.{arith}
use billtracker_plugin.Base.Lists.{All, All-append}
use billtracker_plugin.Base.Tests.{◌==◌, if◌then◌else◌}

abbrev pub Bytes : Type 0
Bytes = List ℕ

-- The code points of a literal; these are its bytes when the text is ASCII.
abbrev pub codes : String → Bytes
codes String.[] = []
codes (String.◌∷◌ c s) = code c ∷ codes s

-- `a == b` on strings.
unfoldable pub same : Bytes → Bytes → Bool
same [] [] = true
same [] (b ∷ bs) = false
same (a ∷ as') [] = false
same (a ∷ as') (b ∷ bs) = a == b && same as' bs

pub same_sound : (a b : Bytes) → same a b ≡ true → a ≡ b
unfolding same
same_sound [] [] h = refl
same_sound [] (b ∷ bs) h = cc
same_sound (a ∷ as') [] h = cc
same_sound (a ∷ as') (b ∷ bs) h = ground (arith, same_sound as' bs)

pub same_refl : (a : Bytes) → same a a ≡ true
unfolding same
same_refl [] = refl
same_refl (a ∷ as') = ground (arith, same_refl as')

pub same_iff : (a b : Bytes) → (same a b ≡ true) ↔ (a ≡ b)
same_iff a b = (same_sound a b, λ e. rw e (same_refl b))

abbrev pub is_empty : Bytes → Bool
is_empty [] = true
is_empty (b ∷ bs) = false

-- The ASCII bytes that `unicode.IsSpace` holds of.
abbrev pub is_space : ℕ → Bool
is_space c = c == 32 || c == 9 || c == 10 || c == 11 || c == 12 || c == 13

unfoldable pub trim_left : Bytes → Bytes
trim_left [] = []
trim_left (c ∷ s) = let rest = trim_left s in if is_space c then rest else c ∷ s

-- `strings.TrimSpace`.
unfoldable pub trim_space : Bytes → Bytes
unfolding trim_left
trim_space s = reverse (trim_left (reverse (trim_left s)))

-- `strings.CutPrefix(s, prefix)`; `none` where `s` does not begin with it.
unfoldable pub cut_prefix : Bytes → Bytes → Option Bytes
cut_prefix s [] = some s
cut_prefix [] (p ∷ ps) = none
cut_prefix (c ∷ s) (p ∷ ps) = let rest = cut_prefix s ps in if c == p then rest else none

pub cut_prefix-append : (p s : Bytes) → cut_prefix (p ++ s) p ≡ some s
unfolding cut_prefix
cut_prefix-append [] s = refl
cut_prefix-append (c ∷ p) s = ground (arith, cut_prefix-append p s)

pub cut_prefix_sound : (s p r : Bytes) → cut_prefix s p ≡ some r → s ≡ p ++ r
unfolding cut_prefix
cut_prefix_sound s [] r h = cc
cut_prefix_sound [] (c ∷ p) r h = cc
cut_prefix_sound (b ∷ s) (c ∷ p) r h = ground (arith, cut_prefix_sound s p r)

-- Whether a cut was made, and left just that text.
abbrev pub is_rest : Bytes → Option Bytes → Bool
is_rest text none = false
is_rest text (some rest) = same rest text

pub is_rest-cut_prefix : (p s text : Bytes) → is_rest text (cut_prefix s p) ≡ same s (p ++ text)
unfolding cut_prefix same
is_rest-cut_prefix [] s text = refl
is_rest-cut_prefix (c ∷ p) [] text = refl
is_rest-cut_prefix (c ∷ p) (b ∷ s) text = ground (arith, is_rest-cut_prefix p s text)

trim_left-All : (s : Bytes) → All (λ b. is_space b ≡ false) s → trim_left s ≡ s
unfolding trim_left
trim_left-All [] h = refl
trim_left-All (c ∷ s) h = rw h.0

All-reverse :
    (s : Bytes) → All (λ b. is_space b ≡ false) s → All (λ b. is_space b ≡ false) (reverse s)
All-reverse [] h = tt
All-reverse (c ∷ s) h =
    rw (reverse-append (c ∷ []) s)
      (All-append (λ b. is_space b ≡ false) (reverse s) (c ∷ []) (All-reverse s h.1) (h.0, tt))

-- Text without spaces is left as it is.
pub trim_space-All : (s : Bytes) → All (λ b. is_space b ≡ false) s → trim_space s ≡ s
unfolding trim_space
trim_space-All s h =
    rw (trim_left-All s h, trim_left-All (reverse s) (All-reverse s h)) (reverse-reverse s)
