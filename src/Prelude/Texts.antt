-- ===== src/Prelude/Texts.antt =====
-- Texts as lists of UTF-16 code units, with the comparisons and searches that the program makes.
use Prim.Native.Nat.{ℕ, ◌+◌}
use Prim.Native.Char.{code}
use Prim.Native.String.{String}
use mathlib.Core.Path.{◌≡◌, refl, subst}
use mathlib.Core.Logic.{◌↔◌}
use mathlib.Core.Bool.{Bool, true, false, ◌&&◌, ◌||◌}
use mathlib.Core.List.{List, [], ◌∷◌}
use native.Mathlib.Omega.{arith}
use homey_shs_enhanced.Prelude.Tests.{leb, ◌==◌, if◌then◌else◌}

abbrev pub Text : Type 0
Text = List ℕ

-- The code units of an ASCII literal.
unfoldable pub text : String → Text
text String.[] = []
text (String.◌∷◌ c s) = code c ∷ text s

-- `a === b` on texts.
unfoldable pub text_eq : Text → Text → Bool
text_eq [] [] = true
text_eq [] (_ ∷ _) = false
text_eq (_ ∷ _) [] = false
text_eq (a ∷ s) (b ∷ t) = (a == b) && text_eq s t

pub text_eq_refl : (s : Text) → text_eq s s ≡ true
unfolding text_eq
text_eq_refl [] = refl
text_eq_refl (a ∷ s) = ground (arith, text_eq_refl s)

pub text_eq_sound : (s t : Text) → text_eq s t ≡ true → s ≡ t
unfolding text_eq
text_eq_sound [] [] h = refl
text_eq_sound [] (_ ∷ _) h = cc
text_eq_sound (_ ∷ _) [] h = cc
text_eq_sound (a ∷ s) (b ∷ t) h = ground (arith, text_eq_sound s t)

-- One ASCII letter in lower case; a code unit above 127 has no ASCII letter as its case partner in
-- a regular expression without the flag `u`.
unfoldable pub to_lower : ℕ → ℕ
to_lower c = if leb b'A' c && leb c b'Z' then c + 32 else c

-- `s` begins with `p`, up to `eq`.
unfoldable pub starts_by : (ℕ → ℕ → Bool) → Text → Text → Bool
starts_by eq [] s = true
starts_by eq (_ ∷ _) [] = false
starts_by eq (a ∷ p) (b ∷ s) = eq a b && starts_by eq p s

unfoldable pub contains_by : (ℕ → ℕ → Bool) → Text → Text → Bool
unfolding starts_by
contains_by eq p [] = starts_by eq p []
contains_by eq p (b ∷ s) = starts_by eq p (b ∷ s) || contains_by eq p s

abbrev pub eq_exact : ℕ → ℕ → Bool
eq_exact a b = a == b

-- Equality under the flag `i`.
unfoldable pub eq_fold : ℕ → ℕ → Bool
unfolding to_lower
eq_fold a b = to_lower a == to_lower b

-- `/p/.test(s)` for a pattern of plain characters, and `/p/i.test(s)`.
unfoldable pub contains : Text → Text → Bool
unfolding contains_by
contains p s = contains_by eq_exact p s

unfoldable pub contains_fold : Text → Text → Bool
unfolding contains_by eq_fold
contains_fold p s = contains_by eq_fold p s

pub text_eq_iff : (s t : Text) → (text_eq s t ≡ true) ↔ (s ≡ t)
text_eq_iff s t = (text_eq_sound s t, λ e. subst (λ u. text_eq s u ≡ true) e (text_eq_refl s))
