-- ===== src/Prelude/Text.antt =====
-- Texts as lists of code points, with the string operations that the source uses.
use Prim.Native.Char.{code}
use Prim.Native.String.{String}
use Prim.Native.Nat.{ℕ, zero, suc}
use mathlib.Core.Path.{◌≡◌, refl}
use mathlib.Core.Logic.{◌↔◌}
use mathlib.Core.Bool.{Bool, true, false, ◌&&◌, ◌||◌}
use mathlib.Core.List.{List, [], ◌∷◌}
use native.Mathlib.Omega.{arith}
use resellerbot.Prelude.Tests.{◌==◌, leb, if◌then◌else◌}

abbrev pub Text : Type 0
Text = List ℕ

-- The code points of a literal.
abbrev pub codes : String → Text
codes String.[] = []
codes (String.◌∷◌ c s) = code c ∷ codes s

unfoldable pub text_eq : Text → Text → Bool
text_eq [] [] = true
text_eq [] (_ ∷ _) = false
text_eq (_ ∷ _) [] = false
text_eq (a ∷ s) (b ∷ t) = a == b && text_eq s t

pub text_eq_refl : (s : Text) → text_eq s s ≡ true
unfolding text_eq
text_eq_refl [] = refl
text_eq_refl (a ∷ s) = ground (arith, text_eq_refl s)

pub eq_of_text_eq : (s t : Text) → text_eq s t ≡ true → s ≡ t
unfolding text_eq
eq_of_text_eq [] [] h = refl
eq_of_text_eq [] (b ∷ t) h = cc
eq_of_text_eq (a ∷ s) [] h = cc
eq_of_text_eq (a ∷ s) (b ∷ t) h = ground (arith, eq_of_text_eq s t)

pub text_eq_iff : (s t : Text) → (text_eq s t ≡ true) ↔ (s ≡ t)
text_eq_iff s t = (eq_of_text_eq s t, λ e. ground (arith, text_eq_refl s))

-- The characters that `str.strip` removes.
abbrev is_space : ℕ → Bool
is_space c =
    (leb 9 c && leb c 13)
    || ((leb 28 c && leb c 32)
        || ((c == 0x85 || c == 0xa0)
            || ((c == 0x1680 || (leb 0x2000 c && leb c 0x200a))
                || ((c == 0x2028 || c == 0x2029)
                    || (c == 0x202f || (c == 0x205f || c == 0x3000))))))

abbrev lstrip : Text → Text
lstrip [] = []
lstrip (c ∷ s) = let rest = lstrip s in if is_space c then rest else c ∷ s

abbrev pub is_blank : Text → Bool
is_blank [] = true
is_blank (c ∷ s) = is_space c && is_blank s

abbrev rstrip : Text → Text
rstrip [] = []
rstrip (c ∷ s) = if is_space c && is_blank s then [] else c ∷ rstrip s

-- `s.strip()`
unfoldable pub strip : Text → Text
strip s = rstrip (lstrip s)

-- `s[:n]`
abbrev pub take_text : ℕ → Text → Text
take_text zero s = []
take_text (suc n) [] = []
take_text (suc n) (c ∷ s) = c ∷ take_text n s

-- `s.startswith(t)`
abbrev pub starts_with : Text → Text → Bool
starts_with s [] = true
starts_with [] (b ∷ t) = false
starts_with (a ∷ s) (b ∷ t) = a == b && starts_with s t

-- `t in s`
abbrev pub contains_text : Text → Text → Bool
contains_text [] t = starts_with [] t
contains_text (a ∷ s) t = starts_with (a ∷ s) t || contains_text s t

-- `s.rstrip(c)`, of one character.
abbrev pub rstrip_char : ℕ → Text → Text
rstrip_char c [] = []
rstrip_char c (a ∷ s) =
    let rest = rstrip_char c s in
    elim rest [ [] ↦ (if a == c then [] else a ∷ []) | b ∷ t ↦ a ∷ b ∷ t ]

-- `s in texts`
abbrev pub member : Text → List Text → Bool
member s [] = false
member s (t ∷ ts) = if text_eq s t then true else member s ts
