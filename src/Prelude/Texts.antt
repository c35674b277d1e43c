-- ===== src/Prelude/Texts.antt =====
-- Texts as lists of code points, and Python's `str` methods over them. The tables of Unicode, for
-- `lower` and `isspace`, are an argument.
use Prim.Native.Nat.{ℕ}
use Prim.Native.Char.{code}
use Prim.Native.String.{String}
use mathlib.Core.Path.{◌≡◌, refl}
use mathlib.Core.Logic.{◌↔◌}
use mathlib.Core.Bool.{Bool, true, false, ◌&&◌, ◌||◌}
use mathlib.Core.List.{List, [], ◌∷◌, reverse}
use native.Mathlib.Omega.{arith}
use mnemo_api.Prelude.Tests.{◌==◌, if◌then◌else◌}

abbrev pub Text : Type 0
Text = List ℕ

-- The code points of a literal.
abbrev pub codes : String → Text
codes String.[] = []
codes (String.◌∷◌ c s) = code c ∷ codes s

unfoldable pub text_eq : Text → Text → Bool
text_eq [] [] = true
text_eq [] (_ ∷ _) = false
text_eq (_ ∷ _) [] = false
text_eq (a ∷ s) (b ∷ t) = (a == b) && text_eq s t

pub text_eq_refl : (s : Text) → text_eq s s ≡ true
unfolding text_eq
text_eq_refl [] = refl
text_eq_refl (a ∷ s) = ground (arith, text_eq_refl s)

pub text_eq→eq : (s t : Text) → text_eq s t ≡ true → s ≡ t
unfolding text_eq
text_eq→eq [] [] h = refl
text_eq→eq [] (b ∷ t) h = ground arith
text_eq→eq (a ∷ s) [] h = ground arith
text_eq→eq (a ∷ s) (b ∷ t) h = ground (arith, text_eq→eq s t)

pub text_eq_iff : (s t : Text) → (text_eq s t ≡ true) ↔ (s ≡ t)
text_eq_iff s t = (text_eq→eq s t, λ e. rw e (text_eq_refl t))

unfoldable pub contains : Text → List Text → Bool
contains w [] = false
contains w (v ∷ vs) = text_eq w v || contains w vs

-- What `str.lower` and `str.isspace` take from the Unicode database.
pub record Unicode : Type 0 where
  pub lower : Text → Text
  pub is_space : ℕ → Bool

-- White space in front.
unfoldable pub drop_space : Unicode → Text → Text
drop_space u [] = []
drop_space u (c ∷ s) = let rest = drop_space u s in if u.is_space c then rest else c ∷ s

-- `str.strip()`
unfoldable pub strip : Unicode → Text → Text
strip u s = reverse (drop_space u (reverse (drop_space u s)))
