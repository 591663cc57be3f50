-- ===== src/Base/Text.antt =====
-- Text as code points, and decided equality of whole texts.
use Prim.Native.Nat.{ℕ}
use Prim.Native.Char.{code}
use Prim.Native.String.{String}
use mathlib.Core.Path.{◌≡◌, refl}
use mathlib.Core.Bool.{Bool, true, false}
use mathlib.Core.List.{List, [], ◌∷◌}
use native.Mathlib.Omega.{arith}
use text.Mathlib.Text.{◌==◌ as str_eq}
use text.Mathlib.TextEquality.{eq_iff}

-- The code points of a text: its bytes, if it is ASCII.
abbrev pub codes : String → List ℕ
codes String.[] = []
codes (String.◌∷◌ c s) = code c ∷ codes s

decide_text : (s t : String) (b : Bool) → str_eq s t ≡ b → Dec (s ≡ t)
decide_text s t true e = yes ((eq_iff s t).0 e)
decide_text s t false e = no λ p. ground (arith, eq_iff s t)

unfoldable pub string_discrete : Discrete String
unfolding decide_text
string_discrete s t = decide_text s t (str_eq s t) refl

abbrev pub same : String → String → Bool
same s t = elim (string_discrete s t) [ yes _ ↦ true | no _ ↦ false ]

pub same_iff : (s t : String) → same s t ≡ true → s ≡ t
same_iff s t h = ground arith

pub same_self : (s : String) → same s s ≡ true
same_self s = ground arith
