-- ===== src/Prelude/Texts.antt =====
-- Texts as lists of code points, with Python's `str.strip` as far as the code uses it: whether
-- nothing is left.
use Prim.Native.Nat.{ℕ, ◌+◌}
use mathlib.Core.Bool.{Bool, true, false, ◌&&◌, ◌||◌}
use mathlib.Core.List.{List, [], ◌∷◌}
use native.Mathlib.Decide.{ℕ_discrete}
use gnomon.Prelude.Tests.{leb, ◌==◌, if◌then◌else◌}
use gnomon.Prelude.Lists.{all, elem}

abbrev pub Text : Type 0
Text = List ℕ

-- The code points for which `str.isspace` holds.
unfoldable pub is_space : ℕ → Bool
is_space c =
    leb 9 c && leb c 13
    || leb 28 c && leb c 32
    || leb 8192 c && leb c 8202
    || elem c (133 ∷ 160 ∷ 5760 ∷ 8232 ∷ 8233 ∷ 8239 ∷ 8287 ∷ 12288 ∷ [])

-- `not text.strip()`
unfoldable pub is_blank : Text → Bool
unfolding is_space
is_blank t = all is_space t

unfoldable pub Text-discrete : Discrete Text
Text-discrete = hlevel ℕ_discrete

-- Python's order of strings, by code points.
abbrev pub text_leb : Text → Text → Bool
text_leb [] u = true
text_leb (c ∷ t) [] = false
text_leb (c ∷ t) (d ∷ u) = leb (c + 1) d || c == d && text_leb t u

abbrev pub insert_text : Text → List Text → List Text
insert_text t [] = t ∷ []
insert_text t (u ∷ texts) =
    let rest = insert_text t texts in if text_leb t u then t ∷ u ∷ texts else u ∷ rest

-- `sorted` on strings.
unfoldable pub sort_texts : List Text → List Text
sort_texts [] = []
sort_texts (t ∷ texts) = insert_text t (sort_texts texts)
