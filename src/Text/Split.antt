-- ===== src/Text/Split.antt =====
-- `str.split`: with a separator of one character, with one cut, and at white space.
use backup_center_ajust_cons.Base.{ℕ, List, [], ◌∷◌, ◌++◌, Option, none, some, ◌==◌, if◌then◌else◌}
use backup_center_ajust_cons.Text.{Text, is_space}
use mathlib.Core.Option

abbrev pub cons_head : ℕ → List Text → List Text
cons_head c [] = (c ∷ []) ∷ []
cons_head c (t ∷ ts) = (c ∷ t) ∷ ts

-- `s.split(sep)`: the parts between the separators, one more than there are separators
unfoldable pub split_on : ℕ → Text → List Text
split_on sep [] = [] ∷ []
split_on sep (c ∷ s) = let rest = split_on sep s in if c == sep then [] ∷ rest else cons_head c rest

-- `s.split(sep, 1)` of a text that holds the separator; none otherwise
unfoldable pub split_once : ℕ → Text → Option (Text × Text)
split_once sep [] = none
split_once sep (c ∷ s) =
    let rest = Option.map (λ (p : Text × Text). (c ∷ p.0, p.1)) (split_once sep s) in
    if c == sep then some ([], s) else rest

-- The text, split at each white space, with the empty words between two of them.
abbrev split_space : Text → List Text
split_space [] = [] ∷ []
split_space (c ∷ s) = let rest = split_space s in if is_space c then [] ∷ rest else cons_head c rest

abbrev drop_empty : List Text → List Text
drop_empty [] = []
drop_empty ([] ∷ ts) = drop_empty ts
drop_empty ((c ∷ t) ∷ ts) = (c ∷ t) ∷ drop_empty ts

-- `s.split()`: the words
unfoldable pub words : Text → List Text
words s = drop_empty (split_space s)

-- `" ".join(ts)`
unfoldable pub unwords : List Text → Text
unwords [] = []
unwords (t ∷ []) = t
unwords (t ∷ u ∷ ts) = t ++ 32 ∷ unwords (u ∷ ts)
