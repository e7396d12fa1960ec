-- ===== src/Prelude/Text.antt =====
-- Python's text operations on ASCII texts: `lower`, `upper`, `strip`, `startswith` and `in`, over
-- the code points of a text.
use Prim.Native.Nat.{ℕ, ◌+◌, ◌-◌, compare, Ordering}
use Prim.Native.Char.{code}
use Prim.Native.String.{String}
use mathlib.Core.Bool.{Bool, true, false, ◌&&◌, ◌||◌}
use mathlib.Core.List.{List, [], ◌∷◌, map}
use epiphany_executor.Prelude.Tests.{leb, if◌then◌else◌}

abbrev pub codes : String → List ℕ
codes String.[] = []
codes (String.◌∷◌ c s) = code c ∷ codes s

abbrev pub eqb : ℕ → ℕ → Bool
eqb a b = elim (compare a b) [ Ordering.eq ↦ true | _ ↦ false ]

abbrev pub to_lower : ℕ → ℕ
to_lower c = if leb b'A' c && leb c b'Z' then c + 32 else c

abbrev pub to_upper : ℕ → ℕ
to_upper c = if leb b'a' c && leb c b'z' then c - 32 else c

-- `s.lower()` and `s.upper()`
unfoldable pub lower : List ℕ → List ℕ
lower s = map to_lower s

unfoldable pub upper : List ℕ → List ℕ
upper s = map to_upper s

-- the ASCII white space of `str.strip` and of `\s`
abbrev pub is_space : ℕ → Bool
is_space c = eqb c 32 || (leb 9 c && leb c 13) || (leb 28 c && leb c 31)

-- `s.lstrip()`
unfoldable pub lstrip : List ℕ → List ℕ
lstrip [] = []
lstrip (c ∷ s) = let rest = lstrip s in if is_space c then rest else c ∷ s

-- `s.rstrip()`: white space is dropped where nothing is left behind it.
abbrev pub rstrip_cons : ℕ → List ℕ → List ℕ
rstrip_cons c [] = if is_space c then [] else c ∷ []
rstrip_cons c (d ∷ rest) = c ∷ d ∷ rest

unfoldable pub rstrip : List ℕ → List ℕ
rstrip [] = []
rstrip (c ∷ s) = rstrip_cons c (rstrip s)

-- `s.strip()`
unfoldable pub strip : List ℕ → List ℕ
unfolding lstrip rstrip
strip s = rstrip (lstrip s)

-- `s.startswith(m)`
unfoldable pub starts_with : List ℕ → List ℕ → Bool
starts_with s [] = true
starts_with [] (d ∷ m) = false
starts_with (c ∷ s) (d ∷ m) = eqb c d && starts_with s m

-- `m in s`
unfoldable pub contains : List ℕ → List ℕ → Bool
unfolding starts_with
contains m [] = starts_with [] m
contains m (c ∷ s) = starts_with (c ∷ s) m || contains m s

-- `s == t`
unfoldable pub same_text : List ℕ → List ℕ → Bool
same_text [] [] = true
same_text [] (d ∷ t) = false
same_text (c ∷ s) [] = false
same_text (c ∷ s) (d ∷ t) = eqb c d && same_text s t
