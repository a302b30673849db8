-- ===== src/Base/Paths.antt =====
-- The parts of pathlib that the program uses: a path as its parts, its suffix, and texts as lists
-- of code points for them.
use Prim.Native.Nat.{ℕ}
use Prim.Native.Char.{code}
use Prim.Native.String.{String}
use mathlib.Core.Bool.{Bool, false}
use mathlib.Core.List.{List, [], ◌∷◌, ◌++◌}
use mathlib.Core.Option.{Option, none, some}
use mathlib.Core.Path.{◌≡◌, refl}
use fleet_lambda_platform.Base.Tests.{eqb, if◌then◌else◌}
use fleet_lambda_platform.Base.Equality.{◌==◌, string_eq, nat_eq, list_eq}

abbrev pub codes : String → List ℕ
codes String.[] = []
codes (String.◌∷◌ c s) = code c ∷ codes s

-- A path as pathlib parses it: the root part is told apart, the others are texts.
pub record PurePath : Type 0 where
  pub absolute : Bool
  pub parts : List String

-- the last of some parts; no parts have the empty name
unfoldable pub file_name : List String → String
file_name [] = ""
file_name (p ∷ []) = p
file_name (p ∷ q ∷ ps) = file_name (q ∷ ps)

-- name[name.rfind("."):], if there is a dot
unfoldable pub from_last_dot : List ℕ → Option (List ℕ)
from_last_dot [] = none
from_last_dot (c ∷ cs) = elim (from_last_dot cs) [
  | some s ↦ some s
  | none ↦ if eqb c b'.' then some (c ∷ cs) else none
]

-- a dot in the last place begins no suffix
abbrev pub dotted : Option (List ℕ) → List ℕ
dotted none = []
dotted (some []) = []
dotted (some (d ∷ [])) = []
dotted (some (d ∷ c ∷ cs)) = d ∷ c ∷ cs

-- `PurePath.suffix`: a dot in the first place of the name begins no suffix either
unfoldable pub suffix_of : List ℕ → List ℕ
unfolding from_last_dot
suffix_of [] = []
suffix_of (c ∷ cs) = dotted (from_last_dot cs)

unfoldable pub suffix : PurePath → List ℕ
unfolding suffix_of file_name
suffix p = suffix_of (codes (file_name p.parts))

-- s.lstrip(".")
unfoldable pub lstrip_dots : List ℕ → List ℕ
lstrip_dots [] = []
lstrip_dots (c ∷ cs) = if eqb c b'.' then lstrip_dots cs else c ∷ cs

-- root / relative, for a relative path
abbrev pub join : PurePath → PurePath → PurePath
join root p = record { absolute = root.absolute; parts = root.parts ++ p.parts }

-- parts[len(root.parts):], if the path begins with the root's parts
unfoldable pub strip_parts : List String → List String → Option (List String)
strip_parts [] ps = some ps
strip_parts (r ∷ rs) [] = none
strip_parts (r ∷ rs) (p ∷ ps) = let rest = strip_parts rs ps in if r == p then rest else none

suffix_of_report :
    suffix (record { absolute = false; parts = "a" ∷ "r.tmp.json" ∷ [] }) ≡ codes ".json"
unfolding suffix
suffix_of_report = refl

suffix_of_hidden : suffix (record { absolute = false; parts = ".json" ∷ [] }) ≡ []
unfolding suffix
suffix_of_hidden = refl
