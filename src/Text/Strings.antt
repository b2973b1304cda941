-- ===== src/Text/Strings.antt =====
-- Text literals as lists of bytes.
use Prim.Native.Char.{code}
use Prim.Native.String.{String}
use dbgbus.Base.{ℕ, List, [], ◌∷◌}

abbrev pub codes : String → List ℕ
codes String.[] = []
codes (String.◌∷◌ c s) = code c ∷ codes s
