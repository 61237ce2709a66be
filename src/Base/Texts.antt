-- ===== src/Base/Texts.antt =====
-- Texts, as Python's `str`.
use Prim.Native.String.{String}

-- `s + t`
unfoldable pub concat : String → String → String
concat String.[] t = t
concat (String.◌∷◌ c s) t = String.◌∷◌ c (concat s t)
