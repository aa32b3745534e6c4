-- ===== src/Manifests/Templates/Lines.antt =====
-- A text by its lines.
use tinycloud_platform.Base.{String, List, [], ◌∷◌, ◌++◌, Str, codes}

-- Lines of ASCII, each with its newline.
unfoldable pub text : List String → Str
text [] = []
text (l ∷ ls) = codes l ++ b'\n' ∷ text ls
