-- ===== src/Prelude/Texts.antt =====
-- Texts: a message is put together from its pieces.
use Prim.Native.String.{String, ◌++◌ as text_append}
use mathlib.Core.List.{List, [], ◌∷◌}

-- `format!`, with the pieces in the order in which they are printed.
unfoldable pub concat : List String → String
concat [] = ""
concat (piece ∷ pieces) = text_append piece (concat pieces)
