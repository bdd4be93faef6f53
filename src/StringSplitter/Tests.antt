-- ===== src/StringSplitter/Tests.antt =====
-- A text with an empty field and one at its end.
use egl_utils_cpp.Prelude.{ℕ, ◌≡◌, List, [], ◌∷◌, arith}
use egl_utils_cpp.StringSplitter.{begin, tokens}
use egl_utils_cpp.StringSplitter.Laws.{join, AreFree, tokens-begin}

abbrev fields : List ℕ
fields = b'a' ∷ b',' ∷ b',' ∷ b'b' ∷ b',' ∷ []

abbrev comma : List ℕ
comma = b',' ∷ []

tokens-begin_example :
    (join comma (tokens 6 (begin fields comma)) ≡ fields)
    × AreFree comma (tokens 6 (begin fields comma))
tokens-begin_example = tokens-begin b',' [] fields (omega arith) 6 (omega arith)
