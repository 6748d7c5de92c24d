-- ===== src/Wire/Row.antt =====
-- `splitWireRow` of adapters/cuttledb.js. The loop over `i` is a recursion on the text from `i`.
pub mod Spelling
pub mod RoundTrip
use cuttle_db.Prelude.{ℕ, true, false, List, [], ◌∷◌, ◌++◌, ◌==◌, if◌then◌else◌, Text}

-- The code unit that `\esc` stands for.
unfoldable pub unescape : ℕ → ℕ
unescape esc = if esc == b'r' then b'\r' else if esc == b'n' then b'\n' else esc

-- The push after the loop.
abbrev finish : List Text → Text → List Text
finish out cur = out ++ cur ∷ []

-- A backslash at the very end escapes nothing and is kept.
unfoldable pub row_loop : Text → List Text → Text → List Text
unfolding unescape
row_loop [] out cur = finish out cur
row_loop (c ∷ []) out cur =
    if c == b',' then finish (out ++ cur ∷ []) [] else finish out (cur ++ c ∷ [])
row_loop (c ∷ esc ∷ s) out cur = elim (c == b'\\') [
  | true ↦ row_loop s out (cur ++ unescape esc ∷ [])
  | false ↦ elim (c == b',') [
    | true ↦ row_loop (esc ∷ s) (out ++ cur ∷ []) []
    | false ↦ row_loop (esc ∷ s) out (cur ++ c ∷ [])
  ]
]

unfoldable pub split_wire_row : Text → List Text
unfolding row_loop
split_wire_row s = row_loop s [] []
