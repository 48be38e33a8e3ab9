-- ===== src/Util/Tests.antt =====
-- The theorem on `chunk` at a concrete input.
use intempt_python.Prelude.{ℕ, List, [], ◌∷◌, ◌≡◌, arith}
use intempt_python.Python.Float.{pos}
use intempt_python.Python.Result.{ok}
use intempt_python.Util.{chunk}
use intempt_python.Util.Chunk.{concat, IsCut, chunk_lem}

abbrev seven : List ℕ
seven = 1 ∷ 2 ∷ 3 ∷ 4 ∷ 5 ∷ 6 ∷ 7 ∷ []

chunk_lem_example :
    (groups : List (List ℕ)) × (chunk seven (pos 3) ≡ ok groups)
    × (concat groups ≡ seven)
    × IsCut 3 groups
chunk_lem_example = chunk_lem seven 3 (omega arith)
