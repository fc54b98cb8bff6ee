-- ===== src/ArcBuf/Tests.antt =====
-- A window over three bytes of five.
use http.ArcBuf.Window.{split_at-SplitsAt, SplitsAt}
use http.ArcBuf.{split_at, ArcBuf}
use http.Common.{ℕ, List, none, ◌∷◌, [], arith}

abbrev window : ArcBuf
window = record { store = 1 ∷ 2 ∷ 3 ∷ 4 ∷ 5 ∷ []; pool = none; offset = 2; len = 3 }

abbrev front : List ℕ
front = 8 ∷ 9 ∷ []

split_at-SplitsAt_example : SplitsAt window 1 (split_at window 1)
split_at-SplitsAt_example = split_at-SplitsAt window 1 (omega arith)
