-- ===== src/Pool/Tests.antt =====
-- The pools at concrete buffers, with an allocator that gives what is asked for.
use http.Pool.ChunkPool.{new, checkin, ChunkPool}
use http.Pool.ChunkPool.Checkout.{IsValid, new-IsValid, checkin-IsValid}
use http.Pool.{Buffer}
use http.Common.{ℕ, List, ◌∷◌, []}

abbrev buffer : Buffer
buffer = record { bytes = 1 ∷ 2 ∷ []; capacity = 5000 }

abbrev chunk_pool : ChunkPool
chunk_pool = (checkin (new 4) buffer).0

chunk_pool-IsValid : IsValid chunk_pool
chunk_pool-IsValid = checkin-IsValid (new 4) buffer (new-IsValid 4)

abbrev slice : List ℕ
slice = 7 ∷ 8 ∷ []
