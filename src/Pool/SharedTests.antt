-- ===== src/Pool/SharedTests.antt =====
-- The fallback pool and the adaptive pool at concrete buffers.
use http.Pool.Classes.{class_for_request}
use http.Pool.Adaptive.{AdaptiveBufferPool}
use http.Pool.RightSized.{
  take_buffer_lem, popped, take_buffer, Taken, recycle, recycle-IsValid, RightSizedPool,
}
use http.Pool.{pop_from, Buffer}
use http.Pool.Fixed
use http.Common.{◌≡◌, some, ℕ, ◌∷◌, [], arith}

abbrev large : Buffer
large = record { bytes = []; capacity = 20000 }

abbrev shared : RightSizedPool
shared = (recycle http.Pool.RightSized.new large).0

empty-IsValid : http.Pool.RightSized.IsValid http.Pool.RightSized.new
unfolding http.Pool.RightSized.new
empty-IsValid = ground arith

shared-IsValid : http.Pool.RightSized.IsValid shared
shared-IsValid = recycle-IsValid http.Pool.RightSized.new large empty-IsValid

take_buffer_lem_example :
    Taken 9000 (take_buffer shared 9000)
    × ((start : ℕ)
        → class_for_request 9000 ≡ some start
        → take_buffer shared 9000 ≡ popped shared (pop_from start shared))
take_buffer_lem_example = take_buffer_lem shared 9000 shared-IsValid

abbrev own : AdaptiveBufferPool
own = record {
  buffers = record { bytes = 1 ∷ []; capacity = 64 } ∷ [];
  max_buffers = 2;
  min_capacity = 64;
  max_retain_capacity = 256;
}

abbrev packets : http.Pool.Fixed.BufferPool
packets = record { buffers = []; buf_size = 2 }

abbrev short : Buffer
short = record { bytes = 1 ∷ []; capacity = 2 }
