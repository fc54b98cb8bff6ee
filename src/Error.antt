-- ===== src/Error.antt =====
-- src/error.rs: the error type of the crate. Errors of quiche and of the operating system are
-- opaque codes; an `errno` is the code that the system reports.
use Prim.Native.Nat.{ℕ}
use Prim.Native.String.{String}
use http.Common.{Option}

pub data Http3NativeError : Type 0 where
  quiche : ℕ → Http3NativeError
  h3 : ℕ → Http3NativeError
  io : ℕ → Http3NativeError
  fast_path_unavailable : String → String → Option ℕ → ℕ → Http3NativeError
  runtime_io : String → String → Option ℕ → String → ℕ → Http3NativeError
  invalid_state : String → Http3NativeError
  config : String → Http3NativeError
  connection_not_found : ℕ → Http3NativeError
