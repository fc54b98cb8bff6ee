-- ===== src/Receive/Tests.antt =====
-- A buffer of 100 bytes, 30 of them filled.
use http.Receive.{RecvBufModel}

abbrev partial : RecvBufModel
partial = record { initialized_len = 30; target_len = 100 }
