-- ===== src/Server/Tests.antt =====
-- A server with one connection over the quiche of H3Connection/SharedTests.
use http.ArcBuf.{unpooled, chunk_remaining_len, Chunk}
use http.Admission.{outbound_payload_units, AdmissionWatermarks}
use http.Common.{some, ◌≡◌, ◌||◌, ◌+◌, elem, none, true, false, refl, ℕ, ◌∷◌, [], arith}
use http.H3Connection.SharedTests.{toy, toy-SendsBody, connection}
use http.Server.Direct.{queue_stream_send, settled, queue_stream_send-dispatch}
use http.Server.Drains.{collect_from, drain_in, collect_from-drains}
use http.Server.Run.{flushing, sending, stop, then, command, Steps-Even, Even, admit_units}
use http.Server.Dispatch.{dispatch_command-Owes, lone_fin_leaks}
use http.Server.Flushed.{flush_all-Owes, Valid}
use http.Server.Reaped.{reap_lem, NoneOf, reset_in}
use http.Server.Ledger.{Owes}
use http.Server.Commands.{dispatch_command}
use http.Server.Flush.{flush_all_pending_writes, reap, streams_of, of_connection}
use http.Server.{
  event_drain, event_handle, Server, WorkerCommand, stream_send, worker_command_outbound_bytes,
}
use http.PendingWrite.{PendingWrite}

abbrev marks : AdmissionWatermarks
marks = record { high = 100; low = 50 }

abbrev five : Chunk
five = unpooled (1 ∷ 2 ∷ 3 ∷ 4 ∷ 5 ∷ [])

-- Nothing waits.
abbrev idle_server : Server toy
idle_server = record {
  connections = (0, connection) ∷ [];
  pending_writes = [];
  pending_responses = [];
  pending_session_closes = [];
  timer_heap = record { heap = []; deadlines = [] };
  last_expired = [];
  handle_offset = 0;
  admission = record { queued = 0; pressured = false };
}

-- A body of five bytes and a FIN on a stream that takes two bytes at a time.
abbrev send_five : WorkerCommand toy.Headers
send_five = stream_send 0 20 five true

abbrev sent_server : Server toy
sent_server = admit_units toy idle_server (worker_command_outbound_bytes send_five)

abbrev after_command : Server toy
after_command = (dispatch_command toy marks 0 sent_server send_five).0.0

abbrev after_flush : Server toy
after_flush = (flush_all_pending_writes toy marks after_command).0

Steps-Even_example : Even toy toy-SendsBody marks (after_flush, [])
Steps-Even_example =
    Steps-Even toy toy-SendsBody marks (idle_server, []) (after_flush, [])
      (then (idle_server, []) (sent_server, send_five ∷ []) (after_flush, [])
        (sending idle_server [] send_five)
        (then (sent_server, send_five ∷ []) (after_command, []) (after_flush, [])
          (command 0 sent_server [] send_five tt)
          (then (after_command, []) (after_flush, []) (after_flush, []) (flushing after_command [])
            (stop (after_flush, [])))))
      ((tt, tt), refl)

-- The command is admitted, and seven units of others are in the window.
abbrev admitted_server : Server toy
admitted_server = record idle_server { admission = record { queued = 12; pressured = false } }

five_units : Owes toy admitted_server (worker_command_outbound_bytes send_five + 7)
unfolding worker_command_outbound_bytes outbound_payload_units chunk_remaining_len
five_units = refl

dispatch_command-Owes_example :
    Owes toy (dispatch_command toy marks 0 admitted_server send_five).0.0 7
dispatch_command-Owes_example =
    dispatch_command-Owes toy toy-SendsBody marks 0 admitted_server send_five 7 tt five_units

abbrev waiting : PendingWrite
waiting = record {
  chunks = record { store = 1 ∷ 2 ∷ 3 ∷ []; pool = none; offset = 0; len = 3 } ∷ [];
  fin = false;
}

-- Three bytes wait on stream 20, and three units are in the window.
abbrev waiting_server : Server toy
waiting_server = record idle_server {
  pending_writes = ((0, 20), waiting) ∷ [];
  admission = record { queued = 3; pressured = false };
}

three_units : Owes toy waiting_server 0
unfolding outbound_payload_units
three_units = refl

flush_all-Owes_example :
    Owes toy (flush_all_pending_writes toy marks waiting_server).0 0
    × Valid toy (flush_all_pending_writes toy marks waiting_server).0
flush_all-Owes_example =
    flush_all-Owes toy toy-SendsBody marks waiting_server 0 ((tt, tt), tt) three_units

reap_lem_example :
    let (s', events) = reap toy marks waiting_server 0 in
    NoneOf toy marks 0 s'.pending_writes
    × NoneOf toy marks 0 s'.pending_responses
    × ((stream : ℕ)
        → (elem stream
              (streams_of toy marks (of_connection toy marks 0 waiting_server.pending_writes))
            || elem stream
                (streams_of toy marks (of_connection toy marks 0 waiting_server.pending_responses)))
          ≡ true
        → reset_in toy marks (event_handle toy waiting_server 0) stream events ≡ true)
reap_lem_example = reap_lem toy marks waiting_server 0

no_bytes : chunk_remaining_len (unpooled []) ≡ 0
unfolding chunk_remaining_len
no_bytes = refl

-- The window holds the three units of what waits and the one of the FIN.
abbrev fin_server : Server toy
fin_server = record waiting_server { admission = record { queued = 4; pressured = false } }

four_units : Owes toy fin_server (1 + 0)
unfolding outbound_payload_units
four_units = refl

lone_fin_leaks_example :
    let cmd : WorkerCommand toy.Headers = stream_send 0 20 (unpooled []) true in
    (worker_command_outbound_bytes cmd ≡ 1)
    × Owes toy (dispatch_command toy marks 0 fin_server cmd).0.0 (1 + 0)
lone_fin_leaks_example =
    lone_fin_leaks toy marks 0 0 20 fin_server (unpooled []) waiting 0 refl refl (ground arith)
      no_bytes four_units

-- A chunk behind the write that waits, by the direct call and by the command.
queue_stream_send-dispatch_example :
    settled toy marks (queue_stream_send toy marks waiting_server 0 20 five true)
    ≡ (dispatch_command toy marks 0 waiting_server send_five).0.0
queue_stream_send-dispatch_example =
    queue_stream_send-dispatch toy marks 0 waiting_server 0 20 five true refl

-- Streams 4, 8 and 12 of the connection are blocked, and stream 20 waits in the handler.
collect_from-drains_example :
    drain_in
      (event_handle toy waiting_server 0)
      20
      (collect_from toy waiting_server (event_drain 0 20 ∷ []) 0 (some connection)).1
    ≡ false
collect_from-drains_example =
    collect_from-drains toy waiting_server (event_drain 0 20 ∷ []) 0 20 connection refl refl
