-- ===== src/Server/Run.antt =====
-- The life of the HTTP/3 server handler of src/worker.rs with respect to the write admission: the
-- event loop of src/event_loop.rs dispatches commands, flushes what waits and removes the closed
-- connections, in any order.
use http.Server.Reaped.{reap_closed-Owes}
use http.Server.Validity.{reap_closed-Valid, dispatch_command-Valid}
use http.Server.Ledger.{Owes}
use http.Server.Flushed.{flush_all-Owes, Valid}
use http.Admission.{AdmissionWatermarks}
use http.H3Connection.{SendsBody, H3Api}
use http.Common.{◌≡◌, [], ◌∷◌, ◌++◌, List, arith, ◌+◌, ℕ}
use http.Server.Dispatch.{dispatch_command-Owes, Fresh}
use http.Server.Commands.{dispatch_command}
use http.Server.Flush.{flush_all_pending_writes, reap_closed_connections}
use http.Server.{Server, WorkerCommand, worker_command_outbound_bytes}

-- A writer admits the units of a command before it sends it.
abbrev pub admit_units : (api : H3Api) → Server api → ℕ → Server api
admit_units api s units = record s {
  admission = record s.admission { queued = s.admission.queued + units };
}

-- The handler and the commands in its channel, in order.
abbrev pub Running : H3Api → Type 0
Running api = Server api × List (WorkerCommand api.Headers)

-- `Step api m r r'`: a writer sends a command, or one turn of the handler.
pub data Step (api : H3Api) (m : AdmissionWatermarks) : Running api → Running api → Type 0 where
  sending :
      (s : Server api) (queue : List (WorkerCommand api.Headers)) (cmd : WorkerCommand api.Headers)
      → Step api m
          (s, queue)
          (admit_units api s (worker_command_outbound_bytes cmd), queue ++ (cmd ∷ []))
  command :
      (now : ℕ) (s : Server api) (queue : List (WorkerCommand api.Headers))
      (cmd : WorkerCommand api.Headers)
      → Fresh api s cmd
      → Step api m (s, cmd ∷ queue) ((dispatch_command api m now s cmd).0.0, queue)
  flushing :
      (s : Server api) (queue : List (WorkerCommand api.Headers))
      → Step api m (s, queue) ((flush_all_pending_writes api m s).0, queue)
  reaping :
      (s : Server api) (queue : List (WorkerCommand api.Headers))
      → Step api m (s, queue) ((reap_closed_connections api m s).0, queue)

pub data Steps (api : H3Api) (m : AdmissionWatermarks) : Running api → Running api → Type 0 where
  stop : (r : Running api) → Steps api m r r
  then : (r r' r'' : Running api) → Step api m r r' → Steps api m r' r'' → Steps api m r r''

-- The units of the commands in the channel.
abbrev pub in_flight : {Headers : Type 0} → List (WorkerCommand Headers) → ℕ
in_flight [] = 0
in_flight (cmd ∷ queue) = worker_command_outbound_bytes cmd + in_flight queue

in_flight-append :
    {Headers : Type 0} (queue : List (WorkerCommand Headers)) (cmd : WorkerCommand Headers)
    → in_flight (queue ++ (cmd ∷ [])) ≡ in_flight queue + worker_command_outbound_bytes cmd
in_flight-append [] cmd = omega arith
in_flight-append (c ∷ queue) cmd = omega (arith, in_flight-append queue cmd)

module _ (api : H3Api) (sends_body : SendsBody api) (m : AdmissionWatermarks) where
  -- What waits is well formed, and the window holds exactly its units and those of the channel.
  abbrev pub Even : Running api → Type 0
  Even r = Valid api r.0 × Owes api r.0 (in_flight r.1)

  Step-Even : (r r' : Running api) → Step api m r r' → Even r → Even r'
  Step-Even _ _ (sending s queue cmd) (v, h) = (v, omega (arith, h, in_flight-append queue cmd))
  Step-Even _ _ (command now s queue cmd f) (v, h) = (
    dispatch_command-Valid api m now s cmd v,
    dispatch_command-Owes api sends_body m now s cmd (in_flight queue) f h,
  )
  Step-Even _ _ (flushing s queue) (v, h) =
      let (owes, valid) = flush_all-Owes api sends_body m s (in_flight queue) v h in (valid, owes)
  Step-Even _ _ (reaping s queue) (v, h) =
      (reap_closed-Valid api m s v, reap_closed-Owes api m s (in_flight queue) h)

  -- However the writers' commands and the handler's turns follow each other, the admission window
  -- holds exactly the units of what waits for a stream and of the commands in the channel, if it did
  -- at the start, each command finds its stream fresh when it is dispatched, and quiche leaves the
  -- unwritten part of a buffer after a partial write and the whole buffer after `Done`: no unit is
  -- lost or released twice, and when nothing waits and the channel is empty, so is the window.
  pub Steps-Even : (r r' : Running api) → Steps api m r r' → Even r → Even r'
  Steps-Even _ _ (stop r) e = e
  Steps-Even _ _ (then r r' r'' a rest) e = Steps-Even r' r'' rest (Step-Even r r' a e)
