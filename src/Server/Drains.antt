-- ===== src/Server/Drains.antt =====
-- `collect_drain_events` of src/worker.rs, and the drain events that it holds back.
use http.PendingWrite.{is_nil}
use http.Common.{
  Bool-cases, ==_iff, ◌∙◌, not, ap₂, elem, ◌++◌, find, ◌||◌, ◌&&◌, ◌≡◌, Option, is_some,
  if◌then◌else◌, ◌==◌, List, Bool, inl, inr, none, some, true, false, ℕ, ◌∷◌, [], arith,
}
use http.Server.{
  Server, ServerEvent, event_blocked, event_drain, event_reset, event_error, event_session_close,
  write_ready, reply, same_key, event_handle, connection_of, set_connection,
}
use http.H3Connection.Polls.{
  poll_drain_events, PollEvent, stream_reset, stream_drain, stream_failed,
}
use http.H3Connection.{H3Api, Http3}

-- A drain event of a connection's stream that the test picks.
abbrev pub is_suppressed : ℕ → (ℕ → Bool) → ServerEvent → Bool
is_suppressed conn has_pending (event_drain c stream) = (c == conn) && has_pending stream
is_suppressed conn has_pending (event_blocked c stream) = false
is_suppressed conn has_pending (event_reset c stream code) = false
is_suppressed conn has_pending (event_error c stream) = false
is_suppressed conn has_pending (event_session_close c) = false
is_suppressed conn has_pending write_ready = false
is_suppressed conn has_pending (reply b) = false

-- `batch.retain(…)`
unfoldable pub suppress_pending_drains : List ServerEvent → ℕ → (ℕ → Bool) → List ServerEvent
suppress_pending_drains [] conn has_pending = []
suppress_pending_drains (e ∷ batch) conn has_pending =
    let rest = suppress_pending_drains batch conn has_pending in
    if is_suppressed conn has_pending e then rest else e ∷ rest

-- What the connection's poll pushes.
abbrev pub server_events : ℕ → List PollEvent → List ServerEvent
server_events conn [] = []
server_events conn (stream_reset id code ∷ es) = event_reset conn id code ∷ server_events conn es
server_events conn (stream_drain id ∷ es) = event_drain conn id ∷ server_events conn es
server_events conn (stream_failed id ∷ es) = event_error conn id ∷ server_events conn es

-- The batch tells of capacity for a stream.
abbrev pub drain_in : ℕ → ℕ → List ServerEvent → Bool
drain_in c k [] = false
drain_in c k (e ∷ es) = is_suppressed c (λ stream. stream == k) e || drain_in c k es

module _ (api : H3Api) where
  -- Something waits in the handler for a stream of the connection.
  abbrev pub has_pending : Server api → ℕ → ℕ → Bool
  has_pending s handle stream =
      is_some (find same_key (handle, stream) s.pending_writes)
      || is_some (find same_key (handle, stream) s.pending_responses)

  abbrev pub Collected : Type 0
  Collected = Server api × List ServerEvent

  -- One connection, unless its timer has just run.
  abbrev pub collect_from : Server api → List ServerEvent → ℕ → Option (Http3 api) → Collected
  collect_from s batch handle none = (s, batch)
  collect_from s batch handle (some c) =
      let (c', events) = poll_drain_events api c in
      let conn = event_handle api s handle in
      if is_nil c.blocked.set then (s, batch) else (
        set_connection api s handle c',
        suppress_pending_drains (batch ++ server_events conn events) conn (has_pending s handle),
      )

  abbrev pub collect_drain_loop : Server api → List ServerEvent → List ℕ → Collected
  collect_drain_loop s batch [] = (s, batch)
  collect_drain_loop s batch (handle ∷ handles) =
      let (s', batch') =
        if elem handle s.last_expired
        then (s, batch)
        else collect_from s batch handle (connection_of api s handle) in
      collect_drain_loop s' batch' handles

  abbrev pub handles_of : List (ℕ × Http3 api) → List ℕ
  handles_of [] = []
  handles_of ((handle, c) ∷ rest) = handle ∷ handles_of rest

  unfoldable pub collect_drain_events : Server api → List ServerEvent → Collected
  collect_drain_events s batch = collect_drain_loop s batch (handles_of s.connections)

suppressed_one :
    (c k conn : ℕ) (has_pending : ℕ → Bool) (e : ServerEvent)
    → is_suppressed c (λ stream. stream == k) e ≡ true
    → is_suppressed conn has_pending e ≡ ((c == conn) && has_pending k)
suppressed_one c k conn p (event_drain a stream) h =
    ap₂ (λ x y. (x == conn) && p y) ((==_iff a c).0 (ground (arith, h)))
      ((==_iff stream k).0 (ground (arith, h)))
suppressed_one c k conn p (event_blocked a stream) h = absurd (ground (arith, h))
suppressed_one c k conn p (event_reset a stream code) h = absurd (ground (arith, h))
suppressed_one c k conn p (event_error a stream) h = absurd (ground (arith, h))
suppressed_one c k conn p (event_session_close a) h = absurd (ground (arith, h))
suppressed_one c k conn p write_ready h = absurd (ground (arith, h))
suppressed_one c k conn p (reply b) h = absurd (ground (arith, h))

-- Exactly the drain events of the connection's streams for which something waits are taken out of the
-- batch.
pub suppress_pending_drains_lem :
    (batch : List ServerEvent) (conn : ℕ) (has_pending : ℕ → Bool) (c k : ℕ)
    → drain_in c k (suppress_pending_drains batch conn has_pending)
      ≡ (drain_in c k batch && not ((c == conn) && has_pending k))
unfolding suppress_pending_drains
suppress_pending_drains_lem [] conn p c k = ground arith
suppress_pending_drains_lem (e ∷ batch) conn p c k = elim (Bool-cases (is_suppressed conn p e)) [
  | inl s ↦
      rw s (
        ground
          (arith, s, suppressed_one c k conn p e, suppress_pending_drains_lem batch conn p c k))
  | inr s ↦
      rw s (
        ground
          (arith, s, suppressed_one c k conn p e, suppress_pending_drains_lem batch conn p c k))
]

-- After a connection was polled, the batch tells of capacity for none of its streams on which
-- something waits in the handler.
pub collect_from-drains :
    (api : H3Api) (s : Server api) (batch : List ServerEvent) (handle stream : ℕ) (c : Http3 api)
    → is_nil c.blocked.set ≡ false
    → has_pending api s handle stream ≡ true
    → drain_in (event_handle api s handle) stream (collect_from api s batch handle (some c)).1
      ≡ false
collect_from-drains api s batch handle stream c n p =
    let conn = event_handle api s handle in
    rw n (
      suppress_pending_drains_lem (batch ++ server_events conn (poll_drain_events api c).1) conn
        (has_pending api s handle) conn stream
      ∙ rw p (ground arith))
