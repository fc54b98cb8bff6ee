-- ===== src/Server/Ledger.antt =====
-- The units that the HTTP/3 server handler of src/worker.rs owes the write admission.
use http.ArcBuf.{ArcBuf}
use http.QuicConnection.Send.{Exact, ExactReply}
use http.Error.{Http3NativeError}
use http.PendingWrite.Response.{PendingResponse}
use http.Admission.Gate.Release.{release_alone-queued}
use http.Admission.{
  accepted_outbound_payload_units, outbound_payload_units, release_next, AdmissionWatermarks,
}
use http.Admission.Gate.{running, releases, admits, Reply, Pc, Gate, release_alone}
use http.Common.{
  some, [], err, false, ◌≤◌, ok, Option, units_of, total-put, Result, find, Bool, none, ◌∙◌, ap,
  ◌-◌, refl, ◌+◌, total, ◌≡◌, true, ℕ, arith,
}
use http.Server.Commands.{after_body, keep_remainder}
use http.Server.{
  set_connection, and_then, insert_pending_write, insert_pending_response,
  emit_h3_send_error_and_reset, Pushed, release_units, replied, release_outbound_admission,
  response_units, Server, StreamKey, same_key,
}
use http.H3Connection.{Http3, H3Api}
use http.PendingWrite.{SendOutcome, PendingWrite, queued_units}

-- One key equals itself.
pub same_key_refl : (k : StreamKey) → same_key k k ≡ true
same_key_refl (conn, stream) = ground arith

-- The units of a send that took everything, and of one that left a rest.
all_taken :
    (len : ℕ) (fin : Bool) (written : ℕ) (fin_accepted : Bool)
    → len ≤ written
    → fin_accepted ≡ fin
    → accepted_outbound_payload_units len fin written fin_accepted ≡ outbound_payload_units len fin
unfolding accepted_outbound_payload_units outbound_payload_units
all_taken len fin written fin_accepted h e = ground (arith, h, e)

part_taken :
    (len : ℕ) (fin : Bool) (written : ℕ) (fin_accepted : Bool) (left : ℕ)
    → written + left ≡ len
    → (left ≡ 0 → len ≡ 0)
    → fin_accepted ≡ false
    → accepted_outbound_payload_units len fin written fin_accepted
        + outbound_payload_units (left + 0) fin
      ≡ outbound_payload_units len fin
unfolding accepted_outbound_payload_units outbound_payload_units
part_taken len fin written fin_accepted left h z e = ground (arith, h, z, e)

module _ (api : H3Api) where
  -- The units of what waits.
  abbrev pub pending_units : Server api → ℕ
  pending_units s =
      total same_key queued_units s.pending_writes
      + total same_key (response_units api) s.pending_responses

  -- The window holds the units of what waits, and `n` others.
  abbrev pub Owes : Server api → ℕ → Type 0
  Owes s n = s.admission.queued ≡ pending_units s + n

  replied-gate : (x : Gate × Pc × Reply) → (replied api x).0 ≡ x.0
  replied-gate (g, pc, running) = refl
  replied-gate (g, pc, admits b) = refl
  replied-gate (g, pc, releases b) = refl

  pub release_units-queued :
      (m : AdmissionWatermarks) (g : Gate) (units : ℕ)
      → (release_units api m g units).0.queued ≡ g.queued - units
  unfolding release_units release_next
  release_units-queued m g units =
      ap (λ g'. g'.queued) (replied-gate (release_alone m g units)) ∙ release_alone-queued m g units

  -- A release pays what it releases.
  pub release-Owes :
      (m : AdmissionWatermarks) (s : Server api) (units n : ℕ)
      → Owes s (units + n)
      → Owes (release_outbound_admission api m s units).0 n
  unfolding release_outbound_admission
  release-Owes m s units n h = omega (arith, h, release_units-queued m s.admission units)

  -- An entry at a vacant key adds its units.
  pub pending_write-Owes :
      (s : Server api) (key : StreamKey) (w : PendingWrite) (n : ℕ)
      → find same_key key s.pending_writes ≡ none
      → Owes s (queued_units w + n)
      → Owes (insert_pending_write api s key w) n
  unfolding insert_pending_write
  pending_write-Owes s key w n e h = omega (
    arith,
    h,
    total-put same_key queued_units key w s.pending_writes,
    ap (units_of same_key queued_units) e,
  )

  pub pending_response-Owes :
      (s : Server api) (key : StreamKey) (r : PendingResponse api.Headers) (n : ℕ)
      → find same_key key s.pending_responses ≡ none
      → Owes s (response_units api r + n)
      → Owes (insert_pending_response api s key r) n
  unfolding insert_pending_response
  pending_response-Owes s key r n e h = omega (
    arith,
    h,
    total-put same_key (response_units api) key r s.pending_responses,
    ap (units_of same_key (response_units api)) e,
  )

  pub error-Owes :
      (s : Server api) (c : Http3 api) (handle stream n : ℕ)
      → Owes s n
      → Owes (emit_h3_send_error_and_reset api s c handle stream).0 n
  unfolding emit_h3_send_error_and_reset
  error-Owes s c handle stream n h = h

  module _ (m : AdmissionWatermarks) where
    -- Releasing before the rest of a step.
    pub released :
        (s : Server api) (units n left : ℕ) (go : Server api → Pushed api)
        → Owes s (units + left)
        → ((s' : Server api)
            → Owes s' left
            → s'.pending_writes ≡ s.pending_writes
            → Owes (go s').0 n)
        → Owes (and_then api (release_outbound_admission api m s units) go).0 n
    unfolding release_outbound_admission
    released s units n left go h k =
        k (release_outbound_admission api m s units).0 (release-Owes m s units left h) refl

    ok_body-Owes :
        (s : Server api) (c : Http3 api) (key : StreamKey) (len : ℕ) (fin : Bool) (n written : ℕ)
        (fin_accepted : Bool) (remainder : Option ArcBuf)
        → let o : SendOutcome = record {
          written = written;
          fin_accepted = fin_accepted;
          remainder = remainder;
        } in
          find same_key key s.pending_writes ≡ none
          → Exact len fin o
          → Owes s (outbound_payload_units len fin + n)
          → Owes (after_body api m s key len fin (c, ok o)).0 n
    ok_body-Owes s c key len fin n written fin_accepted none e x h =
        let s1 = set_connection api s key.0 c in
        released s1 (accepted_outbound_payload_units len fin written fin_accepted) n n
          (λ s'. (s', [])) (omega (arith, h, all_taken len fin written fin_accepted x.0 x.1))
          (λ s' h' q. h')
    ok_body-Owes s c key len fin n written fin_accepted (some rest) e x h =
        let s1 = set_connection api s key.0 c in
        released s1 (accepted_outbound_payload_units len fin written fin_accepted) n
          (queued_units (http.PendingWrite.new rest fin) + n)
          (λ s'. keep_remainder api m s' key (some rest) fin)
          (omega (arith, h, part_taken len fin written fin_accepted rest.len x.0 x.1 x.2))
          (λ s' h' q. pending_write-Owes s' key _ n (ap (find same_key key) q ∙ e) h')

    pub after_body-Owes :
        (s : Server api) (key : StreamKey) (len : ℕ) (fin : Bool) (n : ℕ)
        (r : Http3 api × Result SendOutcome Http3NativeError)
        → find same_key key s.pending_writes ≡ none
        → ExactReply len fin r.1
        → Owes s (outbound_payload_units len fin + n)
        → Owes (after_body api m s key len fin r).0 n
    after_body-Owes s key len fin n (c, ok o) e x h =
        ok_body-Owes s c key len fin n o.written o.fin_accepted o.remainder e x h
    after_body-Owes s key len fin n (c, err er) e x h =
        released s (outbound_payload_units len fin) n n
          (λ s'. emit_h3_send_error_and_reset api s' c key.0 key.1) h
          (λ s' h' q. error-Owes s' c key.0 key.1 n h')
