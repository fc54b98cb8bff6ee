-- ===== src/H3Connection/Loop.antt =====
-- The end of the loop over the writable streams in `poll_drain_events` of src/connection.rs.
use http.Pool.{Buffer}
use http.Blocked.{untrack}
use http.Common.{
  ◌∙◌, ◌++◌, ap, elem, ◌==◌, ◌<◌, Bool-cases, find, List, Result, ◌≡◌, Option, inl, inr, none, some,
  refl, ℕ, zero, suc, arith, ok, err,
}
use http.H3Connection.Polls.{
  PollEvent, writable_loop, writable_round, on_writable, drain_if_blocked, chain,
}
use http.H3Connection.{
  Counted, give_back, CapacityError, Writables, H3Api, Http3, clear_stream_tracking, stream_stopped,
  capacity_other,
}

module _ (api : H3Api) where
  give_back-conn :
      (c : Http3 api) (buf : Option Buffer)
      → ((give_back api c buf).quiche_conn ≡ c.quiche_conn)
        × ((give_back api c buf).blocked ≡ c.blocked)
  give_back-conn c none = (refl, refl)
  give_back-conn c (some buf) = (refl, refl)

  -- Clearing a stream leaves quiche alone, and untracks the stream.
  pub clear_stream_tracking-conn :
      (c : Http3 api) (id : ℕ)
      → ((clear_stream_tracking api c id).quiche_conn ≡ c.quiche_conn)
        × ((clear_stream_tracking api c id).blocked ≡ untrack c.blocked id)
  unfolding clear_stream_tracking
  clear_stream_tracking-conn c id = give_back-conn _ (find ◌==◌ id c.pending_body_data)

  drain_if_blocked-conn :
      (c : Http3 api) (id : ℕ)
      → ((drain_if_blocked api c id).0.quiche_conn ≡ c.quiche_conn)
        × ((drain_if_blocked api c id).0.blocked ≡ untrack c.blocked id)
  unfolding drain_if_blocked untrack
  drain_if_blocked-conn c id = elim (Bool-cases (elem id c.blocked.set)) [
    | inl e ↦ rw e (refl, refl)
    | inr e ↦ rw e (refl, refl)
  ]

  pub on_writable-conn :
      (c : Http3 api) (id : ℕ) (r : Result ℕ CapacityError)
      → ((on_writable api c id r).0.quiche_conn ≡ c.quiche_conn)
        × ((on_writable api c id r).0.blocked ≡ untrack c.blocked id)
  unfolding on_writable
  on_writable-conn c id (err (stream_stopped code)) = clear_stream_tracking-conn c id
  on_writable-conn c id (err (capacity_other code)) = drain_if_blocked-conn c id
  on_writable-conn c id (ok capacity) = drain_if_blocked-conn c id

  abbrev pub rounds_left : Http3 api → ℕ
  rounds_left c = api.writable_len c.quiche_conn

  chain_same :
      (x : Http3 api × List PollEvent) (f g : Http3 api → Http3 api × List PollEvent)
      → f x.0 ≡ g x.0
      → chain api x f ≡ chain api x g
  chain_same (c, events) f g e = ap (λ r. (r.0, events ++ r.1)) e

  round_same :
      (c : Http3 api) (f g : Http3 api → Http3 api × List PollEvent) (r : api.Conn × Option ℕ)
      → Counted (rounds_left c) (api.writable_len r.0) r.1
      → ((c' : Http3 api) → suc (rounds_left c') ≡ rounds_left c → f c' ≡ g c')
      → writable_round api c f r ≡ writable_round api c g r
  round_same c f g (q, none) e k = refl
  round_same c f g (q, some id) e k =
      let c1 : Http3 api = record c { quiche_conn = q } in
      let r = api.stream_capacity q id in
      chain_same (on_writable api c1 id r) f g (
        k (on_writable api c1 id r).0
          (ap (λ x. suc (api.writable_len x)) (on_writable-conn c1 id r).0 ∙ e))

  two_bounds :
      Writables api
      → (n m : ℕ) (c : Http3 api) → rounds_left c < n
      → rounds_left c < m
      → writable_loop api n c ≡ writable_loop api m c
  two_bounds counted zero m c p q = absurd (omega (arith, p))
  two_bounds counted (suc n) zero c p q = absurd (omega (arith, q))
  two_bounds counted (suc n) (suc m) c p q =
      round_same c (λ c'. writable_loop api n c') (λ c'. writable_loop api m c')
        (api.stream_writable_next c.quiche_conn) (counted c.quiche_conn)
        (λ c' e. two_bounds counted n m c' (omega (arith, e, p)) (omega (arith, e, q)))

  -- Over a quiche whose iteration over the writable streams has an end, the loop ends by itself: any
  -- bound on its rounds above the number of writable streams gives the result of the bound that
  -- the poll uses.
  pub writable_loop-enough :
      Writables api
      → (fuel : ℕ) (c : Http3 api) → rounds_left c < fuel
      → writable_loop api fuel c ≡ writable_loop api (suc (rounds_left c)) c
  writable_loop-enough counted fuel c p =
      two_bounds counted fuel (suc (rounds_left c)) c p (omega arith)
