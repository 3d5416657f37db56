-- ===== src/Streams.antt =====
-- internal/stream/manager.go: the streams of a gateway. A stream's raw connection is code of the
-- caller: `close_raw` is the error that its Close returns, if any. The IDs that generateStreamID
-- makes are arguments.
pub mod Closed
use tunneledge.Common.{
  Text, ℕ, suc, Bool, true, false, List, [], ◌∷◌, Option, none, some, length, text_eq,
  if◌then◌else◌,
}
use tunneledge.Common.Maps.{Dict, get, put, remove}
use tunneledge.Errs.{GoError, coded, wrapped, not_found, Result, ok, err}

-- State
pub data State : Type 0 where
  state_open state_closed : State

-- Stream
pub record Stream (Raw : Type 0) : Type 0 where
  pub id : Text
  pub tunnel_id : Text
  pub created_at : ℕ
  pub state : State
  pub stream : Raw

-- Manager: the map `streams`.
abbrev pub Manager : Type 0 → Type 0
Manager Raw = Dict (Stream Raw)

module _ {Raw : Type 0} where
  -- Open
  unfoldable pub open_stream : Manager Raw → ℕ → Text → Text → Raw → Manager Raw × Stream Raw
  open_stream m now fresh tunnel_id raw =
      let s : Stream Raw = record {
        id = fresh;
        tunnel_id = tunnel_id;
        created_at = now;
        state = state_open;
        stream = raw;
      } in
      (put m fresh s, s)

  abbrev stream_or : Text → Option (Stream Raw) → Result (Stream Raw)
  stream_or id none = err (coded not_found "stream %s not found" (id ∷ []))
  stream_or id (some s) = ok s

  -- Get
  unfoldable pub get_stream : Manager Raw → Text → Result (Stream Raw)
  get_stream m id = stream_or id (get m id)

  -- List, in the order of the iteration
  unfoldable pub list_streams : Manager Raw → List (Stream Raw)
  list_streams [] = []
  list_streams ((id, s) ∷ m) = s ∷ list_streams m

  -- ListByTunnel
  unfoldable pub list_by_tunnel : Manager Raw → Text → List (Stream Raw)
  list_by_tunnel [] t = []
  list_by_tunnel ((id, s) ∷ m) t =
      let rest = list_by_tunnel m t in if text_eq s.tunnel_id t then s ∷ rest else rest

  -- Count
  abbrev pub count : Manager Raw → ℕ
  count m = length m

  -- CountByTunnel
  unfoldable pub count_by_tunnel : Manager Raw → Text → ℕ
  count_by_tunnel [] t = 0
  count_by_tunnel ((id, s) ∷ m) t =
      let rest = count_by_tunnel m t in if text_eq s.tunnel_id t then suc rest else rest

module _ {Raw : Type 0} (close_raw : Raw → Option GoError) where
  -- Stream.Close
  unfoldable pub close_stream : Stream Raw → Stream Raw × Option GoError
  close_stream s = elim s.state [
    | state_closed ↦ (s, none)
    | state_open ↦ (record s { state = state_closed }, close_raw s.stream)
  ]

  -- Manager.Close, after the stream's Close: a stream that fails to close stays in the map.
  abbrev delete_closed :
      Manager Raw → Text → Stream Raw × Option GoError → Manager Raw × Result (Unit {0})
  delete_closed m id (s, some e) =
      (put m id s, err (wrapped "failed to close stream %s: %w" (id ∷ []) e))
  delete_closed m id (s, none) = (remove m id, ok tt)

  abbrev close_found : Manager Raw → Text → Option (Stream Raw) → Manager Raw × Result (Unit {0})
  close_found m id none = (m, err (coded not_found "stream %s not found" (id ∷ [])))
  close_found m id (some s) = delete_closed m id (close_stream s)

  -- Manager.Close
  unfoldable pub close : Manager Raw → Text → Manager Raw × Result (Unit {0})
  unfolding close_stream
  close m id = close_found m id (get m id)

  -- CloseAll: the map left, and the streams closed.
  unfoldable pub close_all : Manager Raw → Manager Raw × List (Stream Raw)
  unfolding close_stream
  close_all [] = ([], [])
  close_all ((id, s) ∷ m) =
      let (rest, closed) = close_all m in (remove rest id, (close_stream s).0 ∷ closed)

  -- CloseByTunnel: the map left, and the streams closed.
  unfoldable pub close_by_tunnel : Manager Raw → Text → Manager Raw × List (Stream Raw)
  unfolding close_stream
  close_by_tunnel [] t = ([], [])
  close_by_tunnel ((id, s) ∷ m) t =
      let (rest, closed) = close_by_tunnel m t in
      if text_eq s.tunnel_id t
      then (remove rest id, (close_stream s).0 ∷ closed)
      else ((id, s) ∷ rest, closed)
