-- ===== src/Cp/Phase/Streams.antt =====
-- start_rx, stop_rx and close_stream as moves of the rx channel.
use sdr_slc_rtld.Base.{ℕ, ◌≡◌, Bool, true, false, Bytes, if◌then◌else◌}
use sdr_slc_rtld.Json.Tokens.{Msg}
use sdr_slc_rtld.Rtl.Bridge.{Device}
use sdr_slc_rtld.Cp.World.{
  World, Input, Answer, stream_open, streaming, is_streaming, rx_streaming, closed, stream_state,
  client_request,
}
use sdr_slc_rtld.Cp.Cmd.{◌>>=◌, gets, modify, send_ok, pure, send_event}
use sdr_slc_rtld.Cp.Stream.{
  start_stream, stop_stream, close_session, cmd_start_rx, cmd_stop_rx, cmd_close_stream,
}
use sdr_slc_rtld.Cp.Phase.{
  Phase, free_rx, open_rx, streaming_rx, Represents, holding, flowing, Goes, stops, closes,
  closes_streaming,
}
use sdr_slc_rtld.Cp.Phase.Keeps.{send_framed-Represents}
use sdr_slc_rtld.Cp.Phase.Stages.{holding-state, flowing-state}
use sdr_slc_rtld.Cp.Phase.Access.{own_stage}
use sdr_slc_rtld.Cp.Phase.Open.{Goes-nowhere}
use sdr_slc_rtld.Cp.Phase.Start.{start_stream-Goes}
use sdr_slc_rtld.Cp.Phase.Stop.{
  Holds, holds_open, holds_streaming, with_stream, stop_stream-Represents, let_go-Represents,
  end_streaming-Represents,
}

module _ (i : ℕ) where
  holding_state : {w : World} → Represents (open_rx i) w → (w.table i).state ≡ stream_open
  holding_state {w} r = holding-state (w.table i) (own_stage i holding (w.table i) (r.stages i))

  flowing_state :
      (t : ℕ) {w : World} → Represents (streaming_rx i t) w → (w.table i).state ≡ streaming
  flowing_state t {w} r =
      flowing-state (w.table i) t (own_stage i (flowing t) (w.table i) (r.stages i))

  send_ok-Represents :
      (id : Bytes) (a : Answer) {p : Phase} {w : World}
      → Represents p w
      → Represents p (send_ok i id a w).1
  unfolding send_ok modify
  send_ok-Represents id a r = send_framed-Represents i _ r

  close_reply-Represents :
      (id : Bytes) (on : Bool) (sid : Bytes) {u : World}
      → Represents free_rx u
      → Represents free_rx
          ((send_ok i id closed >>= λ _.
              if on then send_event i (stream_state sid false client_request) else pure tt)
            u).1
  unfolding ◌>>=◌ send_ok modify send_event pure
  close_reply-Represents id true sid r = send_framed-Represents i _ (send_framed-Represents i _ r)
  close_reply-Represents id false sid r = send_framed-Represents i _ r

  module _ (id : Bytes) (m : Msg) {w : World} where
    pub cmd_start_rx-Goes :
        (dev : Device) (inp : Input) (p : Phase)
        → Represents p w
        → Goes i p (cmd_start_rx dev inp i id m w).1
    unfolding cmd_start_rx ◌>>=◌ gets
    cmd_start_rx-Goes dev inp p r = with_stream i id m w _ r (from_held p r)
      where
        from_held :
            (p : Phase)
            → Represents p w
            → Holds i p
            → Goes i p
                ((if is_streaming (w.table i).state
                    then send_ok i id (rx_streaming true)
                    else start_stream dev inp i id)
                  w).1
        from_held p r holds_open = simp (holding_state r) (start_stream-Goes dev i id inp w r)
        from_held p r (holds_streaming t) =
            simp (flowing_state t r) (Goes-nowhere i (send_ok-Represents id _ r))

    pub cmd_stop_rx-Goes : (p : Phase) → Represents p w → Goes i p (cmd_stop_rx i id m w).1
    unfolding cmd_stop_rx ◌>>=◌ gets
    cmd_stop_rx-Goes p r = with_stream i id m w _ r (from_held p r)
      where
        from_held :
            (p : Phase)
            → Represents p w
            → Holds i p
            → Goes i p
                ((if is_streaming (w.table i).state
                    then stop_stream i id
                    else send_ok i id (rx_streaming false))
                  w).1
        from_held p r holds_open =
            simp (holding_state r) (Goes-nowhere i (send_ok-Represents id _ r))
        from_held p r (holds_streaming t) =
            simp (flowing_state t r)
              (record { to = open_rx i; move = stops t; shows = stop_stream-Represents i t r id })

    pub cmd_close_stream-Goes :
        (p : Phase) → Represents p w → Goes i p (cmd_close_stream i id m w).1
    unfolding cmd_close_stream ◌>>=◌ gets modify
    cmd_close_stream-Goes p r = with_stream i id m w _ r (from_held p r)
      where
        reply : Bool → World → World
        reply on u =
            ((send_ok i id closed >>= λ _.
            if on
            then send_event i (stream_state (w.table i).stream_id false client_request)
            else pure tt)
              u).1

        from_held :
            (p : Phase)
            → Represents p w
            → Holds i p
            → Goes i p (
                reply
                  (is_streaming (w.table i).state)
                  (close_session (is_streaming (w.table i).state) i w))
        from_held p r holds_open = simp (holding_state r) (record {
          to = free_rx;
          move = closes;
          shows = close_reply-Represents id false (w.table i).stream_id (let_go-Represents i r);
        })
        from_held p r (holds_streaming t) = simp (flowing_state t r) (record {
          to = free_rx;
          move = closes_streaming t;
          shows =
              close_reply-Represents id true (w.table i).stream_id (end_streaming-Represents i t r);
        })
