-- ===== src/Cp/Phase/Stages.antt =====
-- What the stage of a session says of its fields, and the field writes that change it.
use sdr_slc_rtld.Base.{ℕ, ◌≡◌, [], true, false, none, some, ◌==◌, arith}
use sdr_slc_rtld.Cp.World.{Session, idle, stream_open, streaming, is_streaming}
use sdr_slc_rtld.Cp.Phase.{stage, at_rest, claimed, holding, flowing}

pub holding-has_stream : (s : Session) → stage s ≡ holding → s.has_stream ≡ true
holding-has_stream s h = ground arith

pub flowing-has_stream : (s : Session) (t : ℕ) → stage s ≡ flowing t → s.has_stream ≡ true
flowing-has_stream s t h = ground arith

pub claimed-has_stream : (s : Session) → stage s ≡ claimed → s.has_stream ≡ false
claimed-has_stream s h = ground arith

pub holding-state : (s : Session) → stage s ≡ holding → s.state ≡ stream_open
holding-state s h = ground arith

pub flowing-state : (s : Session) (t : ℕ) → stage s ≡ flowing t → s.state ≡ streaming
flowing-state s t h = ground arith

pub flowing-token : (s : Session) (t : ℕ) → stage s ≡ flowing t → s.vita_token ≡ some t
flowing-token s t h = ground arith

pub holding-token : (s : Session) → stage s ≡ holding → s.vita_token ≡ none
holding-token s h = ground arith

pub rest-has_stream : (s : Session) → stage s ≡ at_rest → s.has_stream ≡ false
rest-has_stream s h = ground arith

pub rest-is_streaming : (s : Session) → stage s ≡ at_rest → is_streaming s.state ≡ false
rest-is_streaming s h = ground arith

pub rest-token : (s : Session) → stage s ≡ at_rest → (s.fd == 0) ≡ false → s.vita_token ≡ none
rest-token s h l = ground arith

pub claim-stage :
    (s : Session)
    → stage s ≡ at_rest
    → (s.fd == 0) ≡ false
    → stage (record s { owns_rx = true }) ≡ claimed
claim-stage s h l = ground arith

pub claim_again-stage :
    (s : Session) → stage s ≡ claimed → stage (record s { owns_rx = true }) ≡ claimed
claim_again-stage s h = ground arith

pub release-stage :
    (s : Session) → stage s ≡ claimed → stage (record s { owns_rx = false }) ≡ at_rest
release-stage s h = ground arith

pub let_go-stage :
    (s : Session)
    → stage s ≡ holding
    → stage (record s { has_stream = false; state = idle; stream_id = []; owns_rx = false })
      ≡ at_rest
let_go-stage s h = ground arith

pub drop_flowing-stage :
    (s : Session) (t : ℕ)
    → stage s ≡ flowing t
    → stage (record s { vita_token = none; state = stream_open }) ≡ holding
drop_flowing-stage s t h = ground arith

pub end_flowing-stage :
    (s : Session) (t : ℕ)
    → stage s ≡ flowing t
    → stage (record s {
      vita_token = none;
      has_stream = false;
      state = idle;
      stream_id = [];
      owns_rx = false;
    })
      ≡ at_rest
end_flowing-stage s t h = ground arith

pub disown-stage :
    (s : Session) → stage s ≡ at_rest → stage (record s { owns_rx = false }) ≡ at_rest
disown-stage s h = ground arith

pub claimed-token : (s : Session) → stage s ≡ claimed → s.vita_token ≡ none
claimed-token s h = ground arith

pub claimed-is_streaming : (s : Session) → stage s ≡ claimed → is_streaming s.state ≡ false
claimed-is_streaming s h = ground arith
