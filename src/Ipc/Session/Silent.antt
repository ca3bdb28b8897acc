-- ===== src/Ipc/Session/Silent.antt =====
-- The calls that the server makes of a session, and what they send to the client.
use test_ai_agent.Prelude.{
  ℕ, zero, suc, List, [], ◌∷◌, ◌++◌, Bool, true, false, ◌≡◌, refl, arith, ◌∙◌, sym, subst,
  Option-cases, Bool-cases, inl, inr,
}
use test_ai_agent.Json.{JsonLib}
use test_ai_agent.Ipc.Protocol.Request.{RequestMessage}
use test_ai_agent.Ipc.Protocol.Response.{ResponseMessage}
use test_ai_agent.Ipc.Protocol.ErrorResponse.{ErrorResponseMessage}
use test_ai_agent.Ipc.Protocol.Message.{JsonMessage, is_request}
use test_ai_agent.Ipc.Framing.Scan.{Bytes}
use test_ai_agent.Ipc.Framing.Parser.{try_parse, default_max_message_size}
use test_ai_agent.Ipc.Buffer.Ops.{get_read_view}
use test_ai_agent.Ipc.Session.Defs.{
  SessionState, reading, writing, Session, Errno, again, Handlers, initialize, close, close_cases,
  closed_session, handle_message, dispatch,
}
use test_ai_agent.Ipc.Session.Read.{
  Arrival, failing, ReadReturn, positive, eof, error, read_from_socket, consume, parse_loop,
  try_parse_messages, stop_reading, read_loop, on_readable, accepts_reads,
}
use test_ai_agent.Ipc.Session.Write.{
  Departure, on_writable, enqueue, schedule_send, schedule_send_error,
}

abbrev is_writing : SessionState → Bool
is_writing writing = true
is_writing _ = false

abbrev pub NotWriting : Session → Type 0
NotWriting s = is_writing s.state ≡ false

-- The calls that the server makes of a session.
pub data Call (Json : Type 0) : Type 0 where
  initializes : Bool → Bool → Call Json
  readable : List Arrival → Errno → Call Json
  writable : List Departure → Errno → Call Json
  sends : ResponseMessage Json → Call Json
  sends_error : ErrorResponseMessage Json → Call Json
  closes : Call Json

module _ {Json W : Type 0} (J : JsonLib Json) (H : Handlers Json W) where
  -- A call, and the bytes that it hands to the kernel.
  unfoldable pub perform : Call Json → Session × W → (Session × W) × Bytes
  perform (initializes flags_read flags_set) (s, w) =
      (((initialize flags_read flags_set s).0, w), [])
  perform (readable arrivals errno) sw = ((on_readable J H arrivals errno sw).0, [])
  perform (writable departures errno) (s, w) =
      let (s', _, sent) = on_writable departures errno s in ((s', w), sent)
  perform (sends response) (s, w) = ((schedule_send J response s, w), [])
  perform (sends_error response) (s, w) = ((schedule_send_error J response s, w), [])
  perform closes (s, w) = ((close s, w), [])

  -- What a sequence of calls sends to the client.
  unfoldable pub sent_by : List (Call Json) → Session × W → Bytes
  sent_by [] sw = []
  sent_by (c ∷ cs) sw = let (sw', sent) = perform c sw in sent ++ sent_by cs sw'

  -- The handlers of the server change no session's state.
  pub record LeavesState : Type 0 where
    pub keeps :
        (m : RequestMessage Json) (sw : Session × W)
        → (handle_message J H m sw).0.state ≡ sw.0.state

module _ {Json W : Type 0} (J : JsonLib Json) (H : Handlers Json W) (leaves : LeavesState J H) where
  state-consume :
      (k : ℕ) (m : JsonMessage Json) (sw : Session × W)
      → (consume J H k (dispatch J H m sw)).0.state ≡ sw.0.state
  unfolding consume dispatch
  state-consume k m sw = elim (Bool-cases (is_request m)) [
    | inl request ↦ rw (request, dispatch) (leaves.keeps _ sw)
    | inr response ↦ rw (response, dispatch)
  ]

  state-parse_loop : (fuel : ℕ) (sw : Session × W) → (parse_loop J H fuel sw).0.state ≡ sw.0.state
  unfolding parse_loop
  state-parse_loop zero sw = refl
  state-parse_loop (suc fuel) sw =
      elim (Option-cases
        (try_parse J default_max_message_size (get_read_view sw.0.read_buffer)).0) [
          | inl absent ↦ rw (absent, parse_loop)
          | inr (m, found) ↦ rw (found, parse_loop) (state-parse_loop fuel _ ∙ state-consume _ m sw)
        ]

  state-read_from_socket :
      (a : Arrival) (errno : Errno) (s : Session) → (read_from_socket a errno s).0.state ≡ s.state
  unfolding read_from_socket
  state-read_from_socket a errno s = ground arith

  close-NotWriting : (s : Session) → NotWriting s → NotWriting (close s)
  unfolding closed_session
  close-NotWriting s h = close_cases NotWriting s h refl

  stop_reading-NotWriting :
      (r : ReadReturn) (s : Session) (w : W)
      → NotWriting s
      → NotWriting (stop_reading J H r (s, w)).0.0
  unfolding stop_reading
  stop_reading-NotWriting (error again) s w h = refl
  stop_reading-NotWriting _ s w h = close-NotWriting s h

  read_loop-NotWriting :
      (arrivals : List Arrival) (errno : Errno) (s : Session) (w : W)
      → NotWriting s
      → NotWriting (read_loop J H arrivals errno (s, w)).0.0
  unfolding read_loop
  read_loop-NotWriting [] errno s w h =
      stop_reading-NotWriting _ _ w
        (subst kept (sym (state-read_from_socket (failing again) errno s)) h)
    where
      kept : SessionState → Type 0
      kept st = is_writing st ≡ false
  read_loop-NotWriting (a ∷ rest) errno s w h =
      let s' = (read_from_socket a errno s).0 in
      let h' : NotWriting s' = rw (state-read_from_socket a errno s) h in
      let parsed = try_parse_messages J H (s', w) in
      let hp : NotWriting parsed.0 = rw (parsed_state (s', w)) h' in
      elim (read_from_socket a errno s).1
        as (λ ret.
          NotWriting
            (elim ret as (λ _. (Session × W) × Bool) [
              | positive ↦ read_loop J H rest errno parsed
              | eof ↦ stop_reading J H eof (s', w)
              | error e ↦ stop_reading J H (error e) (s', w)
            ]).0.0) [
              | positive ↦ read_loop-NotWriting rest errno parsed.0 parsed.1 hp
              | eof ↦ stop_reading-NotWriting eof s' w h'
              | error e ↦ stop_reading-NotWriting (error e) s' w h'
            ]
    where
      parsed_state : (sw : Session × W) → (try_parse_messages J H sw).0.state ≡ sw.0.state
      parsed_state sw = unfold try_parse_messages in state-parse_loop _ sw

  pub on_readable-NotWriting :
      (arrivals : List Arrival) (errno : Errno) (s : Session) (w : W)
      → NotWriting s
      → NotWriting (on_readable J H arrivals errno (s, w)).0.0
  unfolding on_readable
  on_readable-NotWriting arrivals errno s w h = elim (Bool-cases (accepts_reads s.state)) [
    | inl accepting ↦
        rw accepting (read_loop-NotWriting arrivals errno (record s { state = reading }) w refl)
    | inr shut ↦ rw shut h
  ]

  enqueue-NotWriting : (json : Bytes) (s : Session) → NotWriting s → NotWriting (enqueue json s)
  unfolding enqueue
  enqueue-NotWriting json s h = ground arith

  -- `on_writable` hands nothing to the kernel, and leaves the state `active`.
  pub on_writable-NotWriting :
      (departures : List Departure) (errno : Errno) (s : Session)
      → NotWriting s
      → NotWriting (on_writable departures errno s).0 × ((on_writable departures errno s).2 ≡ [])
  unfolding on_writable
  on_writable-NotWriting departures errno s h = ground arith

  perform-NotWriting :
      (c : Call Json) (s : Session) (w : W)
      → NotWriting s
      → NotWriting (perform J H c (s, w)).0.0 × ((perform J H c (s, w)).1 ≡ [])
  unfolding perform initialize schedule_send schedule_send_error
  perform-NotWriting (initializes flags_read flags_set) s w h = ground arith
  perform-NotWriting (readable arrivals errno) s w h =
      (on_readable-NotWriting arrivals errno s w h, refl)
  perform-NotWriting (writable departures errno) s w h = on_writable-NotWriting departures errno s h
  perform-NotWriting (sends response) s w h = (enqueue-NotWriting _ s h, refl)
  perform-NotWriting (sends_error response) s w h = (enqueue-NotWriting _ s h, refl)
  perform-NotWriting closes s w h = (close-NotWriting s h, refl)

  -- Whatever is called of a session, it never sends a byte to its client.
  pub sent_by-NotWriting :
      (calls : List (Call Json)) (s : Session) (w : W)
      → NotWriting s
      → sent_by J H calls (s, w) ≡ []
  unfolding sent_by
  sent_by-NotWriting [] s w h = refl
  sent_by-NotWriting (c ∷ cs) s w h =
      let (kept, silent) = perform-NotWriting c s w h in
      let next = (perform J H c (s, w)).0 in rw silent (sent_by-NotWriting cs next.0 next.1 kept)
