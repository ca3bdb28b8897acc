-- ===== src/Ipc/Session/Defs.antt =====
-- The state of a session, the handlers that it calls, and its closing. A session is passed along with
-- the rest of the daemon's state, `W`, on which the handlers act too.
use Prim.Native.String.{◌++◌ as append}
use test_ai_agent.Prelude.{
  ℕ, ◌*◌, String, Bool, true, false, not, Option, none, some, if◌then◌else◌, value_or,
}
use test_ai_agent.Prelude.Int.{ℤ}
use test_ai_agent.Json.{JsonLib}
use test_ai_agent.Ipc.Protocol.Code.{internal_error}
use test_ai_agent.Ipc.Protocol.Error.{ProtocolError}
use test_ai_agent.Ipc.Protocol.Request.{RequestMessage}
use test_ai_agent.Ipc.Protocol.Message.{JsonMessage, is_request}
use test_ai_agent.Ipc.Buffer.Ops.{IoBuffer, new, clear}

pub data SessionState : Type 0 where
  active reading writing closing closed : SessionState

-- `errno`: the two values that the program tells apart are one on Linux.
pub data Errno : Type 0 where
  again : Errno
  other : ℕ → Errno

pub record Session : Type 0 where
  pub client_fd : ℤ
  pub session_id : ℕ
  pub state : SessionState
  pub read_buffer : IoBuffer
  pub write_buffer : IoBuffer

abbrev pub max_buffer_size : ℕ
max_buffer_size = 1024 * 1024

-- The constructor, with the number that `++next_session_id_` gave.
unfoldable pub open_session : ℤ → ℕ → Session
open_session fd id = record {
  client_fd = fd;
  session_id = id;
  state = active;
  read_buffer = new 4096;
  write_buffer = new 4096;
}

-- `initialize`, with whether each of the two calls of `fcntl` succeeds.
unfoldable pub initialize : Bool → Bool → Session → Session × Bool
initialize flags_read flags_set s =
    if not flags_read
    then (s, false)
    else if not flags_set
    then (s, false)
    else (record s { state = active }, true)

abbrev pub is_closed : Session → Bool
is_closed s = elim s.state [ closed ↦ true | _ ↦ false ]

-- The state that closing leaves: both buffers are empty.
unfoldable pub closed_session : Session → Session
closed_session s = record s {
  state = closed;
  read_buffer = clear s.read_buffer;
  write_buffer = clear s.write_buffer;
}

unfoldable pub close : Session → Session
close s = elim s.state [ closed ↦ s | closing ↦ s | _ ↦ closed_session s ]

-- A closed or closing session is left alone.
pub close_cases {ℓ} :
    (P : Session → Type ℓ) (s : Session) → P s → P (closed_session s) → P (close s)
unfolding close
close_cases P s same shut =
    elim s.state
      as (λ st. P (elim st as (λ _. Session) [ closed ↦ s | closing ↦ s | _ ↦ closed_session s ])) [
        | closed ↦ same
        | closing ↦ same
        | _ ↦ shut
      ]

-- A handler that throws gives the text of `what()`. Either `std::function` may be empty.
pub record Handlers (Json : Type 0) (W : Type 0) : Type 0 where
  pub on_message : Option (RequestMessage Json → Session × W → (Session × W) × Option String)
  pub on_error : Option (ProtocolError Json → Session × W → Session × W)

-- The request that `try_parse_messages` makes of a message.
abbrev pub request_of : {Json : Type 0} → JsonLib Json → JsonMessage Json → RequestMessage Json
request_of J msg = record {
  id = msg.id;
  method = value_or msg.method "";
  params = value_or msg.params J.object;
}

module _ {Json W : Type 0} (J : JsonLib Json) (H : Handlers Json W) where
  -- The `catch` block of `handle_message`.
  unfoldable pub after_message : (Session × W) × Option String → Session × W
  after_message (sw, none) = sw
  after_message (sw, some what) = elim H.on_error [
    | none ↦ sw
    | some report ↦
        report
          (record {
            code = internal_error;
            message = append "Internal error: " what;
            payload = none;
          })
          sw
  ]

  unfoldable pub handle_message : RequestMessage Json → Session × W → Session × W
  handle_message msg sw = elim H.on_message [ none ↦ sw | some f ↦ after_message (f msg sw) ]

  -- What `try_parse_messages` does with a message: an error response is only logged.
  unfoldable pub dispatch : JsonMessage Json → Session × W → Session × W
  dispatch msg sw = if is_request msg then handle_message (request_of J msg) sw else sw
