-- ===== src/Ipc/Session/Write.antt =====
-- Writing: `on_writable`, `write_to_socket`, `schedule_send` and `schedule_send_error`.
use test_ai_agent.Prelude.{
  ℕ, suc, ◌+◌, List, [], ◌∷◌, ◌++◌, Bool, true, false, none, some, ltb, ◌==◌, if◌then◌else◌, length,
  take,
}
use test_ai_agent.Json.{JsonLib, newline}
use test_ai_agent.Ipc.Protocol.Message.{JsonMessage}
use test_ai_agent.Ipc.Protocol.Response.{ResponseMessage}
use test_ai_agent.Ipc.Protocol.ErrorResponse.{ErrorResponseMessage}
use test_ai_agent.Ipc.Framing.Scan.{Bytes}
use test_ai_agent.Ipc.Framing.Parser.{serialize}
use test_ai_agent.Ipc.Buffer.Ops.{
  available_for_read, compact, get_read_view, advance_read, advance_write, resize, store,
}
use test_ai_agent.Ipc.Session.Defs.{active, writing, Errno, again, other, Session, close}

-- What the kernel does with one call of `write`.
pub data Departure : Type 0 where
  taken : ℕ → Departure
  refused : Errno → Departure

-- A loop that ends: the session, whether it goes on, and the bytes that left.
abbrev pub Written : Type 0
Written = Session × Bool × Bytes

-- An error or a count of 0: `errno` decides.
unfoldable pub stop_writing : Errno → Session → Bytes → Written
stop_writing again s sent = (s, true, sent)
stop_writing (other e) s sent = (close s, false, sent)

-- The loop of `on_writable`; when the list ends the socket is full.
unfoldable pub write_loop : List Departure → Errno → Session → Bytes → Written
write_loop [] errno s sent =
    if ltb 0 (available_for_read s.write_buffer)
    then stop_writing again s sent
    else (record s { state = active }, true, sent)
write_loop (d ∷ rest) errno s sent =
    let done : Written = (record s { state = active }, true, sent) in
    let more : Written = elim d [
      | refused e ↦ stop_writing e s sent
      | taken n ↦ elim (take n (get_read_view s.write_buffer)) [
        | [] ↦ stop_writing errno s sent
        | c ∷ cs ↦
            write_loop rest errno
              (record s { write_buffer = compact (advance_read (suc (length cs)) s.write_buffer) })
              (sent ++ (c ∷ cs))
      ]
    ] in
    if ltb 0 (available_for_read s.write_buffer) then more else done

-- Outside the state `writing` nothing is written.
unfoldable pub on_writable : List Departure → Errno → Session → Written
on_writable departures errno s = elim s.state [
  | writing ↦ write_loop departures errno s []
  | _ ↦ (record s { state = active }, true, [])
]

-- The text, a line feed, and the count of both.
unfoldable pub enqueue : Bytes → Session → Session
enqueue json s =
    let b = resize (s.write_buffer.write_pos + length json + 1) s.write_buffer in
    if length json == 0 then s else record s {
      write_buffer = advance_write (length json + 1) (store (json ++ newline ∷ []) b);
    }

-- The message that `schedule_send` makes of a response.
abbrev pub response_message : {Json : Type 0} → ResponseMessage Json → JsonMessage Json
response_message response = record {
  id = response.id;
  method = none;
  params = none;
  result = some response.result;
  error = none;
}

module _ {Json : Type 0} (J : JsonLib Json) where
  unfoldable pub schedule_send : ResponseMessage Json → Session → Session
  schedule_send response s = enqueue (serialize J (response_message response)) s

  unfoldable pub schedule_send_error : ErrorResponseMessage Json → Session → Session
  schedule_send_error response s =
      enqueue
        (serialize J (record {
          id = response.id;
          method = none;
          params = none;
          result = none;
          error = some response.error;
        }))
        s
