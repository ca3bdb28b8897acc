-- ===== src/Ipc/Server/Answers.antt =====
-- The handlers of the server of src/ipc/unix_socket_server.cpp, as its sessions see them.
use test_ai_agent.Prelude.{
  List, [], value_or, ◌==◌, ◌≡◌, refl, ap, Option-cases, Bool-cases, inl, inr, length,
}
use test_ai_agent.Prelude.Int.{ℤ, pos, to_int32}
use test_ai_agent.Prelude.Outcome.{Outcome, returns, throws}
use test_ai_agent.Json.{JsonLib}
use test_ai_agent.Ipc.Framing.Scan.{Bytes}
use test_ai_agent.Ipc.Buffer.Ops.{IoBuffer}
use test_ai_agent.Ipc.Protocol.Request.{RequestMessage}
use test_ai_agent.Ipc.Protocol.Response.{ResponseMessage}
use test_ai_agent.Ipc.Session.Defs.{Session, handle_message, after_message}
use test_ai_agent.Ipc.Session.Write.{enqueue, schedule_send, schedule_send_error}
use test_ai_agent.Ipc.Session.Deliver.{LeavesInput, with_buffer}
use test_ai_agent.Ipc.Session.Silent.{LeavesState, NotWriting, Call, sent_by, sent_by-NotWriting}
use test_ai_agent.Ipc.Connections.Manager.{get_session_by_fd}
use test_ai_agent.Ipc.Server.Defs.{
  Server, CommandHandler, reply, on_message, message_handler, server_handlers,
}

enqueue_lem :
    (json : Bytes) (s : Session) (b : IoBuffer)
    → ((enqueue json s).state ≡ s.state)
      × (enqueue json (record s { read_buffer = b }) ≡ record (enqueue json s) { read_buffer = b })
unfolding enqueue
enqueue_lem json s b = elim (Bool-cases (length json == 0)) [
  | inl empty ↦ rw (empty, enqueue) (refl, refl)
  | inr some_bytes ↦ rw (some_bytes, enqueue) (refl, refl)
]

pub reply_lem :
    {Json : Type 0} (J : JsonLib Json) (msg : RequestMessage Json)
    (outcome : Outcome (ResponseMessage Json)) (s : Session) (b : IoBuffer)
    → ((reply J msg outcome s).state ≡ s.state)
      × (reply J msg outcome (record s { read_buffer = b })
          ≡ record (reply J msg outcome s) { read_buffer = b })
unfolding reply schedule_send schedule_send_error
reply_lem J msg (returns response) s b = enqueue_lem _ s b
reply_lem J msg (throws what) s b = enqueue_lem _ s b

module _ {Json D : Type 0} (J : JsonLib Json) (command_handler : CommandHandler Json D) where
  -- The descriptor under which the handler looks for a session.
  abbrev target : RequestMessage Json → ℤ
  target msg = to_int32 (value_or msg.id (pos 0))

  abbrev handled : RequestMessage Json → Session × Server D → Session × Server D
  handled = handle_message J (server_handlers J command_handler)

  handled_lem :
      (msg : RequestMessage Json) (s : Session) (server : Server D) (b : IoBuffer)
      → ((handled msg (s, server)).0.state ≡ s.state)
        × (handled msg (with_buffer b (s, server)) ≡ with_buffer b (handled msg (s, server)))
  unfolding handle_message after_message message_handler on_message
  handled_lem msg s server b =
      elim (Option-cases (get_session_by_fd (target msg) server.connections)) [
        | inl absent ↦ rw (absent, message_handler) (refl, refl)
        | inr (found, here) ↦ elim (Bool-cases (found.session_id == s.session_id)) [
          | inl same ↦
              let r = reply_lem J msg (command_handler msg server.world).1 s b in
              rw (here, message_handler, same)
                (
                  r.0,
                  ap (λ t. (t, record server { world = (command_handler msg server.world).0 })) r.1,
                )
          | inr other ↦ rw (here, message_handler, other) (refl, refl)
        ]
      ]

  pub server_handlers-LeavesState : LeavesState J (server_handlers J command_handler)
  server_handlers-LeavesState = record {
    keeps = λ msg sw. (handled_lem msg sw.0 sw.1 sw.0.read_buffer).0;
  }

  pub server_handlers-LeavesInput : LeavesInput J (server_handlers J command_handler)
  server_handlers-LeavesInput = record { commutes = λ msg b sw. (handled_lem msg sw.0 sw.1 b).1 }

  -- A session of the server that is not in the state `writing` never sends a byte to its client,
  -- whatever the command handler answers and whatever sequence of calls is made of the session.
  pub server_silent :
      (calls : List (Call Json)) (s : Session) (server : Server D)
      → NotWriting s
      → sent_by J (server_handlers J command_handler) calls (s, server) ≡ []
  server_silent calls s server h =
      sent_by-NotWriting J (server_handlers J command_handler) server_handlers-LeavesState calls s
        server h
