-- ===== src/Cli/Socket.antt =====
-- `DemoDaemonClient::Impl` of src/cli/client.cpp: its socket, and the exchange of one message.
use Prim.Native.String.{◌++◌ as append}
use test_ai_agent.Prelude.{
  ℕ, zero, suc, String, Bool, true, false, not, List, [], ◌∷◌, ◌++◌, Option, none, some, take, drop,
  ◌==◌, if◌then◌else◌,
}
use test_ai_agent.Prelude.Int.{ℤ, pos, neg, negsuc}
use test_ai_agent.Prelude.Outcome.{Outcome, returns, throws}
use test_ai_agent.Json.{newline}
use test_ai_agent.Ipc.Framing.Scan.{Bytes}

-- `timeout` is in milliseconds.
pub record Client : Type 0 where
  pub socket_path : String
  pub timeout : ℤ
  pub fd : ℤ
  pub request_id : ℕ

abbrev pub new_client : String → ℤ → Client
new_client socket_path timeout = record {
  socket_path = socket_path;
  timeout = timeout;
  fd = neg 1;
  request_id = 0;
}

abbrev pub is_negative : ℤ → Bool
is_negative (pos n) = false
is_negative (negsuc n) = true

-- `setupSocket`: what `socket` returns, and whether the two timeouts are accepted. A failing call
-- leaves what it returned.
unfoldable pub setup_socket : ℤ → Bool → Bool → Client → Client × Bool
setup_socket made sets_receive sets_send c =
    if is_negative made
    then (record c { fd = made }, false)
    else if not sets_receive
    then (record c { fd = neg 1 }, false)
    else if not sets_send
    then (record c { fd = neg 1 }, false)
    else (record c { fd = made }, true)

-- `doConnect`, with whether `connect` succeeds.
unfoldable pub connect : ℤ → Bool → Bool → Bool → Client → Client × Bool
connect made sets_receive sets_send accepted c =
    let (c', ready) = setup_socket made sets_receive sets_send c in
    if not ready
    then (c', false)
    else if not accepted
    then (record c' { fd = neg 1 }, false)
    else (c', true)

unfoldable pub disconnect : Client → Client
disconnect c = if is_negative c.fd then c else record c { fd = neg 1 }

unfoldable pub is_connected : Client → Bool
is_connected c = not (is_negative c.fd)

-- What a call of `send` does with the bytes it is given.
pub data Sent : Type 0 where
  sent : ℕ → Sent
  send_interrupted : Sent
  send_failed : String → Sent

-- The loop of the sending, over what the calls do: `none` while more is to come, and the bytes that
-- have left.
unfoldable pub send_loop : List Sent → Bytes → Bytes → Option (Outcome (Unit {0})) × Bytes
send_loop calls [] out = (some (returns tt), out)
send_loop [] (b ∷ bs) out = (none, out)
send_loop (send_interrupted ∷ calls) (b ∷ bs) out = send_loop calls (b ∷ bs) out
send_loop (send_failed what ∷ calls) (b ∷ bs) out =
    (some (throws (append "Failed to send: " what)), out)
send_loop (sent zero ∷ calls) (b ∷ bs) out = (some (throws "Connection closed during send"), out)
send_loop (sent (suc n) ∷ calls) (b ∷ bs) out = send_loop calls (drop n bs) (out ++ b ∷ take n bs)

-- What a call of `recv` gives.
pub data Received : Type 0 where
  received : Bytes → Received
  recv_interrupted : Received
  recv_timeout : Received
  recv_failed : String → Received

abbrev pub ends_line : Bytes → Bool
ends_line [] = false
ends_line (b ∷ []) = b == newline
ends_line (b ∷ c ∷ bs) = ends_line (c ∷ bs)

-- `pop_back` of a text that ends in a line feed.
abbrev pub drop_last : Bytes → Bytes
drop_last [] = []
drop_last (b ∷ []) = []
drop_last (b ∷ c ∷ bs) = b ∷ drop_last (c ∷ bs)

abbrev pub trimmed : Bytes → Bytes
trimmed response = if ends_line response then drop_last response else response

-- The loop of the reading, over what the calls give: `none` while more is to come. A call that
-- gives no bytes is the end of the connection.
unfoldable pub recv_loop : List Received → Bytes → Option (Outcome Bytes)
recv_loop [] response = none
recv_loop (recv_interrupted ∷ calls) response = recv_loop calls response
recv_loop (recv_timeout ∷ calls) response = some (throws "Response timeout")
recv_loop (recv_failed what ∷ calls) response = some (throws (append "Failed to receive: " what))
recv_loop (received [] ∷ calls) [] = some (throws "Connection closed unexpectedly")
recv_loop (received [] ∷ calls) (b ∷ bs) = some (returns (trimmed (b ∷ bs)))
recv_loop (received (c ∷ cs) ∷ calls) response =
    let more = response ++ c ∷ cs in
    let rest = recv_loop calls more in
    if ends_line more then some (returns (trimmed more)) else rest
