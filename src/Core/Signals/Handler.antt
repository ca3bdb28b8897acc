-- ===== src/Core/Signals/Handler.antt =====
-- The handler: its flags, its pipe, and what a signal does to them.
use test_ai_agent.Prelude.{
  ℕ, List, [], ◌∷◌, ◌++◌, Bool, true, false, not, ◌&&◌, Option, none, some, ltb, ◌==◌, length,
  if◌then◌else◌,
}

pub data SignalType : Type 0 where
  no_signal interrupt terminate hangup broken_pipe : SignalType

-- The numbers of the signals on Linux, and the capacity of a pipe.
abbrev pub sighup : ℕ
sighup = 1

abbrev pub sigint : ℕ
sigint = 2

abbrev pub sigpipe : ℕ
sigpipe = 13

abbrev pub sigterm : ℕ
sigterm = 15

abbrev pub pipe_capacity : ℕ
pipe_capacity = 65536

-- `pipe_fds`: the bytes in the pipe, once there is one.
pub record SignalHandler : Type 0 where
  pub pipe_fds : Option (List ℕ)
  pub pending_signal : SignalType
  pub initialized : Bool
  pub shutdown_requested : Bool

-- Whether each call that `initialize` makes succeeds.
pub record SetUp : Type 0 where
  pub makes_pipe : Bool
  pub gets_flags : Bool
  pub sets_flags : Bool
  pub handles_int : Bool
  pub handles_term : Bool
  pub handles_hup : Bool
  pub ignores_pipe : Bool

abbrev pub new_handler : SignalHandler
new_handler = record {
  pipe_fds = none;
  pending_signal = no_signal;
  initialized = false;
  shutdown_requested = false;
}

unfoldable pub initialize : SetUp → SignalHandler → SignalHandler × Bool
initialize calls h =
    let piped = record h { pipe_fds = some [] } in
    if h.initialized
    then (h, true)
    else if not calls.makes_pipe
    then (h, false)
    else if not (calls.gets_flags && calls.sets_flags)
    then (piped, false)
    else if not calls.handles_int
    then (piped, false)
    else if not calls.handles_term
    then (piped, false)
    else if not calls.handles_hup
    then (piped, false)
    else if not calls.ignores_pipe
    then (piped, false)
    else (record piped { initialized = true }, true)

-- The signal that `checkSignal` will give, for the four numbers of the `switch`.
abbrev pub signal_type : ℕ → Option SignalType
signal_type signum =
    if signum == sigint
    then some interrupt
    else if signum == sigterm
    then some terminate
    else if signum == sighup
    then some hangup
    else if signum == sigpipe
    then some broken_pipe
    else none

-- One byte into the pipe, if there is one with room; the result is ignored.
unfoldable pub write_byte : ℕ → Option (List ℕ) → Option (List ℕ)
write_byte b none = none
write_byte b (some bytes) =
    if ltb (length bytes) pipe_capacity then some (bytes ++ b ∷ []) else some bytes

unfoldable pub write_signal_to_pipe : ℕ → SignalHandler → SignalHandler
write_signal_to_pipe signum h =
    let written = record h { pipe_fds = write_byte signum h.pipe_fds } in
    if h.initialized
    then elim (signal_type signum) [
      | none ↦ written
      | some s ↦ record written { pending_signal = s }
    ]
    else written

unfoldable pub handle_signal : ℕ → SignalHandler → SignalHandler
handle_signal signum h =
    if signum == sigint
    then write_signal_to_pipe sigint (record h { shutdown_requested = true })
    else if signum == sigterm
    then write_signal_to_pipe sigterm (record h { shutdown_requested = true })
    else if signum == sighup
    then write_signal_to_pipe sighup h
    else if signum == sigpipe
    then write_signal_to_pipe sigpipe h
    else h

-- The pipe is drained, and the pending signal is taken.
unfoldable pub check_signal : SignalHandler → SignalHandler × SignalType
check_signal h = if not h.initialized then (h, no_signal) else (
  record h {
    pipe_fds = elim h.pipe_fds [ none ↦ none | some _ ↦ some [] ];
    pending_signal = no_signal;
  },
  h.pending_signal,
)

unfoldable pub reset : SignalHandler → SignalHandler
reset h = record h { pending_signal = no_signal }

-- The signals that arrive while the program is between two of its steps.
unfoldable pub deliver : List ℕ → SignalHandler → SignalHandler
deliver [] h = h
deliver (signum ∷ more) h = deliver more (handle_signal signum h)
