-- ===== src/Ipc/Session/Send.antt =====
-- The write buffer under `schedule_send` and `on_writable` of src/ipc/session_manager.cpp.
use mathlib.Core.List.{append_assoc}
use test_ai_agent.Prelude.{
  ℕ, suc, ◌+◌, ◌^◌, ◌<◌, ◌≤◌, List, [], ◌∷◌, ◌++◌, true, false, ◌≡◌, ◌≢◌, refl, arith, ◌∙◌, ap, sym,
  subst, length, take, drop, ltb, ◌==◌, take-append-drop, drop-append, length-append, Bool-cases,
  inl, inr, ◌⊎◌,
}
use test_ai_agent.Json.{JsonLib, newline}
use test_ai_agent.Ipc.Protocol.Message
use test_ai_agent.Ipc.Protocol.Response.{ResponseMessage}
use test_ai_agent.Ipc.Framing.Parser.{serialize}
use test_ai_agent.Ipc.Framing.Scan.{Bytes}
use test_ai_agent.Ipc.Buffer.Ops.{
  get_read_view, available_for_read, advance_read, advance_write, compact, resize, store,
}
use test_ai_agent.Ipc.Buffer.View.{
  Holds, advance_read-Holds, compact-Holds, resize-Holds, write-Holds,
}
use test_ai_agent.Ipc.Buffer.Sizes.{length-resize, write_pos-resize}
use test_ai_agent.Ipc.Session.Defs.{Session, Errno, again, other, writing, active}
use test_ai_agent.Ipc.Session.Write.{
  Departure, taken, refused, Written, stop_writing, write_loop, on_writable, enqueue,
  response_message, schedule_send,
}

-- If the write buffer holds some bytes and the new size is below 2^63, queueing a text that is not
-- empty puts it and a line feed behind them.
enqueue-Holds :
    (json : Bytes) (s : Session) (q : Bytes)
    → Holds s.write_buffer q
    → json ≢ []
    → s.write_buffer.write_pos + length json + 1 < 2 ^ 63
    → Holds (enqueue json s).write_buffer (q ++ (json ++ newline ∷ []))
unfolding enqueue
enqueue-Holds [] s q h ne lt = absurd (ne refl)
enqueue-Holds (c ∷ json) s q h ne lt =
    let text = (c ∷ json) ++ newline ∷ [] in
    let size = s.write_buffer.write_pos + length (c ∷ json) + 1 in
    let b = resize size s.write_buffer in
    let count : length (c ∷ json) + 1 ≡ length text =
      omega (arith, length-append (c ∷ json) (newline ∷ [])) in
    let room : b.write_pos + length text ≤ length b.bytes =
      omega
        (arith, count, length-resize size s.write_buffer, write_pos-resize size s.write_buffer) in
    let nonempty : (length (c ∷ json) == 0) ≡ false = ground arith in
    rw (nonempty, enqueue)
      (subst (λ n. Holds (advance_write n (store text b)) (q ++ text)) (sym count)
        (write-Holds text b q (resize-Holds size s.write_buffer q h (omega arith) lt) room))

-- If the write buffer holds some bytes and the new size is below 2^63, `schedule_send` puts behind
-- them the JSON text of the response and two line feeds: its own behind that of the message.
pub schedule_send-Holds :
    {Json : Type 0} (J : JsonLib Json) (response : ResponseMessage Json) (s : Session) (q : Bytes)
    → Holds s.write_buffer q
    → s.write_buffer.write_pos + length (serialize J (response_message response)) + 1 < 2 ^ 63
    → Holds
        (schedule_send J response s).write_buffer
        (q ++ (J.dump (Message.to_json J (response_message response)) ++ newline ∷ newline ∷ []))
unfolding schedule_send serialize
schedule_send-Holds J response s q h small =
    let json = J.dump (Message.to_json J (response_message response)) in
    subst (λ text. Holds (schedule_send J response s).write_buffer (q ++ text))
      (append_assoc json (newline ∷ []) (newline ∷ []))
      (enqueue-Holds (json ++ newline ∷ []) s q h
        (λ e. omega (arith, ap length e, length-append json (newline ∷ []))) small)

-- What has left and what is still queued are what was to be sent, in order; unless the session ends,
-- the buffer holds the rest.
pub record Conserves (w : Written) (all : Bytes) : Type 0 where
  pub rest : Bytes
  pub total : w.2 ++ rest ≡ all
  pub queued : (w.1 ≡ false) ⊎ Holds w.0.write_buffer rest

stop-Conserves :
    (e : Errno) (s : Session) (sent q : Bytes)
    → Holds s.write_buffer q
    → Conserves (stop_writing e s sent) (sent ++ q)
unfolding stop_writing
stop-Conserves again s sent q h = record { rest = q; total = refl; queued = inr h }
stop-Conserves (other e) s sent q h = record { rest = q; total = refl; queued = inl refl }

-- Bytes that were taken off the front are counted as sent.
taken-Holds :
    (c : ℕ) (cs left : Bytes) (s : Session) (q : Bytes)
    → Holds s.write_buffer q
    → (c ∷ cs) ++ left ≡ q
    → Holds (compact (advance_read (suc (length cs)) s.write_buffer)) left
taken-Holds c cs left s q h e =
    let room : suc (length cs) ≤ length q =
      omega (arith, ap length e, length-append (c ∷ cs) left) in
    let front : drop (suc (length cs)) q ≡ left =
      ap (drop (suc (length cs))) (sym e) ∙ drop-append (c ∷ cs) left in
    compact-Holds _ left (
      subst (Holds (advance_read (suc (length cs)) s.write_buffer)) front
        (advance_read-Holds (suc (length cs)) s.write_buffer q h room))

write_loop-Conserves :
    (ds : List Departure) (errno : Errno) (s : Session) (sent q : Bytes)
    → Holds s.write_buffer q
    → Conserves (write_loop ds errno s sent) (sent ++ q)
unfolding write_loop
write_loop-Conserves [] errno s sent q h =
    elim (Bool-cases (ltb 0 (available_for_read s.write_buffer))) [
      | inl pending ↦ rw (pending, write_loop) (stop-Conserves again s sent q h)
      | inr empty ↦ rw (empty, write_loop) (record { rest = q; total = refl; queued = inr h })
    ]
write_loop-Conserves (refused e ∷ rest) errno s sent q h =
    elim (Bool-cases (ltb 0 (available_for_read s.write_buffer))) [
      | inl pending ↦ rw (pending, write_loop) (stop-Conserves e s sent q h)
      | inr empty ↦ rw (empty, write_loop) (record { rest = q; total = refl; queued = inr h })
    ]
write_loop-Conserves (taken n ∷ rest) errno s sent q h =
    elim (Bool-cases (ltb 0 (available_for_read s.write_buffer))) [
      | inl pending ↦
          rw (pending, write_loop)
            (counted (write_loop-Conserves rest errno) (take n view) (drop n view)
              (take-append-drop n view ∙ h.view))
      | inr empty ↦ rw (empty, write_loop) (record { rest = q; total = refl; queued = inr h })
    ]
  where
    view : Bytes
    view = get_read_view s.write_buffer

    next : Bytes → ℕ → Bytes → Written
    next got k out =
        write_loop rest errno (record s { write_buffer = compact (advance_read k s.write_buffer) })
          (out ++ got)

    counted :
        ((s' : Session) (out q' : Bytes)
          → Holds s'.write_buffer q'
          → Conserves (write_loop rest errno s' out) (out ++ q'))
        → (got left : Bytes) → got ++ left ≡ q
        → Conserves
            (elim got as (λ _. Written) [
              | [] ↦ stop_writing errno s sent
              | c ∷ cs ↦ next (c ∷ cs) (suc (length cs)) sent
            ])
            (sent ++ q)
    counted ih [] left e = stop-Conserves errno s sent q h
    counted ih (c ∷ cs) left e =
        subst (Conserves (next (c ∷ cs) (suc (length cs)) sent))
          (append_assoc sent (c ∷ cs) left ∙ ap (λ z. sent ++ z) e)
          (ih _ (sent ++ (c ∷ cs)) left (taken-Holds c cs left s q h e))

-- If the write buffer holds some bytes, `on_writable` sends a front part of them in order in every
-- state and whatever each call of `write` accepts, and the rest is still in the buffer unless the
-- session has ended.
pub on_writable-Conserves :
    (ds : List Departure) (errno : Errno) (s : Session) (q : Bytes)
    → Holds s.write_buffer q
    → Conserves (on_writable ds errno s) q
unfolding on_writable
on_writable-Conserves ds errno s q h =
    elim s.state
      as (λ st.
        Conserves
          (elim st as (λ _. Written) [
            | writing ↦ write_loop ds errno s []
            | _ ↦ (record s { state = active }, true, [])
          ])
          q) [
            | writing ↦ write_loop-Conserves ds errno s [] q h
            | _ ↦ record { rest = q; total = refl; queued = inr h }
          ]
