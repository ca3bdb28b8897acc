-- ===== src/Cli/Exchange.antt =====
-- What the two loops of `sendMessage` do with the bytes.
use mathlib.Core.List.{append_assoc, append-nil}
use test_ai_agent.Prelude.{
  ℕ, zero, suc, true, false, List, [], ◌∷◌, ◌++◌, Option, some, ◌≡◌, ◌≢◌, refl, arith, ◌∙◌, ap, sym,
  subst, length, length-append, take, drop, take-append-drop, inl, inr, ◌⊎◌,
}
use test_ai_agent.Prelude.Outcome.{Outcome, returns}
use test_ai_agent.Json.{newline}
use test_ai_agent.Ipc.Framing.Scan.{Bytes, OneLine}
use test_ai_agent.Cli.Socket.{
  Sent, sent, send_interrupted, send_failed, send_loop, Received, received, recv_interrupted,
  recv_loop, ends_line, drop_last,
}

-- What left is the front of the message; all of it, where the loop returned.
pub record Delivers (r : Option (Outcome (Unit {0})) × Bytes) (message : Bytes) : Type 0 where
  pub rest : Bytes
  pub total : r.1 ++ rest ≡ message
  pub whole : (rest ≡ []) ⊎ (r.0 ≢ some (returns tt))

send_loop_lem :
    (calls : List Sent) (left out : Bytes) → Delivers (send_loop calls left out) (out ++ left)
unfolding send_loop
send_loop_lem calls [] out = record { rest = []; total = refl; whole = inl refl }
send_loop_lem [] (b ∷ bs) out = record { rest = b ∷ bs; total = refl; whole = inr (λ e. cc e) }
send_loop_lem (send_interrupted ∷ calls) (b ∷ bs) out = send_loop_lem calls (b ∷ bs) out
send_loop_lem (send_failed what ∷ calls) (b ∷ bs) out = record {
  rest = b ∷ bs;
  total = refl;
  whole = inr (λ e. cc e);
}
send_loop_lem (sent zero ∷ calls) (b ∷ bs) out = record {
  rest = b ∷ bs;
  total = refl;
  whole = inr (λ e. cc e);
}
send_loop_lem (sent (suc n) ∷ calls) (b ∷ bs) out =
    subst (Delivers (send_loop calls (drop n bs) (out ++ b ∷ take n bs)))
      (append_assoc out (b ∷ take n bs) (drop n bs)
        ∙ ap (λ z. out ++ b ∷ z) (take-append-drop n bs))
      (send_loop_lem calls (drop n bs) (out ++ b ∷ take n bs))

-- Whatever each call of `send` takes, the bytes of a message leave in order and none twice, and
-- where the loop returns without an exception all have left.
pub send_loop-Delivers :
    (calls : List Sent) (message : Bytes) → Delivers (send_loop calls message []) message
send_loop-Delivers calls message = send_loop_lem calls message []

-- The calls give these bytes, in pieces of one byte or more and with interruptions.
pub data Gives : List Received → Bytes → Type 0 where
  nothing : Gives [] []
  interrupted :
      (calls : List Received) (bytes : Bytes)
      → Gives calls bytes
      → Gives (recv_interrupted ∷ calls) bytes
  piece :
      (c : ℕ) (cs : Bytes) (calls : List Received) (bytes : Bytes)
      → Gives calls bytes
      → Gives (received (c ∷ cs) ∷ calls) ((c ∷ cs) ++ bytes)

ends_line-append : (line : Bytes) → ends_line (line ++ newline ∷ []) ≡ true
ends_line-append [] = refl
ends_line-append (a ∷ []) = refl
ends_line-append (a ∷ b ∷ line) = ends_line-append (b ∷ line)

drop_last-append : (line : Bytes) → drop_last (line ++ newline ∷ []) ≡ line
drop_last-append [] = refl
drop_last-append (a ∷ []) = refl
drop_last-append (a ∷ b ∷ line) = ap (λ z. a ∷ z) (drop_last-append (b ∷ line))

ends_line-OneLine : (line : Bytes) → OneLine line → ends_line line ≡ false
ends_line-OneLine [] h = refl
ends_line-OneLine (a ∷ []) h = ground (arith, h.0)
ends_line-OneLine (a ∷ b ∷ line) h = ends_line-OneLine (b ∷ line) h.1

-- What stands before the last byte of a line with its line feed.
front-OneLine :
    (xs : Bytes) (b : ℕ) (bs line : Bytes)
    → xs ++ b ∷ bs ≡ line ++ newline ∷ []
    → OneLine line
    → OneLine xs
front-OneLine [] b bs line e h = tt
front-OneLine (x ∷ []) b bs [] e h = cc e
front-OneLine (x ∷ y ∷ xs) b bs [] e h = cc e
front-OneLine (x ∷ xs) b bs (l ∷ line) e h =
    let heads : x ≡ l = cc e in
    let tails : xs ++ b ∷ bs ≡ line ++ newline ∷ [] = cc e in
    (subst (λ z. z ≢ newline) (sym heads) h.0, front-OneLine xs b bs line tails h.1)

recv_loop_lem :
    (calls later : List Received) (response bytes line : Bytes)
    → Gives calls bytes
    → OneLine line
    → bytes ≢ []
    → response ++ bytes ≡ line ++ newline ∷ []
    → recv_loop (calls ++ later) response ≡ some (returns line)
unfolding recv_loop
recv_loop_lem _ later response _ line nothing h ne e = absurd (ne refl)
recv_loop_lem _ later response _ line (interrupted calls bytes g) h ne e =
    recv_loop_lem calls later response bytes line g h ne e
recv_loop_lem _ later response _ line (piece c cs calls [] g) h ne e =
    let all : response ++ c ∷ cs ≡ line ++ newline ∷ [] =
      ap (λ z. response ++ c ∷ z) (sym (append-nil cs)) ∙ e in
    rw (recv_loop, all, ends_line-append line, drop_last-append line) refl
recv_loop_lem _ later response _ line (piece c cs calls (b ∷ bs) g) h ne e =
    let all : (response ++ c ∷ cs) ++ b ∷ bs ≡ line ++ newline ∷ [] =
      append_assoc response (c ∷ cs) (b ∷ bs) ∙ e in
    let open_ =
      ends_line-OneLine (response ++ c ∷ cs) (front-OneLine (response ++ c ∷ cs) b bs line all h) in
    rw (recv_loop, open_)
      (recv_loop_lem calls later (response ++ c ∷ cs) (b ∷ bs) line g h (λ x. cc x) all)

-- If the calls of `recv` give a line and its line feed in pieces of one byte or more, with
-- interruptions, the client returns the line without its line feed and makes no call after the
-- last piece.
pub recv_loop-line :
    (calls later : List Received) (line : Bytes)
    → OneLine line
    → Gives calls (line ++ newline ∷ [])
    → recv_loop (calls ++ later) [] ≡ some (returns line)
recv_loop-line calls later line h g =
    recv_loop_lem calls later [] (line ++ newline ∷ []) line g h
      (λ e. omega (arith, ap length e, length-append line (newline ∷ []))) refl
