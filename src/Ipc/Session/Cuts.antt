-- ===== src/Ipc/Session/Cuts.antt =====
-- A stream of messages that is cut in two anywhere, as the reads of a socket cut it.
use mathlib.Core.List.{append_assoc}
use test_ai_agent.Prelude.{
  ℕ, ◌<◌, List, [], ◌∷◌, ◌++◌, ◌≡◌, refl, arith, ◌∙◌, ap, sym, subst, length, All, length-append,
  ◌⊎◌, inl, inr,
}
use test_ai_agent.Json.{JsonLib, JsonLaws, newline}
use test_ai_agent.Ipc.Protocol.Message
use test_ai_agent.Ipc.Protocol.Message.{JsonMessage}
use test_ai_agent.Ipc.Framing.Scan.{Bytes, OneLine}
use test_ai_agent.Ipc.Framing.Parser.{serialize, default_max_message_size}
use test_ai_agent.Ipc.Session.Deliver.{stream, Deliverable}

-- A list that is split in two ways: one of the cuts comes first.
cut :
    (front back a b : Bytes)
    → front ++ back ≡ a ++ b
    → ((d : Bytes) × (front ≡ a ++ d) × (d ++ back ≡ b))
      ⊎ ((x : ℕ) × (d : Bytes) × (front ++ x ∷ d ≡ a))
cut front back [] b e = inl (front, refl, e)
cut [] back (x ∷ a) b e = inr (x, a, refl)
cut (y ∷ front) back (x ∷ a) b e = elim (cut front back a b (cc e)) [
  | inl (d, at, left) ↦ inl (d, cc (e, at), left)
  | inr (z, d, at) ↦ inr (z, d, cc (e, at))
]

-- What comes before the line feed of a line has none.
front-OneLine :
    (front : Bytes) (x : ℕ) (d text : Bytes)
    → OneLine text
    → front ++ x ∷ d ≡ text ++ newline ∷ []
    → OneLine front
front-OneLine [] x d text h e = tt
front-OneLine (y ∷ []) x d [] h e = cc e
front-OneLine (y ∷ z ∷ front) x d [] h e = cc e
front-OneLine (y ∷ front) x d (c ∷ text) h e =
    ((λ same. h.0 (cc (e, same))), front-OneLine front x d text h.1 (cc e))

prefix-OneLine : (front back : Bytes) → OneLine (front ++ back) → OneLine front
prefix-OneLine [] back h = tt
prefix-OneLine (x ∷ front) back h = (h.0, prefix-OneLine front back h.1)

pub two_lines : (text rest : Bytes) → OneLine (text ++ newline ∷ rest) → ⊥
two_lines [] rest h = h.0 refl
two_lines (x ∷ text) rest h = two_lines text rest h.1

-- Bytes of which the parser waits for more.
pub record Waits (bytes : Bytes) : Type 0 where
  pub one_line : OneLine bytes
  pub short : length bytes < default_max_message_size

module _ {Json : Type 0} (J : JsonLib Json) (L : JsonLaws J) where
  -- The front of a stream ends between two messages or inside of one.
  pub record Split (partial front back : Bytes) (ms : List (JsonMessage Json)) : Type 0 where
    pub before : List (JsonMessage Json)
    pub after : List (JsonMessage Json)
    pub open_line : Bytes
    pub parts : ms ≡ before ++ after
    pub front_parts : front ≡ stream J before ++ open_line
    pub back_parts : open_line ++ back ≡ stream J after ++ partial
    pub waits : Waits open_line
    pub deliverable : All (Deliverable J) before × All (Deliverable J) after

  inside :
      (front : Bytes) (x : ℕ) (d : Bytes) (m : JsonMessage Json)
      → Deliverable J m
      → front ++ x ∷ d ≡ serialize J m
      → Waits front
  unfolding serialize
  inside front x d m fine e = record {
    one_line = front-OneLine front x d _ (L.dump_one_line (Message.to_json J m)) e;
    short = omega (arith, fine.size, ap length e, length-append front (x ∷ d));
  }

  pub split :
      (partial front back : Bytes) (ms : List (JsonMessage Json))
      → Waits partial
      → All (Deliverable J) ms
      → front ++ back ≡ stream J ms ++ partial
      → Split partial front back ms
  split partial front back [] waits fine e = record {
    before = [];
    after = [];
    open_line = front;
    parts = refl;
    front_parts = refl;
    back_parts = e;
    waits = record {
      one_line = prefix-OneLine front back (subst OneLine (sym e) waits.one_line);
      short = omega (arith, waits.short, ap length e, length-append front back);
    };
    deliverable = (tt, tt);
  }
  split partial front back (m ∷ ms) waits (d, fine) e =
      let regrouped = e ∙ append_assoc (serialize J m) (stream J ms) partial in
      elim (cut front back (serialize J m) (stream J ms ++ partial) regrouped) [
        | inl (rest, at, left) ↦
            let r = split partial rest back ms waits fine left in
            record {
              before = m ∷ r.before;
              after = r.after;
              open_line = r.open_line;
              parts = ap (λ more. m ∷ more) r.parts;
              front_parts =
                  at
                  ∙ ap (λ z. serialize J m ++ z) r.front_parts
                  ∙ sym (append_assoc (serialize J m) (stream J r.before) r.open_line);
              back_parts = r.back_parts;
              waits = r.waits;
              deliverable = ((d, r.deliverable.0), r.deliverable.1);
            }
        | inr (x, rest, at) ↦ record {
          before = [];
          after = m ∷ ms;
          open_line = front;
          parts = refl;
          front_parts = refl;
          back_parts = e;
          waits = inside front x rest m d at;
          deliverable = (tt, (d, fine));
        }
      ]
