-- ===== src/Session/Messages/Response.antt =====
-- relayResponse on whole messages, up to and including the ReadyForQuery.
use mathlib.Core.List.{append_assoc}
use pgpilot.Base.{
  ℕ, zero, suc, ◌+◌, ◌-◌, ◌≤◌, ◌<◌, ◌≡◌, refl, sym, ap, ◌∙◌, true, false, List, [], ◌∷◌, ◌++◌, none,
  some, arith, length, length-append, All, ltb, nat_beq,
}
use pgpilot.Protocol.Wire.{
  Wire, ok, ◌>>=◌, read_full, Message, frame, frame_header, frames, IsFramed,
}
use pgpilot.Protocol.Wire.Streams.{read_full-append, write_fits, copy_n-append}
use pgpilot.Protocol.Message.Headers.{
  frame_header-length, header_length-frame_header, header_kind-frame_header, frames-length,
  length-frames, write_header, not-short, add_four_sub,
}
use pgpilot.Session.Messages.{
  finish_ready, relay_ready, relay_other, relay_one, response_loop, relay_response,
}
use pgpilot.Session.Messages.Whole.{not_less}

more_than_one : (n : ℕ) → ltb 1 (suc (suc n)) ≡ true
more_than_one n = ground arith

less_one : (n : ℕ) → suc (suc n) - 1 ≡ suc n
less_one n = omega arith

-- A ReadyForQuery with a status and whatever follows it.
abbrev pub ready : ℕ → List ℕ → Message
ready s more = record { kind = b'Z'; body = s ∷ more }

module _ {S : Type 0} where
  -- The streams after some bytes have been forwarded.
  abbrev pub forwarded : List ℕ → List ℕ → Wire S → Wire S
  forwarded bs rest w = record w {
    input = rest;
    output = w.output ++ bs;
    room = w.room - length bs;
  }

  pub forwarded_forwarded :
      (bs cs mid rest : List ℕ) (w : Wire S)
      → ◌≡◌ {A = Wire S} (forwarded cs rest (forwarded bs mid w)) (forwarded (bs ++ cs) rest w)
  forwarded_forwarded bs cs mid rest w =
      λ i. record w { input = rest; output = append_assoc w.output bs cs i; room = fewer i }
    where
      fewer : w.room - length bs - length cs ≡ w.room - length (bs ++ cs)
      fewer = omega (arith, length-append bs cs)

  pub forwarded_frame :
      (m : Message) (rest : List ℕ) (w : Wire S)
      → ◌≡◌ {A = Wire S}
          (record w {
            input = rest;
            output = (w.output ++ frame_header m) ++ m.body;
            room = w.room - 5 - length m.body;
          })
          (forwarded (frame m) rest w)
  unfolding frame
  forwarded_frame m rest w = λ i. record w { input = rest; output = same i; room = fewer i }
    where
      same : (w.output ++ frame_header m) ++ m.body ≡ w.output ++ (frame_header m ++ m.body)
      same = append_assoc w.output (frame_header m) m.body

      fewer : w.room - 5 - length m.body ≡ w.room - length (frame_header m ++ m.body)
      fewer = omega (arith, length-append (frame_header m) m.body, frame_header-length m)

  -- Relaying another message than ReadyForQuery.
  relay_one-other :
      (m : Message) (rest : List ℕ) (w : Wire S)
      → IsFramed m
      → nat_beq m.kind b'Z' ≡ false
      → w.input ≡ frame m ++ rest
      → 5 + length m.body ≤ w.room
      → (read_full 5 >>= relay_one) w ≡ ok none (forwarded (frame m) rest w)
  unfolding relay_one relay_other frame
  relay_one-other m rest w framed other i room =
      rw
        (read_full-append (frame_header m) (m.body ++ rest) w 5
          (i ∙ append_assoc (frame_header m) m.body rest) (frame_header-length m))
        (rw
          (
            header_length-frame_header m framed,
            header_kind-frame_header m,
            not-short (length m.body),
            add_four_sub (length m.body),
            write_header m (record w { input = m.body ++ rest }) (omega arith),
            other,
            copy_n-append m.body rest
                (record w {
                  input = m.body ++ rest;
                  output = w.output ++ frame_header m;
                  room = w.room - 5;
                })
                (length m.body) refl refl (omega arith),
          )
          (ap (λ (v : Wire S). ok none v) (forwarded_frame m rest w)))

  -- The status byte and the rest of the body of a ReadyForQuery.
  finish_ready-body :
      (s : ℕ) (more rest : List ℕ) (w : Wire S)
      → w.input ≡ (s ∷ more) ++ rest
      → suc (length more) ≤ w.room
      → finish_ready (suc (length more)) w ≡ ok (s ∷ []) (forwarded (s ∷ more) rest w)
  unfolding finish_ready
  finish_ready-body s [] rest w i room =
      rw
        (
          read_full-append (s ∷ []) rest w 1 i refl,
          write_fits (s ∷ []) (record w { input = rest }) room,
        )
        refl
  finish_ready-body s (b ∷ more) rest w i room =
      rw (read_full-append (s ∷ []) ((b ∷ more) ++ rest) w 1 i refl) (
        rw
          (
            write_fits (s ∷ []) (record w { input = (b ∷ more) ++ rest }) (omega arith),
            more_than_one (length more),
            less_one (length more),
            copy_n-append (b ∷ more) rest
                (record w {
                  input = (b ∷ more) ++ rest;
                  output = w.output ++ (s ∷ []);
                  room = w.room - 1;
                })
                (suc (length more)) refl refl (omega arith),
          )
          (ap (λ (v : Wire S). ok (s ∷ []) v) same))
    where
      same :
          ◌≡◌ {A = Wire S}
            (record w {
              input = rest;
              output = (w.output ++ (s ∷ [])) ++ (b ∷ more);
              room = w.room - 1 - suc (length more);
            })
            (forwarded (s ∷ b ∷ more) rest w)
      same = λ i. record w {
        input = rest;
        output = append_assoc w.output (s ∷ []) (b ∷ more) i;
        room = fewer i;
      }
        where
          fewer : w.room - 1 - suc (length more) ≡ w.room - suc (suc (length more))
          fewer = omega arith

  relay_one-ready :
      (s : ℕ) (more rest : List ℕ) (w : Wire S)
      → IsFramed (ready s more)
      → w.input ≡ frame (ready s more) ++ rest
      → 6 + length more ≤ w.room
      → (read_full 5 >>= relay_one) w ≡ ok (some s) (forwarded (frame (ready s more)) rest w)
  unfolding relay_one relay_ready frame
  relay_one-ready s more rest w framed i room =
      rw
        (read_full-append (frame_header (ready s more)) ((s ∷ more) ++ rest) w 5
          (i ∙ append_assoc (frame_header (ready s more)) (s ∷ more) rest)
          (frame_header-length (ready s more)))
        (rw
          (
            header_length-frame_header (ready s more) framed,
            header_kind-frame_header (ready s more),
            not-short (suc (length more)),
            add_four_sub (suc (length more)),
            write_header (ready s more) (record w { input = (s ∷ more) ++ rest }) (omega arith),
            not_less (suc (length more)) 1 (omega arith),
            finish_ready-body s more rest
                (record w {
                  input = (s ∷ more) ++ rest;
                  output = w.output ++ frame_header (ready s more);
                  room = w.room - 5;
                })
                refl (omega arith),
          )
          (ap (λ (v : Wire S). ok (some s) v) (forwarded_frame (ready s more) rest w)))

  response_loop-frames :
      (ms : List Message) (s : ℕ) (more rest : List ℕ) (n : ℕ) (w : Wire S)
      → length ms < n
      → All IsFramed ms
      → All (λ (m : Message). nat_beq m.kind b'Z' ≡ false) ms
      → IsFramed (ready s more)
      → w.input ≡ frames ms ++ (frame (ready s more) ++ rest)
      → length (frames ms) + (6 + length more) ≤ w.room
      → response_loop n w ≡ some (ok s (forwarded (frames ms ++ frame (ready s more)) rest w))
  unfolding response_loop frames
  response_loop-frames ms s more rest zero w lt a o f i room = absurd (omega arith)
  response_loop-frames [] s more rest (suc n) w lt a o f i room =
      rw (relay_one-ready s more rest w f i (omega arith), response_loop) refl
  response_loop-frames (m ∷ ms) s more rest (suc n) w lt a o f i room =
      rw
        (
          relay_one-other m (frames ms ++ (frame (ready s more) ++ rest)) w a.0 o.0
              (i ∙ append_assoc (frame m) (frames ms) _) (omega (arith, frames-length m ms)),
          response_loop,
        )
        (response_loop-frames ms s more rest n
            (forwarded (frame m) (frames ms ++ (frame (ready s more) ++ rest)) w) (omega arith) a.1
            o.1 f refl (omega (arith, frames-length m ms, length-append (frame m) (frames ms)))
          ∙ ap (λ (v : Wire S). some (ok s v))
              (forwarded_forwarded (frame m) (frames ms ++ frame (ready s more))
                  (frames ms ++ (frame (ready s more) ++ rest)) rest w
                ∙ ap (λ bs. forwarded bs rest w)
                    (sym (append_assoc (frame m) (frames ms) (frame (ready s more))))))

  -- relayResponse on other messages followed by a ReadyForQuery: it returns the status, it has written
  -- exactly those messages and the ReadyForQuery, and it has read nothing after it.
  pub relay_response-frames :
      (ms : List Message) (s : ℕ) (more rest : List ℕ) (w : Wire S)
      → All IsFramed ms
      → All (λ (m : Message). nat_beq m.kind b'Z' ≡ false) ms
      → IsFramed (ready s more)
      → w.input ≡ frames ms ++ (frame (ready s more) ++ rest)
      → length (frames ms) + (6 + length more) ≤ w.room
      → relay_response w ≡ some (ok s (forwarded (frames ms ++ frame (ready s more)) rest w))
  unfolding relay_response
  relay_response-frames ms s more rest w a o f i room =
      response_loop-frames ms s more rest (suc (length w.input)) w
        (omega (
          arith,
          length-frames ms,
          ap (λ (l : List ℕ). length l) i,
          length-append (frames ms) (frame (ready s more) ++ rest),
        ))
        a o f i room
