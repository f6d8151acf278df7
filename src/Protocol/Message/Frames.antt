-- ===== src/Protocol/Message/Frames.antt =====
-- Relay on a stream of whole messages: each is forwarded and shown once to the callback, in order.
use mathlib.Core.List.{append_assoc, append-nil}
use pgpilot.Base.{
  ℕ, zero, suc, ◌+◌, ◌-◌, ◌≤◌, ◌<◌, ◌≡◌, refl, ap, ◌∙◌, inl, inr, Bool, true, false, Option-cases,
  List, [], ◌∷◌, ◌++◌, Option, none, some, arith, length, length-append, leb, All, if◌then◌else◌,
}
use pgpilot.Protocol.Wire.{
  eof, io, Wire, ok, err, short_read, read_full, Message, frame, frame_header, frames, IsFramed,
}
use pgpilot.Protocol.Wire.Streams.{read_full-append, write_fits, copy_n-append}
use pgpilot.Protocol.Message.Headers.{
  frame_header-length, header_length-frame_header, header_kind-frame_header, frames-length,
  length-frames, write_header, not-short, add_four_sub,
}
use pgpilot.Protocol.Message.{
  InspectFunc, inspect_with, relay_buffered, relay_streamed, relay_message, relay_loop, relay,
  clean_end, max_inspect_body,
}

-- The body that the callback is shown: nil above the inspection limit.
abbrev pub shown : Message → Option (List ℕ)
shown m = if leb (length m.body) max_inspect_body then some m.body else none

abbrev pub advance {ℓ} : {S : Type ℓ} → Option S → (S → Option S) → Option S
advance none k = none
advance (some s) k = k s

-- The callback run over the messages one after the other.
abbrev pub inspect_all : {S : Type 0} → InspectFunc S → S → List Message → Option S
inspect_all f s [] = some s
inspect_all f s (m ∷ ms) = advance (f s m.kind (shown m)) λ s'. inspect_all f s' ms

read_full_empty :
    {S : Type 0} (w : Wire S)
    → w.input ≡ []
    → read_full 5 w ≡ err (io w.ending) (record w { input = [] })
unfolding read_full short_read
read_full_empty w e = rw e refl

clean_end_eof : clean_end (io eof) ≡ none
unfolding clean_end
clean_end_eof = refl

module _ {S : Type 0} (f : InspectFunc S) where
  -- The streams after a message has gone through.
  abbrev passed : Message → List ℕ → S → Wire S → Wire S
  passed m rest s w = record w {
    input = rest;
    output = w.output ++ m.body;
    room = w.room - length m.body;
    seen = s;
  }

  relay_buffered-passed :
      (m : Message) (rest : List ℕ) (s : S) (w : Wire S)
      → w.input ≡ m.body ++ rest
      → length m.body ≤ w.room
      → f w.seen m.kind (some m.body) ≡ some s
      → relay_buffered f m.kind (length m.body) w ≡ ok tt (passed m rest s w)
  unfolding relay_buffered inspect_with
  relay_buffered-passed m rest s w e room h =
      rw (read_full-append m.body rest w (length m.body) e refl)
        (rw h (write_fits m.body (record w { input = rest; seen = s }) room))

  relay_streamed-passed :
      (m : Message) (rest : List ℕ) (s : S) (w : Wire S)
      → w.input ≡ m.body ++ rest
      → length m.body ≤ w.room
      → f w.seen m.kind none ≡ some s
      → relay_streamed f m.kind (length m.body) w ≡ ok tt (passed m rest s w)
  unfolding relay_streamed inspect_with
  relay_streamed-passed m rest s w e room h =
      rw h (copy_n-append m.body rest (record w { seen = s }) (length m.body) e refl room)

  relay_message-passed :
      (m : Message) (rest : List ℕ) (s : S) (w : Wire S)
      → IsFramed m
      → w.input ≡ m.body ++ rest
      → 5 + length m.body ≤ w.room
      → f w.seen m.kind (shown m) ≡ some s
      → relay_message f (frame_header m) w
        ≡ ok tt
            (passed m rest s (record w { output = w.output ++ frame_header m; room = w.room - 5 }))
  unfolding relay_message
  relay_message-passed m rest s w framed e room h =
      rw
        (
          header_length-frame_header m framed,
          header_kind-frame_header m,
          not-short (length m.body),
          add_four_sub (length m.body),
          write_header m w (omega arith),
        )
        (body (leb (length m.body) max_inspect_body) refl)
    where
      sent : Wire S
      sent = record w { output = w.output ++ frame_header m; room = w.room - 5 }

      body :
          (b : Bool)
          → leb (length m.body) max_inspect_body ≡ b
          → (if b
                then relay_buffered f m.kind (length m.body)
                else relay_streamed f m.kind (length m.body))
              sent
            ≡ ok tt (passed m rest s sent)
      body true c = relay_buffered-passed m rest s sent e (omega arith) (rw c at h)
      body false c = relay_streamed-passed m rest s sent e (omega arith) (rw c at h)

  -- One round of the loop on a whole message.
  relay_loop_step :
      (m : Message) (rest : List ℕ) (n : ℕ) (s : S) (w : Wire S)
      → IsFramed m
      → w.input ≡ frame m ++ rest
      → 5 + length m.body ≤ w.room
      → f w.seen m.kind (shown m) ≡ some s
      → relay_loop f (suc n) w
        ≡ relay_loop f n
            (passed m rest s (record w { output = w.output ++ frame_header m; room = w.room - 5 }))
  unfolding relay_loop frame
  relay_loop_step m rest n s w framed i room h =
      rw
        (
          read_full-append (frame_header m) (m.body ++ rest) w 5
              (i ∙ append_assoc (frame_header m) m.body rest) (frame_header-length m),
          relay_loop,
        )
        (rw (relay_message-passed m rest s (record w { input = m.body ++ rest }) framed refl room h)
          refl)

  abbrev after_all : List Message → S → Wire S → Wire S
  after_all ms s w = record w {
    input = [];
    output = w.output ++ frames ms;
    room = w.room - length (frames ms);
    seen = s;
  }

  after_all-cons :
      (m : Message) (ms : List Message) (s s' : S) (w : Wire S)
      → after_all ms s (
          passed m
            (frames ms)
            s'
            (record w { output = w.output ++ frame_header m; room = w.room - 5 }))
        ≡ after_all (m ∷ ms) s w
  unfolding frames frame
  after_all-cons m ms s s' w =
      λ i. record w { input = []; output = assoc i; room = fewer i; seen = s }
    where
      assoc :
          ((w.output ++ frame_header m) ++ m.body) ++ frames ms
          ≡ w.output ++ ((frame_header m ++ m.body) ++ frames ms)
      assoc = simp append_assoc

      fewer :
          w.room - 5 - length m.body - length (frames ms)
          ≡ w.room - length ((frame_header m ++ m.body) ++ frames ms)
      fewer = omega (
        arith,
        length-append (frame_header m ++ m.body) (frames ms),
        length-append (frame_header m) m.body,
        frame_header-length m,
      )

  relay_loop-frames :
      (ms : List Message) (n : ℕ) (s : S) (w : Wire S)
      → length ms < n
      → All IsFramed ms
      → w.input ≡ frames ms
      → w.ending ≡ eof
      → length (frames ms) ≤ w.room
      → inspect_all f w.seen ms ≡ some s
      → relay_loop f n w ≡ some (none, after_all ms s w)
  unfolding frames relay_loop
  relay_loop-frames ms zero s w n framed i e room h = absurd (omega arith)
  relay_loop-frames [] (suc n) s w lt framed i e room h =
      rw (read_full_empty w i, relay_loop) (ground (arith, append-nil w.output, clean_end_eof))
  relay_loop-frames (m ∷ ms) (suc n) s w lt framed i e room h =
      elim (Option-cases (f w.seen m.kind (shown m))) [
        | inl c ↦ absurd (cc (rw c at h))
        | inr (s', c) ↦
            relay_loop_step m (frames ms) n s' w framed.0 i (omega (arith, frames-length m ms)) c
            ∙ relay_loop-frames ms n s
                (passed m (frames ms) s'
                  (record w { output = w.output ++ frame_header m; room = w.room - 5 }))
                (omega arith) framed.1 refl e (omega (arith, frames-length m ms)) (rw c at h)
            ∙ ap (λ (v : Wire S). some (none, v)) (after_all-cons m ms s s' w)
      ]

  -- On whole messages, with room for them and a callback that accepts them, Relay returns nil, has
  -- written exactly those messages, and has run the callback over them in order.
  pub relay-frames :
      (ms : List Message) (s : S) (w : Wire S)
      → All IsFramed ms
      → w.input ≡ frames ms
      → w.ending ≡ eof
      → length (frames ms) ≤ w.room
      → inspect_all f w.seen ms ≡ some s
      → relay f w
        ≡ some (
          none,
          record w {
            input = [];
            output = w.output ++ frames ms;
            room = w.room - length (frames ms);
            seen = s;
          },
        )
  unfolding relay
  relay-frames ms s w framed i e room h =
      relay_loop-frames ms (suc (length w.input)) s w
        (omega (arith, length-frames ms, ap (λ (l : List ℕ). length l) i)) framed i e room h
