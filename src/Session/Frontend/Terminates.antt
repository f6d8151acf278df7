-- ===== src/Session/Frontend/Terminates.antt =====
-- relayFrontend on whole messages up to a Terminate.
use mathlib.Core.List.{append_assoc, append-nil}
use pgpilot.Base.{
  ℕ, zero, suc, ◌+◌, ◌-◌, ◌≤◌, ◌<◌, ◌≡◌, refl, ap, ◌∙◌, true, false, List, [], ◌∷◌, ◌++◌, none,
  some, arith, length, length-append, All, nat_beq,
}
use pgpilot.Protocol.Wire.{Wire, ok, Message, frame, frame_header, frames, IsFramed}
use pgpilot.Protocol.Wire.Streams.{read_full-append, copy_n-append}
use pgpilot.Protocol.Message.{header_kind}
use pgpilot.Protocol.Message.Headers.{
  frame_header-length, header_length-frame_header, header_kind-frame_header, frames-length,
  length-frames, write_header, not-short, add_four_sub,
}
use pgpilot.Session.Messages.Response.{forwarded, forwarded_frame, forwarded_forwarded}
use pgpilot.Session.Frontend.{forward_one, frontend_loop, relay_frontend}

-- The client's Terminate, with whatever body.
abbrev pub terminate : List ℕ → Message
terminate body = record { kind = b'X'; body = body }

module _ {S : Type 0} where
  forward_one-frame :
      (m : Message) (rest : List ℕ) (w : Wire S)
      → IsFramed m
      → nat_beq m.kind b'X' ≡ false
      → w.input ≡ m.body ++ rest
      → 5 + length m.body ≤ w.room
      → forward_one (frame_header m) w ≡ ok false (forwarded (frame m) rest w)
  unfolding forward_one
  forward_one-frame m rest w framed other i room =
      rw
        (
          header_length-frame_header m framed,
          header_kind-frame_header m,
          other,
          not-short (length m.body),
          add_four_sub (length m.body),
          write_header m w (omega arith),
          copy_n-append m.body rest
              (record w { output = w.output ++ frame_header m; room = w.room - 5 }) (length m.body)
              i refl (omega arith),
        )
        (ap (λ (v : Wire S). ok false v) (forwarded_frame m rest w))

  forward_one-terminate :
      (body : List ℕ) (w : Wire S) → forward_one (frame_header (terminate body)) w ≡ ok true w
  unfolding forward_one header_kind frame_header
  forward_one-terminate body w = refl

  frontend_loop-frames :
      (ms : List Message) (body rest : List ℕ) (n : ℕ) (w : Wire S)
      → length ms < n
      → All IsFramed ms
      → All (λ (m : Message). nat_beq m.kind b'X' ≡ false) ms
      → w.input ≡ frames ms ++ (frame_header (terminate body) ++ rest)
      → length (frames ms) ≤ w.room
      → frontend_loop n w ≡ some (true, none, forwarded (frames ms) rest w)
  unfolding frontend_loop frames frame
  frontend_loop-frames ms body rest zero w lt a o i room = absurd (omega arith)
  frontend_loop-frames [] body rest (suc n) w lt a o i room =
      rw
        (
          read_full-append (frame_header (terminate body)) rest w 5 i
              (frame_header-length (terminate body)),
          forward_one-terminate body (record w { input = rest }),
        )
        (ground (arith, append-nil w.output))
  frontend_loop-frames (m ∷ ms) body rest (suc n) w lt a o i room =
      rw
        (
          read_full-append (frame_header m)
              (m.body ++ (frames ms ++ (frame_header (terminate body) ++ rest))) w 5
              (i
                ∙ append_assoc (frame m) (frames ms) (frame_header (terminate body) ++ rest)
                ∙ append_assoc (frame_header m) m.body
                    (frames ms ++ (frame_header (terminate body) ++ rest)))
              (frame_header-length m),
          forward_one-frame m (frames ms ++ (frame_header (terminate body) ++ rest))
              (record w {
                input = m.body ++ (frames ms ++ (frame_header (terminate body) ++ rest));
              })
              a.0 o.0 refl (omega (arith, frames-length m ms)),
        )
        (frontend_loop-frames ms body rest n
            (forwarded (frame m) (frames ms ++ (frame_header (terminate body) ++ rest)) w)
            (omega arith) a.1 o.1 refl (omega (arith, length-append (frame m) (frames ms)))
          ∙ ap (λ (v : Wire S). some (true, none, v))
              (forwarded_forwarded (frame m) (frames ms)
                (frames ms ++ (frame_header (terminate body) ++ rest)) rest w))

  -- relayFrontend on a client's messages and its Terminate: it reports a clean termination, has
  -- forwarded exactly those messages, and has not forwarded the Terminate.
  pub relay_frontend-frames :
      (ms : List Message) (body rest : List ℕ) (w : Wire S)
      → All IsFramed ms
      → All (λ (m : Message). nat_beq m.kind b'X' ≡ false) ms
      → w.input ≡ frames ms ++ (frame_header (terminate body) ++ rest)
      → length (frames ms) ≤ w.room
      → relay_frontend w ≡ some (true, none, forwarded (frames ms) rest w)
  unfolding relay_frontend
  relay_frontend-frames ms body rest w a o i room =
      frontend_loop-frames ms body rest (suc (length w.input)) w
        (omega (
          arith,
          length-frames ms,
          ap (λ (l : List ℕ). length l) i,
          length-append (frames ms) (frame_header (terminate body) ++ rest),
        ))
        a o i room
