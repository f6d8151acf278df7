-- ===== src/Protocol/Message/Headers.antt =====
-- The header of a framed message, as Relay and the session read and write it.
use pgpilot.Base.{
  ℕ, ◌+◌, ◌-◌, ◌≤◌, ◌≡◌, refl, ◌∙◌, false, List, [], ◌∷◌, ◌++◌, arith, length, length-append, ltb,
}
use pgpilot.Protocol.Wire.{
  Wire, ok, write, Message, frame, frame_header, frames, IsFramed, be_uint32_bytes,
}
use pgpilot.Protocol.Wire.Streams.{write_fits}
use pgpilot.Protocol.Message.{header_length, header_kind}

pub frame_header-length : (m : Message) → length (frame_header m) ≡ 5
unfolding frame_header
frame_header-length m = refl

pub header_length-frame_header :
    (m : Message) → IsFramed m → header_length (frame_header m) ≡ length m.body + 4
unfolding header_length frame_header
header_length-frame_header m h = be_uint32_bytes (length m.body + 4) h

pub header_kind-frame_header : (m : Message) → header_kind (frame_header m) ≡ m.kind
unfolding header_kind frame_header
header_kind-frame_header m = refl

pub frames-length :
    (m : Message) (ms : List Message)
    → length (frames (m ∷ ms)) ≡ 5 + length m.body + length (frames ms)
unfolding frames frame
frames-length m ms = omega (
  arith,
  length-append (frame_header m ++ m.body) (frames ms),
  length-append (frame_header m) m.body,
  frame_header-length m,
)

pub length-frames : (ms : List Message) → length ms ≤ length (frames ms)
length-frames [] = omega arith
length-frames (m ∷ ms) = omega (arith, frames-length m ms, length-frames ms)

pub write_header :
    {S : Type 0} (m : Message) (w : Wire S)
    → 5 ≤ w.room
    → write (frame_header m) w
      ≡ ok tt (record w { output = w.output ++ frame_header m; room = w.room - 5 })
write_header m w h =
    write_fits (frame_header m) w (omega (arith, frame_header-length m))
    ∙ rw (frame_header-length m)

pub not-short : (n : ℕ) → ltb (n + 4) 4 ≡ false
not-short n = ground arith

pub add_four_sub : (n : ℕ) → n + 4 - 4 ≡ n
add_four_sub n = omega arith
