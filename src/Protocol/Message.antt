-- ===== src/Protocol/Message.antt =====
-- internal/protocol/message.go: Relay, which forwards messages one by one and shows each to an
-- inspection function. A nil inspection function is one that accepts and changes nothing.
pub mod Headers
pub mod Forwards
pub mod Frames
use pgpilot.Base.{
  ℕ, zero, suc, ◌-◌, ◌^◌, List, [], ◌∷◌, Option, none, some, length, if◌then◌else◌, leb, ltb,
}
use pgpilot.Protocol.Wire.{
  IoError, eof, Error, io, bad_length, rejected, Wire, Out, ok, err, Io, ◌>>=◌, ◌>>◌, bind_out,
  pure, fail, read_full, write, copy_n, be_uint32,
}

-- 64 KiB
abbrev pub max_inspect_body : ℕ
max_inspect_body = 2 ^ 16

-- Called with the type byte, and with the body or nil; `none` is an error of the callback.
abbrev pub InspectFunc : Type 0 → Type 0
InspectFunc S = S → ℕ → Option (List ℕ) → Option S

abbrev pub inspected : {S : Type 0} → Option S → Io S (Unit {0})
inspected none w = err rejected w
inspected (some s) w = ok tt (record w { seen = s })

unfoldable pub inspect_with : {S : Type 0} → InspectFunc S → ℕ → Option (List ℕ) → Io S (Unit {0})
inspect_with f kind body w = inspected (f w.seen kind body) w

-- The type byte and the length of a five-byte header.
unfoldable pub header_kind : List ℕ → ℕ
header_kind [] = 0
header_kind (t ∷ _) = t

unfoldable pub header_length : List ℕ → ℕ
unfolding be_uint32
header_length (_ ∷ a ∷ b ∷ c ∷ d ∷ _) = be_uint32 a b c d
header_length _ = 0

-- A message small enough to buffer: read, inspect, write.
unfoldable pub relay_buffered : {S : Type 0} → InspectFunc S → ℕ → ℕ → Io S (Unit {0})
relay_buffered f kind n = do body ← read_full n; inspect_with f kind (some body); write body

-- A larger one: inspect with a nil body, stream.
unfoldable pub relay_streamed : {S : Type 0} → InspectFunc S → ℕ → ℕ → Io S (Unit {0})
relay_streamed f kind n = do inspect_with f kind none; copy_n n

-- One round of the loop of Relay, after its header has been read.
unfoldable pub relay_message : {S : Type 0} → InspectFunc S → List ℕ → Io S (Unit {0})
relay_message f header =
    if ltb (header_length header) 4 then fail (bad_length (header_length header)) else do
      write header
      (if leb (header_length header - 4) max_inspect_body
          then relay_buffered f (header_kind header) (header_length header - 4)
          else relay_streamed f (header_kind header) (header_length header - 4))

-- How Relay returns when the header cannot be read.
unfoldable pub clean_end : Error → Option Error
clean_end (io eof) = none
clean_end e = some e

-- What Relay returns: the error, nil at a clean end, and the streams. `none` is a run out of fuel.
abbrev pub Run : Type 0 → Type 0
Run S = Option (Option Error × Wire S)

abbrev pub on_header : {S : Type 0} → Out S (List ℕ) → (List ℕ → Wire S → Run S) → Run S
on_header (ok header w) k = k header w
on_header (err e w) k = some (clean_end e, w)

abbrev pub on_message : {S : Type 0} → Out S (Unit {0}) → (Wire S → Run S) → Run S
on_message (ok _ w) k = k w
on_message (err e w) k = some (some e, w)

unfoldable pub relay_loop : {S : Type 0} → InspectFunc S → ℕ → Wire S → Run S
relay_loop f zero w = none
relay_loop f (suc n) w =
    on_header (read_full 5 w) λ header w'. on_message (relay_message f header w') (relay_loop f n)

-- Each round takes at least five bytes, so the length of the input is fuel enough.
unfoldable pub relay : {S : Type 0} → InspectFunc S → Wire S → Run S
unfolding relay_loop
relay f w = relay_loop f (suc (length w.input)) w
