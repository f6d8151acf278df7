-- ===== src/Tests/Protocol.antt =====
-- Runs of internal/protocol/message.go and of the streams of internal/proxy/session.go.
use pgpilot.Base.{
  ℕ, ◌+◌, ◌-◌, ◌≤◌, ◌≡◌, refl, List, [], ◌∷◌, ◌++◌, Option, none, some, arith, length, All,
}
use pgpilot.Protocol.Wire.{eof, Error, Wire, ok, Message, frame, frames, frame_header, IsFramed}
use pgpilot.Protocol.Message.{InspectFunc, relay}
use pgpilot.Protocol.Message.Forwards.{relay-faithful}
use pgpilot.Protocol.Message.Frames.{relay-frames}
use pgpilot.Session.Messages.{read_message, query_string, relay_response}
use pgpilot.Session.Messages.Whole.{read_message-frame, query_string-frame}
use pgpilot.Session.Messages.Response.{ready, forwarded, relay_response-frames}

-- The callback counts the messages.
abbrev counting : InspectFunc ℕ
counting n kind body = some (n + 1)

-- A command completion, and a ReadyForQuery that says idle.
abbrev complete : Message
complete = record { kind = b'C'; body = b'O' ∷ b'K' ∷ 0 ∷ [] }

abbrev answer : List Message
answer = complete ∷ ready b'I' [] ∷ []

abbrev wire : List ℕ → Wire ℕ
wire bytes = record { input = bytes; ending = eof; output = []; room = 1000; seen = 0 }

answer-IsFramed : All IsFramed answer
answer-IsFramed = (omega arith, (omega arith, tt))

answer_fits : length (frames answer) ≤ 1000
unfolding frames frame frame_header
answer_fits = omega arith

relay-frames_example :
    relay counting (wire (frames answer))
    ≡ some (
      none,
      record {
        input = [];
        ending = eof;
        output = [] ++ frames answer;
        room = (wire []).room - length (frames answer);
        seen = 2;
      },
    )
relay-frames_example =
    relay-frames counting answer 2 (wire (frames answer)) answer-IsFramed refl refl answer_fits refl

-- A truncated message.
relay-faithful_example :
    (e : Option Error) × (w : Wire ℕ) × (relay counting (wire (b'C' ∷ 0 ∷ [])) ≡ some (e, w))
    × (rest : List ℕ) × (w.output ++ rest ≡ [] ++ (b'C' ∷ 0 ∷ []))
    × (e ≡ none → rest ≡ [])
relay-faithful_example = relay-faithful counting (wire (b'C' ∷ 0 ∷ []))

read_message-frame_run :
    read_message (wire (frame complete ++ (b'X' ∷ [])))
    ≡ ok (b'C', frame complete) (wire (b'X' ∷ []))
read_message-frame_run =
    read_message-frame complete (b'X' ∷ []) (wire (frame complete ++ (b'X' ∷ []))) (omega arith)
      (omega arith) refl

-- SHOW as a query message.
abbrev show : Message
show = record { kind = b'Q'; body = b'S' ∷ b'H' ∷ b'O' ∷ b'W' ∷ 0 ∷ [] }

query_string-frame_run : query_string (frame show) ≡ b'S' ∷ b'H' ∷ b'O' ∷ b'W' ∷ []
query_string-frame_run = query_string-frame show (b'S' ∷ b'H' ∷ b'O' ∷ b'W' ∷ []) 0 refl

one_fits : length (frames (complete ∷ [])) + (6 + 0) ≤ 1000
unfolding frames frame frame_header
one_fits = omega arith

relay_response-frames_example :
    relay_response (wire (frames (complete ∷ []) ++ (frame (ready b'I' []) ++ (b'N' ∷ []))))
    ≡ some (
        ok b'I' (
          forwarded
            (frames (complete ∷ []) ++ frame (ready b'I' []))
            (b'N' ∷ [])
            (wire (frames (complete ∷ []) ++ (frame (ready b'I' []) ++ (b'N' ∷ []))))))
relay_response-frames_example =
    relay_response-frames (complete ∷ []) b'I' [] (b'N' ∷ [])
      (wire (frames (complete ∷ []) ++ (frame (ready b'I' []) ++ (b'N' ∷ [])))) (omega arith, tt)
      (refl, tt) (omega arith) refl one_fits
