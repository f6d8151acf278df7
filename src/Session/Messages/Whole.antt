-- ===== src/Session/Messages/Whole.antt =====
-- The streams of a session on whole messages.
use mathlib.Core.List.{append_assoc}
use pgpilot.Base.{
  ℕ, suc, ◌-◌, ◌≤◌, ◌≡◌, refl, ◌∙◌, false, List, [], ◌∷◌, ◌++◌, arith, length, length-append,
  take-append, ltb,
}
use pgpilot.Protocol.Wire.{Wire, ok, Message, frame, frame_header, IsFramed}
use pgpilot.Protocol.Wire.Streams.{read_full-append}
use pgpilot.Protocol.Message.Headers.{
  frame_header-length, header_length-frame_header, header_kind-frame_header, not-short,
  add_four_sub,
}
use pgpilot.Session.Messages.{max_buffered_message, read_body, read_message, query_string}

pub not_less : (a b : ℕ) → b ≤ a → ltb a b ≡ false
not_less a b h = ground arith

module _ {S : Type 0} where
  -- readMessage returns the first message of its input as it stands and leaves the rest, if the body is
  -- within the limit.
  pub read_message-frame :
      (m : Message) (rest : List ℕ) (w : Wire S)
      → IsFramed m
      → length m.body ≤ max_buffered_message
      → w.input ≡ frame m ++ rest
      → read_message w ≡ ok (m.kind, frame m) (record w { input = rest })
  unfolding read_message read_body frame
  read_message-frame m rest w framed small i =
      rw
        (read_full-append (frame_header m) (m.body ++ rest) w 5
          (i ∙ append_assoc (frame_header m) m.body rest) (frame_header-length m))
        (rw
          (
            header_length-frame_header m framed,
            header_kind-frame_header m,
            not-short (length m.body),
            add_four_sub (length m.body),
            not_less max_buffered_message (length m.body) small,
          )
          (rw
            (read_full-append m.body rest (record w { input = m.body ++ rest }) (length m.body) refl
              refl)
            refl))

-- The text between the header and the last byte.
query_string-bytes :
    (a b c d e last : ℕ) (sql : List ℕ)
    → query_string (a ∷ b ∷ c ∷ d ∷ e ∷ (sql ++ (last ∷ []))) ≡ sql
unfolding query_string
query_string-bytes a b c d e last sql =
    rw
      (
        not_less (suc (suc (suc (suc (suc (length (sql ++ (last ∷ [])))))))) 6
            (omega (arith, length-append sql (last ∷ []))),
        short,
      )
      (take-append sql (last ∷ []))
  where
    short : suc (suc (suc (suc (suc (length (sql ++ (last ∷ []))))))) - 1 - 5 ≡ length sql
    short = omega (arith, length-append sql (last ∷ []))

-- The text of a query message is what its body holds before the final byte.
pub query_string-frame :
    (m : Message) (sql : List ℕ) (last : ℕ)
    → m.body ≡ sql ++ (last ∷ [])
    → query_string (frame m) ≡ sql
unfolding frame frame_header
query_string-frame m sql last e = rw e (query_string-bytes _ _ _ _ _ last sql)
