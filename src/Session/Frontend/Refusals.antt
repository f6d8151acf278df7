-- ===== src/Session/Frontend/Refusals.antt =====
-- negotiateStartup refuses each request for encryption and returns the first other packet.
use mathlib.Core.List.{append_assoc, append-nil}
use pgpilot.Base.{
  ℕ, zero, suc, ◌+◌, ◌-◌, ◌≤◌, ◌<◌, ◌≡◌, refl, ap, ◌∙◌, ◌||◌, Bool, true, false, List, [], ◌∷◌,
  ◌++◌, some, arith, length, ltb,
}
use pgpilot.Protocol.Wire.{Wire, ok}
use pgpilot.Protocol.Wire.Streams.{read_full-append, write_fits}
use pgpilot.Session.Frontend.{
  StartupPacket, is_ssl_request, is_gss_enc_request, leading_uint32, startup_body,
  read_startup_packet, answer_or_return, negotiate_startup, max_startup_packet_length,
}

-- A packet of a header and a body.
abbrev pub packet : List ℕ → List ℕ → StartupPacket
packet header body = record { raw = header ++ body; code = leading_uint32 body }

-- A header that announces the body, within the limits.
pub record IsPacket (header body : List ℕ) : Type 0 where
  pub four : length header ≡ 4
  pub announced : leading_uint32 header ≡ 4 + length body
  pub has_code : 4 ≤ length body
  pub within : 4 + length body ≤ max_startup_packet_length

-- The bytes of an SSLRequest (`true`) and a GSSENCRequest.
abbrev pub request_code : Bool → List ℕ
request_code true = 4 ∷ 210 ∷ 22 ∷ 47 ∷ []
request_code false = 4 ∷ 210 ∷ 22 ∷ 48 ∷ []

abbrev pub request_header : List ℕ
request_header = 0 ∷ 0 ∷ 0 ∷ 8 ∷ []

abbrev pub requests : List Bool → List ℕ
requests [] = []
requests (k ∷ ks) = request_header ++ (request_code k ++ requests ks)

-- One refusal for each.
abbrev pub refusals : List Bool → List ℕ
refusals [] = []
refusals (k ∷ ks) = b'N' ∷ refusals ks

in_range :
    (n : ℕ)
    → 8 ≤ n
    → n ≤ max_startup_packet_length
    → (ltb n 8 || ltb max_startup_packet_length n) ≡ false
in_range n h k = ground arith

four_less : (n : ℕ) → 4 + n - 4 ≡ n
four_less n = omega arith

request-IsPacket : (k : Bool) → IsPacket request_header (request_code k)
unfolding leading_uint32
request-IsPacket true = record {
  four = refl;
  announced = refl;
  has_code = omega arith;
  within = omega arith;
}
request-IsPacket false = record {
  four = refl;
  announced = refl;
  has_code = omega arith;
  within = omega arith;
}

refuses_request :
    (k : Bool)
    → (is_ssl_request (packet request_header (request_code k))
        || is_gss_enc_request (packet request_header (request_code k)))
      ≡ true
unfolding is_ssl_request is_gss_enc_request leading_uint32
refuses_request true = refl
refuses_request false = refl

module _ {S : Type 0} where
  read_startup_packet-packet :
      (header body rest : List ℕ) (w : Wire S)
      → IsPacket header body
      → w.input ≡ header ++ (body ++ rest)
      → read_startup_packet w ≡ ok (packet header body) (record w { input = rest })
  unfolding read_startup_packet startup_body
  read_startup_packet-packet header body rest w v i =
      rw (read_full-append header (body ++ rest) w 4 i v.four) (
        rw
          (
            v.announced,
            in_range (4 + length body) (omega (arith, v.has_code)) v.within,
            four_less (length body),
            read_full-append body rest (record w { input = body ++ rest }) (length body) refl refl,
          )
          refl)

  -- The streams once the requests have been refused and the packet read.
  abbrev pub negotiated : List Bool → List ℕ → Wire S → Wire S
  negotiated ks rest w = record w {
    input = rest;
    output = w.output ++ refusals ks;
    room = w.room - length ks;
  }

  -- negotiateStartup answers each request for encryption with a refusal and returns the first packet
  -- that is none, as it stands, reading nothing after it; one round more than there are requests is
  -- enough.
  pub negotiate_startup-packet :
      (ks : List Bool) (header body rest : List ℕ) (fuel : ℕ) (w : Wire S)
      → IsPacket header body
      → (is_ssl_request (packet header body) || is_gss_enc_request (packet header body)) ≡ false
      → w.input ≡ requests ks ++ (header ++ (body ++ rest))
      → length ks ≤ w.room
      → length ks < fuel
      → negotiate_startup fuel w ≡ some (ok (packet header body) (negotiated ks rest w))
  unfolding negotiate_startup
  negotiate_startup-packet ks header body rest zero w v real i room lt = absurd (omega arith)
  negotiate_startup-packet [] header body rest (suc n) w v real i room lt =
      rw (read_startup_packet-packet header body rest w v i, answer_or_return, real)
        (ground (arith, append-nil w.output))
  negotiate_startup-packet (k ∷ ks) header body rest (suc n) w v real i room lt =
      rw
        (
          read_startup_packet-packet request_header (request_code k) later w (request-IsPacket k) (
              i
              ∙ ap (λ l. request_header ++ l)
                  (append_assoc (request_code k) (requests ks) (header ++ (body ++ rest)))),
          answer_or_return,
          refuses_request k,
        )
        (rw (write_fits (b'N' ∷ []) (record w { input = later }) (omega arith)) (
          negotiate_startup-packet ks header body rest n
            (record w { input = later; output = w.output ++ (b'N' ∷ []); room = w.room - 1 }) v real
            refl (omega arith) (omega arith)
          ∙ ap (λ (u : Wire S). some (ok (packet header body) u)) same))
    where
      later : List ℕ
      later = requests ks ++ (header ++ (body ++ rest))

      same :
          ◌≡◌ {A = Wire S}
            (negotiated ks rest
              (record w { input = later; output = w.output ++ (b'N' ∷ []); room = w.room - 1 }))
            (negotiated (k ∷ ks) rest w)
      same = λ j. record w {
        input = rest;
        output = append_assoc w.output (b'N' ∷ []) (refusals ks) j;
        room = fewer j;
      }
        where
          fewer : w.room - 1 - length ks ≡ w.room - suc (length ks)
          fewer = omega arith
