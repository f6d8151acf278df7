-- ===== src/Tests/Frontend.antt =====
-- Runs of relayFrontend and negotiateStartup of internal/proxy/session.go.
use pgpilot.Base.{
  ℕ, ◌≤◌, ◌≡◌, refl, ◌||◌, Bool, true, false, List, [], ◌∷◌, ◌++◌, none, some, arith, length,
}
use pgpilot.Protocol.Wire.{eof, Wire, ok, Message, frame, frames, frame_header}
use pgpilot.Session.Messages.Response.{forwarded}
use pgpilot.Session.Frontend.{
  relay_frontend, relay_pooled, negotiate_startup, leading_uint32, is_ssl_request,
  is_gss_enc_request,
}
use pgpilot.Session.Frontend.Terminates.{terminate, relay_frontend-frames}
use pgpilot.Session.Frontend.Clean.{IsRelayed, relay_pooled-IsRelayed}
use pgpilot.Session.Frontend.Refusals.{
  packet, IsPacket, requests, negotiated, negotiate_startup-packet,
}

abbrev wire : List ℕ → Wire ℕ
wire bytes = record { input = bytes; ending = eof; output = []; room = 100; seen = 0 }

abbrev sync : Message
sync = record { kind = b'S'; body = [] }

sync_fits : length (frames (sync ∷ [])) ≤ 100
unfolding frames frame frame_header
sync_fits = omega arith

relay_frontend-frames_run :
    relay_frontend (wire (frames (sync ∷ []) ++ (frame_header (terminate []) ++ [])))
    ≡ some (
      true,
      none,
      forwarded
          (frames (sync ∷ []))
          []
          (wire (frames (sync ∷ []) ++ (frame_header (terminate []) ++ []))),
    )
relay_frontend-frames_run =
    relay_frontend-frames (sync ∷ []) [] []
      (wire (frames (sync ∷ []) ++ (frame_header (terminate []) ++ []))) (omega arith, tt)
      (refl, tt) refl sync_fits

abbrev parting : Wire ℕ
parting = wire (frames (sync ∷ []) ++ (frame_header (terminate []) ++ []))

clean_end :
    relay_pooled false false parting ≡ some (true, forwarded (frames (sync ∷ [])) [] parting)
unfolding relay_pooled
clean_end =
    rw (relay_frontend-frames (sync ∷ []) [] [] parting (omega arith, tt) (refl, tt) refl sync_fits)
      refl

relay_pooled-IsRelayed_example :
    IsRelayed parting (forwarded (frames (sync ∷ [])) [] parting)
    × (◌≡◌ {A = Bool} false false)
    × (◌≡◌ {A = Bool} false false)
relay_pooled-IsRelayed_example =
    relay_pooled-IsRelayed false false parting (forwarded (frames (sync ∷ [])) [] parting) clean_end

-- Protocol version 3.0 and no parameters.
abbrev header : List ℕ
header = 0 ∷ 0 ∷ 0 ∷ 9 ∷ []

abbrev version : List ℕ
version = 0 ∷ 3 ∷ 0 ∷ 0 ∷ 0 ∷ []

version-IsPacket : IsPacket header version
unfolding leading_uint32
version-IsPacket = record {
  four = refl;
  announced = refl;
  has_code = omega arith;
  within = omega arith;
}

version_is_none :
    (is_ssl_request (packet header version) || is_gss_enc_request (packet header version)) ≡ false
unfolding is_ssl_request is_gss_enc_request leading_uint32
version_is_none = refl

negotiate_startup-packet_run :
    negotiate_startup 3 (wire (requests (false ∷ true ∷ []) ++ (header ++ (version ++ []))))
    ≡ some (
        ok (packet header version) (
          negotiated
            (false ∷ true ∷ [])
            []
            (wire (requests (false ∷ true ∷ []) ++ (header ++ (version ++ []))))))
negotiate_startup-packet_run =
    negotiate_startup-packet (false ∷ true ∷ []) header version [] 3
      (wire (requests (false ∷ true ∷ []) ++ (header ++ (version ++ [])))) version-IsPacket
      version_is_none refl (omega arith) (omega arith)
