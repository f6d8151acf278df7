-- ===== src/Session/Frontend.antt =====
-- internal/proxy/session.go: relayFrontend, which forwards the messages of a client up to its
-- Terminate; and internal/proxy/startup.go with negotiateStartup, the first packets of a client.
pub mod Terminates
pub mod Refusals
pub mod Clean
use pgpilot.Base.{
  ℕ, zero, suc, ◌-◌, ◌&&◌, ◌||◌, not, Bool, true, false, List, [], ◌∷◌, ◌++◌, Option, none, some,
  length, if◌then◌else◌, leb, ltb, nat_beq,
}
use pgpilot.Protocol.Wire.{
  IoError, eof, unexpected_eof, net_closed, deadline_exceeded, other, Error, io, bad_length, Wire,
  Out, ok, err, Io, ◌>>=◌, ◌>>◌, bind_out, pure, fail, read_full, write, copy_n, be_uint32,
}
use pgpilot.Protocol.Message.{header_kind, header_length}

-- What relayFrontend returns, with the streams it leaves: whether the client terminated, and the error.
abbrev pub Run : Type 0 → Type 0
Run S = Option (Bool × Option Error × Wire S)

-- A failed read of a header: the end of the input, a closed connection and an expired deadline are
-- no errors.
unfoldable pub header_failed : Error → Option Error
header_failed (io eof) = none
header_failed (io net_closed) = none
header_failed (io deadline_exceeded) = none
header_failed e = some e

-- One message after its header; `true` at a Terminate, which is not forwarded.
unfoldable pub forward_one : {S : Type 0} → List ℕ → Io S Bool
forward_one header =
    if nat_beq (header_kind header) b'X'
    then pure true
    else if ltb (header_length header) 4
    then fail (bad_length (header_length header))
    else do write header; copy_n (header_length header - 4); pure false

abbrev pub on_forwarded : {S : Type 0} → Out S Bool → (Wire S → Run S) → Run S
on_forwarded (ok true w) k = some (true, none, w)
on_forwarded (ok false w) k = k w
on_forwarded (err e w) k = some (false, some e, w)

abbrev pub on_read : {S : Type 0} → Out S (List ℕ) → (List ℕ → Wire S → Run S) → Run S
on_read (ok header w) k = k header w
on_read (err e w) k = some (false, header_failed e, w)

-- `none` is a run out of fuel.
unfoldable pub frontend_loop : {S : Type 0} → ℕ → Wire S → Run S
frontend_loop zero w = none
frontend_loop (suc n) w =
    on_read (read_full 5 w) λ header w'. on_forwarded (forward_one header w') (frontend_loop n)

unfoldable pub relay_frontend : {S : Type 0} → Wire S → Run S
unfolding frontend_loop
relay_frontend w = frontend_loop (suc (length w.input)) w

-- relayPooled, from the race of its two relays: whether the relay from the backend ended first, on
-- its own or by the shutdown, and whether the context is done at the end.
abbrev pub is_nil : Option Error → Bool
is_nil none = true
is_nil (some e) = false

abbrev pub verdict : {S : Type 0} → Bool → Bool → Run S → Option (Bool × Wire S)
verdict backend_ended shut_down none = none
verdict true shut_down (some (terminated, e, w)) = some (false, w)
verdict false shut_down (some (terminated, e, w)) =
    some (terminated && is_nil e && not shut_down, w)

unfoldable pub relay_pooled : {S : Type 0} → Bool → Bool → Wire S → Option (Bool × Wire S)
unfolding relay_frontend
relay_pooled backend_ended shut_down w = verdict backend_ended shut_down (relay_frontend w)

abbrev pub max_startup_packet_length : ℕ
max_startup_packet_length = 10_000

abbrev pub ssl_request_code : ℕ
ssl_request_code = 80_877_103

abbrev pub gss_enc_request_code : ℕ
gss_enc_request_code = 80_877_104

abbrev pub cancel_request_code : ℕ
cancel_request_code = 80_877_102

pub record StartupPacket : Type 0 where
  pub raw : List ℕ
  pub code : ℕ

unfoldable pub is_ssl_request : StartupPacket → Bool
is_ssl_request p = nat_beq p.code ssl_request_code

unfoldable pub is_gss_enc_request : StartupPacket → Bool
is_gss_enc_request p = nat_beq p.code gss_enc_request_code

unfoldable pub is_cancel_request : StartupPacket → Bool
is_cancel_request p = nat_beq p.code cancel_request_code

-- The number that the first four bytes stand for.
unfoldable pub leading_uint32 : List ℕ → ℕ
unfolding be_uint32
leading_uint32 (a ∷ b ∷ c ∷ d ∷ _) = be_uint32 a b c d
leading_uint32 _ = 0

unfoldable pub startup_body : {S : Type 0} → List ℕ → Io S StartupPacket
startup_body header = do
  rest ← read_full (leading_uint32 header - 4)
  pure (record { raw = header ++ rest; code = leading_uint32 rest })

-- readStartupPacket
unfoldable pub read_startup_packet : {S : Type 0} → Io S StartupPacket
unfolding startup_body
read_startup_packet = do
  header ← read_full 4
  (if ltb (leading_uint32 header) 8 || ltb max_startup_packet_length (leading_uint32 header)
      then fail (bad_length (leading_uint32 header))
      else startup_body header)

-- The loop of negotiateStartup reads from one stream and answers on the other; `none` is a run out
-- of fuel.
abbrev pub answer_or_return :
    {S : Type 0}
    → Out S StartupPacket
    → (Wire S → Option (Out S StartupPacket))
    → (StartupPacket → Bool)
    → Option (Out S StartupPacket)
answer_or_return (err e w) k refuses = some (err e w)
answer_or_return (ok p w) k refuses =
    if refuses p
    then elim (write (b'N' ∷ []) w) [ ok _ w' ↦ k w' | err e w' ↦ some (err e w') ]
    else some (ok p w)

unfoldable pub negotiate_startup : {S : Type 0} → ℕ → Wire S → Option (Out S StartupPacket)
unfolding is_ssl_request is_gss_enc_request
negotiate_startup zero w = none
negotiate_startup (suc n) w =
    answer_or_return (read_startup_packet w) (negotiate_startup n)
      λ p. is_ssl_request p || is_gss_enc_request p
