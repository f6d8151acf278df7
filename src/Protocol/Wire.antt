-- ===== src/Protocol/Wire.antt =====
-- Byte streams as the relays see them: what io.ReadFull, io.CopyN and Write of the standard library
-- do on a source that holds some bytes and then ends with an error, and on a destination that
-- accepts some number of bytes and then fails.
pub mod Streams
pub mod Success
use pgpilot.Base.{
  ℕ, ◌+◌, ◌-◌, ◌*◌, ◌/◌, ◌%◌, ◌^◌, ◌<◌, ◌≡◌, List, [], ◌∷◌, ◌++◌, arith, length, take, drop,
  if◌then◌else◌, leb,
}

pub data IoError : Type 0 where
  eof unexpected_eof net_closed deadline_exceeded : IoError
  other : ℕ → IoError

pub data Error : Type 0 where
  io : IoError → Error
  write_failed : Error
  bad_length : ℕ → Error
  empty_ready : Error
  too_long : ℕ → Error
  rejected : Error

-- A source and a destination: the bytes still to come and the error after them; the bytes written
-- and how many more will be taken; and the state of the caller's inspection function.
pub record Wire (S : Type 0) : Type 0 where
  pub input : List ℕ
  pub ending : IoError
  pub output : List ℕ
  pub room : ℕ
  pub seen : S

pub data Out (S A : Type 0) : Type 0 where
  ok : A → Wire S → Out S A
  err : Error → Wire S → Out S A

abbrev pub Io : Type 0 → Type 0 → Type 0
Io S A = Wire S → Out S A

abbrev pub bind_out : {S A B : Type 0} → Out S A → (A → Io S B) → Out S B
bind_out (ok a w) f = f a w
bind_out (err e w) f = err e w

infixl 5 ◌>>=◌ ◌>>◌
abbrev pub ◌>>=◌ : {S A B : Type 0} → Io S A → (A → Io S B) → Io S B
◌>>=◌ m f w = bind_out (m w) f

abbrev pub ◌>>◌ : {S B : Type 0} → Io S (Unit {0}) → Io S B → Io S B
m >> k = m >>= λ _. k

abbrev pub pure : {S A : Type 0} → A → Io S A
pure a w = ok a w

abbrev pub fail : {S A : Type 0} → Error → Io S A
fail e w = err e w

-- The error of a read that found only part of what it wanted.
unfoldable pub short_read : List ℕ → IoError → IoError
short_read [] e = e
short_read (_ ∷ _) eof = unexpected_eof
short_read (_ ∷ _) unexpected_eof = unexpected_eof
short_read (_ ∷ _) net_closed = net_closed
short_read (_ ∷ _) deadline_exceeded = deadline_exceeded
short_read (_ ∷ _) (other n) = other n

unfoldable pub read_full : {S : Type 0} → ℕ → Io S (List ℕ)
read_full n w =
    if leb n (length w.input)
    then ok (take n w.input) (record w { input = drop n w.input })
    else err (io (short_read w.input w.ending)) (record w { input = [] })

unfoldable pub write : {S : Type 0} → List ℕ → Io S (Unit {0})
write bs w =
    if leb (length bs) w.room
    then ok tt (record w { output = w.output ++ bs; room = w.room - length bs })
    else err write_failed (record w { output = w.output ++ take w.room bs; room = 0 })

-- io.CopyN writes what it reads; a source that ends early is an error after that.
unfoldable pub copy_n : {S : Type 0} → ℕ → Io S (Unit {0})
unfolding write
copy_n n w =
    bind_out (write (take n w.input) (record w { input = drop n w.input }))
      λ _ w'. if leb n (length w.input) then ok tt w' else err (io w.ending) w'

-- binary.BigEndian.Uint32 of four bytes.
unfoldable pub be_uint32 : ℕ → ℕ → ℕ → ℕ → ℕ
be_uint32 a b c d = a * 2 ^ 24 + b * 2 ^ 16 + c * 2 ^ 8 + d

-- A message of the regular phase: a type byte and a body.
pub record Message : Type 0 where
  pub kind : ℕ
  pub body : List ℕ

-- The frame of a message: its type, the length of its body with the length field itself, the body.
unfoldable pub frame_header : Message → List ℕ
frame_header m =
    let n = length m.body + 4 in
    m.kind ∷ (n / 2 ^ 24 % 256) ∷ (n / 2 ^ 16 % 256) ∷ (n / 2 ^ 8 % 256) ∷ (n % 256) ∷ []

unfoldable pub frame : Message → List ℕ
frame m = frame_header m ++ m.body

unfoldable pub frames : List Message → List ℕ
frames [] = []
frames (m ∷ ms) = frame m ++ frames ms

-- Bodies that a four-byte length can announce.
abbrev pub IsFramed : Message → Type 0
IsFramed m = length m.body + 4 < 2 ^ 32

pub be_uint32_bytes :
    (n : ℕ)
    → n < 2 ^ 32
    → be_uint32 (n / 2 ^ 24 % 256) (n / 2 ^ 16 % 256) (n / 2 ^ 8 % 256) (n % 256) ≡ n
unfolding be_uint32
be_uint32_bytes n h = omega arith
