-- ===== src/Scram/Fields.antt =====
-- How `field` of internal/scram/scram.go reads a text of attributes without commas inside, and the
-- exclusive or of two hashes.
use Prim.Native.Nat.{bit_xor}
use pgpilot.Base.{
  ◌≡◌, refl, true, false, [], ◌∷◌, ◌++◌, none, some, arith, length, drop, nat_beq, nat_beq_iff, All,
}
use pgpilot.Base.Bytes.{bytes_beq, has_prefix, split, index}
use pgpilot.Base.Result.{success}
use pgpilot.Base.Xor.{bit_xor-bit_xor}
use pgpilot.Scram.{Bytes, first_value, field, xor_bytes}

abbrev pub NoComma : Bytes → Type 0
NoComma = All (λ c. nat_beq c b',' ≡ false)

split-part : (a : Bytes) → NoComma a → split b',' a ≡ a ∷ []
split-part [] h = refl
split-part (c ∷ cs) h = rw h.0 (rw (split-part cs h.1) refl)

split-parts : (a rest : Bytes) → NoComma a → split b',' (a ++ (b',' ∷ rest)) ≡ a ∷ split b',' rest
split-parts [] rest h = refl
split-parts (c ∷ cs) rest h = rw h.0 (rw (split-parts cs rest h.1) refl)

-- The first attribute has the prefix.
pub field_first :
    (a rest prefix : Bytes)
    → NoComma a
    → has_prefix a prefix ≡ true
    → field (a ++ (b',' ∷ rest)) prefix ≡ some (drop (length prefix) a)
unfolding field first_value
field_first a rest prefix h e = rw (split-parts a rest h) (rw e refl)

-- It does not.
pub field_later :
    (a rest prefix : Bytes)
    → NoComma a
    → has_prefix a prefix ≡ false
    → field (a ++ (b',' ∷ rest)) prefix ≡ field rest prefix
unfolding field first_value
field_later a rest prefix h e = rw (split-parts a rest h) (rw e refl)

-- The last attribute has it.
pub field_last :
    (a prefix : Bytes)
    → NoComma a
    → has_prefix a prefix ≡ true
    → field a prefix ≡ some (drop (length prefix) a)
unfolding field first_value
field_last a prefix h e = rw (split-part a h) (rw e refl)

-- Nor has the last one.
pub field_absent :
    (a prefix : Bytes) → NoComma a → has_prefix a prefix ≡ false → field a prefix ≡ none
unfolding field first_value
field_absent a prefix h e = rw (split-part a h) (rw e refl)

pub index-append :
    (a rest pattern : Bytes)
    → NoComma a
    → has_prefix (b',' ∷ rest) (b',' ∷ pattern) ≡ true
    → index (a ++ (b',' ∷ rest)) (b',' ∷ pattern) ≡ some (length a)
index-append [] rest pattern h e = rw e refl
index-append (c ∷ cs) rest pattern h e = rw h.0 (rw (index-append cs rest pattern h.1 e) refl)

pub bytes_beq_refl : (a : Bytes) → bytes_beq a a ≡ true
bytes_beq_refl [] = refl
bytes_beq_refl (c ∷ cs) = rw ((nat_beq_iff c c).1 refl) (bytes_beq_refl cs)

pub bytes_beq-eq : (a b : Bytes) → bytes_beq a b ≡ true → a ≡ b
bytes_beq-eq [] [] h = refl
bytes_beq-eq [] (d ∷ ds) h = absurd (cc h)
bytes_beq-eq (c ∷ cs) [] h = absurd (cc h)
bytes_beq-eq (c ∷ cs) (d ∷ ds) h = ground (arith, nat_beq_iff c d, bytes_beq-eq cs ds)

pub has_prefix-append : (a rest : Bytes) → has_prefix (a ++ rest) a ≡ true
has_prefix-append [] rest = refl
has_prefix-append (c ∷ cs) rest = rw ((nat_beq_iff c c).1 refl) (has_prefix-append cs rest)

-- No index is out of range if the second text is as long, and the length stays.
pub xor_bytes-total :
    (a b : Bytes)
    → length a ≡ length b
    → (out : Bytes) × (xor_bytes a b ≡ success out)
      × (length out ≡ length a)
      × (xor_bytes out b ≡ success a)
unfolding xor_bytes
xor_bytes-total [] b h = ([], refl, refl, refl)
xor_bytes-total (x ∷ xs) [] h = absurd (omega (arith, h))
xor_bytes-total (x ∷ xs) (y ∷ ys) h =
    let (out, made, size, undone) = xor_bytes-total xs ys (omega (arith, h)) in
    (
      bit_xor x y ∷ out,
      rw made refl,
      omega (arith, size),
      rw undone (rw (bit_xor-bit_xor x y) refl),
    )
