-- ===== src/Registry/Lsn/Parse.antt =====
-- ParseLSN accepts exactly two hexadecimal numbers of at most 32 bits around a slash, and gives
-- the 64-bit position that they make.
use Prim.Native.Nat.{bit_or}
use pgpilot.Base.{
  ℕ, ◌+◌, ◌*◌, ◌%◌, ◌^◌, ◌≤◌, ◌<◌, ◌≡◌, ◌≢◌, ◌↔◌, refl, sym, ap, ◌∙◌, inl, inr, Bool-cases,
  Option-cases, false, List, [], ◌∷◌, ◌++◌, Option, none, some, arith, ltb, lt→ltb, ltb→lt, nat_beq,
  nat_beq_iff,
}
use pgpilot.Base.Bits.{bit_or-shift}
use pgpilot.Registry.Lsn.{cut, hex_digit, ◌>>=◌, parse_digits, parse_uint32, parse_lsn}

-- The value of hexadecimal digits after `n`, of any size.
abbrev pub hex_value : ℕ → List ℕ → Option ℕ
hex_value n [] = some n
hex_value n (c ∷ cs) = hex_digit c >>= λ d. hex_value (n * 16 + d) cs

pub record IsLsn (s : List ℕ) (n : ℕ) : Type 0 where
  pub hi : List ℕ
  pub lo : List ℕ
  pub high : ℕ
  pub low : ℕ
  pub splits : s ≡ hi ++ (b'/' ∷ lo)
  pub hi_digits : hi ≢ []
  pub lo_digits : lo ≢ []
  pub high_value : hex_value 0 hi ≡ some high
  pub low_value : hex_value 0 lo ≡ some low
  pub high_range : high < 2 ^ 32
  pub low_range : low < 2 ^ 32
  pub position : n ≡ high * 2 ^ 32 + low

hex_value-le : (n v : ℕ) (cs : List ℕ) → hex_value n cs ≡ some v → n ≤ v
hex_value-le n v [] h = ground arith
hex_value-le n v (c ∷ cs) h = elim (Option-cases (hex_digit c)) [
  | inl e ↦ absurd (cc (rw e at h))
  | inr (d, e) ↦ omega (arith, hex_value-le (n * 16 + d) v cs (rw e at h))
]

parse_digits-value :
    (n v : ℕ) (cs : List ℕ)
    → n < 2 ^ 32
    → parse_digits n cs ≡ some v
    → (hex_value n cs ≡ some v) × (v < 2 ^ 32)
unfolding parse_digits
parse_digits-value n v [] r h = (h, ground arith)
parse_digits-value n v (c ∷ cs) r h = elim (Option-cases (hex_digit c)) [
  | inl e ↦ absurd (cc (rw (e, parse_digits) at h))
  | inr (d, e) ↦ elim (Bool-cases (ltb (n * 16 + d) (2 ^ 32))) [
    | inl small ↦
        let (value, range) =
          parse_digits-value (n * 16 + d) v cs (ltb→lt _ _ small)
            (rw small at (rw (e, parse_digits) at h)) in
        (rw e value, range)
    | inr large ↦ absurd (cc (rw large at (rw (e, parse_digits) at h)))
  ]
]

value-parse_digits :
    (n v : ℕ) (cs : List ℕ) → hex_value n cs ≡ some v → v < 2 ^ 32 → parse_digits n cs ≡ some v
unfolding parse_digits
value-parse_digits n v [] h r = h
value-parse_digits n v (c ∷ cs) h r = elim (Option-cases (hex_digit c)) [
  | inl e ↦ absurd (cc (rw e at h))
  | inr (d, e) ↦
      let rest : hex_value (n * 16 + d) cs ≡ some v = rw e at h in
      let small : n * 16 + d < 2 ^ 32 = omega (arith, hex_value-le (n * 16 + d) v cs rest) in
      rw (e, parse_digits) (rw (lt→ltb _ _ small) (value-parse_digits (n * 16 + d) v cs rest r))
]

parse_uint32-value :
    (v : ℕ) (cs : List ℕ)
    → parse_uint32 cs ≡ some v
    → (cs ≢ []) × (hex_value 0 cs ≡ some v) × (v < 2 ^ 32)
unfolding parse_uint32
parse_uint32-value v [] h = absurd (cc h)
parse_uint32-value v (c ∷ cs) h =
    let (value, range) = parse_digits-value 0 v (c ∷ cs) (omega arith) h in (λ e. cc, value, range)

value-parse_uint32 :
    (v : ℕ) (cs : List ℕ)
    → cs ≢ []
    → hex_value 0 cs ≡ some v
    → v < 2 ^ 32
    → parse_uint32 cs ≡ some v
unfolding parse_uint32
value-parse_uint32 v [] ne h r = absurd (ne refl)
value-parse_uint32 v (c ∷ cs) ne h r = value-parse_digits 0 v (c ∷ cs) h r

some_inj : {A : Type 0} {x y : A} → some x ≡ some y → x ≡ y
some_inj h = cc

some_pair :
    {A B : Type 0} (x : A) (y : B) (a : A) (b : B)
    → ◌≡◌ {A = Option (A × B)} (some (x, y)) (some (a, b))
    → (x ≡ a) × (y ≡ b)
some_pair x y a b h = ground arith

>>=-eq-some :
    {A B : Type 0} (m : Option A) (f : A → Option B) {b : B}
    → (m >>= f) ≡ some b
    → (a : A) × (m ≡ some a) × (f a ≡ some b)
>>=-eq-some none f h = absurd (cc h)
>>=-eq-some (some a) f h = (a, refl, h)

cut-splits : (sep : ℕ) (s a b : List ℕ) → cut sep s ≡ some (a, b) → s ≡ a ++ (sep ∷ b)
unfolding cut
cut-splits sep [] a b h = absurd (cc h)
cut-splits sep (c ∷ cs) a b h = elim (Bool-cases (nat_beq c sep)) [
  | inl hit ↦
      let (x, y) = some_pair [] cs a b (rw hit at h) in
      rw (← x, ← y, (nat_beq_iff c sep).0 hit) refl
  | inr miss ↦ elim (Option-cases (cut sep cs)) [
    | inl e ↦ absurd (cc (rw e at (rw miss at h)))
    | inr ((a', b'), e) ↦
        let (x, y) = some_pair (c ∷ a') b' a b (rw e at (rw miss at h)) in
        rw (← x, ← y) (ap (λ l. c ∷ l) (cut-splits sep cs a' b' e))
  ]
]

hex-ne-slash : (c d : ℕ) → hex_digit c ≡ some d → nat_beq c b'/' ≡ false
unfolding hex_digit
hex-ne-slash c d h = ground arith

cut_digits :
    (n v : ℕ) (hi lo : List ℕ)
    → hex_value n hi ≡ some v
    → cut b'/' (hi ++ (b'/' ∷ lo)) ≡ some (hi, lo)
unfolding cut
cut_digits n v [] lo h = refl
cut_digits n v (c ∷ cs) lo h = elim (Option-cases (hex_digit c)) [
  | inl e ↦ absurd (cc (rw e at h))
  | inr (d, e) ↦ rw (hex-ne-slash c d e) (rw (cut_digits (n * 16 + d) v cs lo (rw e at h)) refl)
]

position_lem :
    (high low : ℕ)
    → high < 2 ^ 32
    → low < 2 ^ 32
    → bit_or (high * 2 ^ 32 % 2 ^ 64) low ≡ high * 2 ^ 32 + low
position_lem high low h l =
    let e : high * 2 ^ 32 % 2 ^ 64 ≡ high * 2 ^ 32 = omega arith in
    rw e (bit_or-shift 32 high low l)

parse_lsn-IsLsn : (s : List ℕ) (n : ℕ) → parse_lsn s ≡ some n → IsLsn s n
unfolding parse_lsn
parse_lsn-IsLsn s n h =
    let (parts, c, h₁) = >>=-eq-some (cut b'/' s) _ h in
    let (hi, lo) = parts in
    let (high, u, h₂) = >>=-eq-some (parse_uint32 hi) _ h₁ in
    let (low, v, h₃) = >>=-eq-some (parse_uint32 lo) _ h₂ in
    let (hi_digits, high_value, high_range) = parse_uint32-value high hi u in
    let (lo_digits, low_value, low_range) = parse_uint32-value low lo v in
    record {
      hi = hi;
      lo = lo;
      high = high;
      low = low;
      splits = cut-splits b'/' s hi lo c;
      hi_digits = hi_digits;
      lo_digits = lo_digits;
      high_value = high_value;
      low_value = low_value;
      high_range = high_range;
      low_range = low_range;
      position = sym (some_inj h₃) ∙ position_lem high low high_range low_range;
    }

IsLsn-parse_lsn : (s : List ℕ) (n : ℕ) → IsLsn s n → parse_lsn s ≡ some n
unfolding parse_lsn
IsLsn-parse_lsn s n v =
    rw (v.splits, cut_digits 0 v.high v.hi v.lo v.high_value)
      (rw (value-parse_uint32 v.high v.hi v.hi_digits v.high_value v.high_range) (
        rw (value-parse_uint32 v.low v.lo v.lo_digits v.low_value v.low_range)
          (ap some (position_lem v.high v.low v.high_range v.low_range ∙ sym v.position))))

-- ParseLSN returns a position exactly for a text that denotes it: two hexadecimal numbers of at
-- least one digit and at most 32 bits around a slash, the high half and the low half.
pub parse_lsn_iff : (s : List ℕ) (n : ℕ) → (parse_lsn s ≡ some n) ↔ IsLsn s n
parse_lsn_iff s n = (parse_lsn-IsLsn s n, IsLsn-parse_lsn s n)
