-- ===== src/Protocol/Wire/Streams.antt =====
-- What the reads and writes of `Wire` do to the bytes: nothing is lost, reordered or made up, and
-- reads consume.
use mathlib.Core.List.{append_assoc}
use pgpilot.Base.{
  ℕ, ◌-◌, ◌≤◌, ◌≡◌, sym, ap, ◌∙◌, ◌⊎◌, inl, inr, Bool-cases, List, [], ◌++◌, arith, length, take,
  drop, take-append-drop, length-take, leb, true, false, Bool, subst, if◌then◌else◌, le→leb, leb→le,
  length-append, take-append, drop-append,
}
use pgpilot.Protocol.Wire.{
  io, Wire, Out, ok, err, Io, bind_out, short_read, read_full, write, copy_n,
}

-- What has been written and what is still to be read make up `total`; after an error, what has
-- been written is a prefix of it.
abbrev pub Keeps : {S A : Type 0} → List ℕ → Out S A → Type 0
Keeps total (ok _ w) = w.output ++ w.input ≡ total
Keeps total (err _ w) = (rest : List ℕ) × (w.output ++ rest ≡ total)

pub bind_out-Keeps :
    {S A B : Type 0} {total : List ℕ} (o : Out S A) (f : A → Io S B)
    → Keeps total o
    → ((a : A) (w : Wire S) → w.output ++ w.input ≡ total → Keeps total (f a w))
    → Keeps total (bind_out o f)
bind_out-Keeps (ok a w) f k h = h a w k
bind_out-Keeps (err e w) f k h = k

module _ {S : Type 0} where
  -- Writing bytes that have been read.
  pub write-Keeps : (bs : List ℕ) (w : Wire S) → Keeps (w.output ++ (bs ++ w.input)) (write bs w)
  unfolding write
  write-Keeps bs w = elim (Bool-cases (leb (length bs) w.room)) [
    | inl fits ↦ rw fits (append_assoc w.output bs w.input)
    | inr full ↦ rw full (
      drop w.room bs ++ w.input,
      append_assoc w.output (take w.room bs) (drop w.room bs ++ w.input)
          ∙ ap (λ l. w.output ++ l)
              (sym (append_assoc (take w.room bs) (drop w.room bs) w.input)
                ∙ ap (λ l. l ++ w.input) (take-append-drop w.room bs)),
    )
  ]

  pub copy_n-Keeps : (n : ℕ) (w : Wire S) → Keeps (w.output ++ w.input) (copy_n n w)
  unfolding copy_n
  copy_n-Keeps n w = bind_out-Keeps _ _ wrote λ _ w' e. after w' e (leb n (length w.input))
    where
      wrote :
          Keeps (w.output ++ w.input) (write (take n w.input) (record w { input = drop n w.input }))
      wrote =
          subst
            (λ l.
              Keeps (w.output ++ l) (write (take n w.input) (record w { input = drop n w.input })))
            (take-append-drop n w.input)
            (write-Keeps (take n w.input) (record w { input = drop n w.input }))

      after :
          (w' : Wire S)
          → w'.output ++ w'.input ≡ w.output ++ w.input
          → (b : Bool)
          → Keeps {A = Unit {0}}
              (w.output ++ w.input)
              (if b then ok tt w' else err (io w.ending) w')
      after w' e true = e
      after w' e false = (w'.input, e)

  -- A read gives a prefix of the input of the wanted length, or fails with nothing written.
  pub read_full-cases :
      (n : ℕ) (w : Wire S)
      → ((bs rest : List ℕ) × (bs ++ rest ≡ w.input)
          × (length bs ≡ n)
          × (read_full n w ≡ ok bs (record w { input = rest })))
        ⊎ (read_full n w ≡ err (io (short_read w.input w.ending)) (record w { input = [] }))
  unfolding read_full
  read_full-cases n w = elim (Bool-cases (leb n (length w.input))) [
    | inl h ↦ inl (
      take n w.input,
      drop n w.input,
      take-append-drop n w.input,
      omega (arith, length-take n w.input, leb→le _ _ h),
      rw h,
    )
    | inr h ↦ inr (rw h)
  ]

  pub read_full-append :
      (bs rest : List ℕ) (w : Wire S) (n : ℕ)
      → w.input ≡ bs ++ rest
      → length bs ≡ n
      → read_full n w ≡ ok bs (record w { input = rest })
  unfolding read_full
  read_full-append bs rest w n e l = rw (
    e,
    ← l,
    le→leb (length bs) (length (bs ++ rest)) (omega (arith, length-append bs rest)),
    take-append,
    drop-append,
  )

  pub write_fits :
      (bs : List ℕ) (w : Wire S)
      → length bs ≤ w.room
      → write bs w ≡ ok tt (record w { output = w.output ++ bs; room = w.room - length bs })
  unfolding write
  write_fits bs w h = rw (le→leb _ _ h)

  pub copy_n-append :
      (bs rest : List ℕ) (w : Wire S) (n : ℕ)
      → w.input ≡ bs ++ rest
      → length bs ≡ n
      → length bs ≤ w.room
      → copy_n n w
        ≡ ok tt (record w { input = rest; output = w.output ++ bs; room = w.room - length bs })
  unfolding copy_n write
  copy_n-append bs rest w n e l h = rw (
    e,
    ← l,
    take-append,
    drop-append,
    le→leb _ _ h,
    le→leb (length bs) (length (bs ++ rest)) (omega (arith, length-append bs rest)),
  )
