-- ===== src/Protocol/Wire/Success.antt =====
-- What the operations on streams have done when they succeed.
use pgpilot.Base.{
  ℕ, ◌≡◌, refl, sym, ap, ◌∙◌, ◌⊎◌, inl, inr, List, ◌++◌, arith, length, take, drop,
  take-append-drop, length-take, leb, leb→le, Bool-cases,
}
use pgpilot.Protocol.Wire.{Wire, Error, Out, ok, err, Io, bind_out, read_full, write, copy_n}

module _ {S : Type 0} where
  pub ok_inj :
      {A : Type 0} {a b : A} {v w : Wire S}
      → ◌≡◌ {A = Out S A} (ok a v) (ok b w)
      → (a ≡ b) × (v ≡ w)
  ok_inj h = (cc h, cc h)

  pub read_full-ok :
      (n : ℕ) (w w' : Wire S) {bs : List ℕ}
      → read_full n w ≡ ok bs w'
      → (w.input ≡ bs ++ w'.input) × (length bs ≡ n) × (w'.output ≡ w.output)
  unfolding read_full
  read_full-ok n w w' {bs} h = elim (Bool-cases (leb n (length w.input))) [
    | inl e ↦
        let (same, rest) = ok_inj (rw e at h) in
        (
          sym (take-append-drop n w.input)
              ∙ ap (λ l. l ++ drop n w.input) same
              ∙ ap (λ l. bs ++ l) (ap (λ v. v.input) rest),
          sym (ap length same) ∙ omega (arith, length-take n w.input, leb→le n (length w.input) e),
          sym (ap (λ v. v.output) rest),
        )
    | inr e ↦ absurd (cc (rw e at h))
  ]

  pub write-ok :
      (bs : List ℕ) (w w' : Wire S) {u : Unit {0}}
      → write bs w ≡ ok u w'
      → (w'.input ≡ w.input) × (w'.output ≡ w.output ++ bs)
  unfolding write
  write-ok bs w w' h = elim (Bool-cases (leb (length bs) w.room)) [
    | inl e ↦
        let rest = (ok_inj (rw e at h)).1 in
        (sym (ap (λ v. v.input) rest), sym (ap (λ v. v.output) rest))
    | inr e ↦ absurd (cc (rw e at h))
  ]

  pub bind_out-ok :
      {A B : Type 0} (o : Out S A) (f : A → Io S B) {b : B} {w' : Wire S}
      → bind_out o f ≡ ok b w'
      → (a : A) × (w : Wire S) × (o ≡ ok a w) × (f a w ≡ ok b w')
  bind_out-ok (ok a w) f h = (a, w, refl, h)
  bind_out-ok (err e w) f h = absurd (cc h)

  pub copy_n-ok :
      (n : ℕ) (w w' : Wire S) {u : Unit {0}}
      → copy_n n w ≡ ok u w'
      → (bs : List ℕ) × (w.input ≡ bs ++ w'.input) × (length bs ≡ n) × (w'.output ≡ w.output ++ bs)
  unfolding copy_n
  copy_n-ok n w w' h =
      let start : Wire S = record w { input = drop n w.input } in
      let (v, w₁, written, h₁) = bind_out-ok (write (take n w.input) start) _ h in
      let (kept, sent) = write-ok (take n w.input) start w₁ written in
      elim (Bool-cases (leb n (length w.input))) [
        | inl e ↦
            let same = (ok_inj (rw e at h₁)).1 in
            (
              take n w.input,
              sym (take-append-drop n w.input)
                  ∙ ap (λ l. take n w.input ++ l) (sym kept ∙ ap (λ v. v.input) same),
              omega (arith, length-take n w.input, leb→le n (length w.input) e),
              sym (ap (λ v. v.output) same) ∙ sent,
            )
        | inr e ↦ absurd (cc (rw e at h₁))
      ]

  pub out-cases :
      {A : Type 0} (o : Out S A)
      → ((a : A) × (w : Wire S) × (o ≡ ok a w)) ⊎ ((e : Error) × (w : Wire S) × (o ≡ err e w))
  out-cases (ok a w) = inl (a, w, refl)
  out-cases (err e w) = inr (e, w, refl)
