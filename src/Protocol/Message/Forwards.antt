-- ===== src/Protocol/Message/Forwards.antt =====
-- Relay forwards byte for byte, whatever the streams and the callback do, and it ends.
use pgpilot.Base.{
  ℕ, zero, suc, ◌-◌, ◌≤◌, ◌<◌, ◌≡◌, refl, ap, subst, ◌∙◌, inl, inr, Bool, true, false, Bool-cases,
  List, [], ◌∷◌, ◌++◌, Option, none, some, arith, length, length-append, length-drop, leb, ltb,
  if◌then◌else◌,
}
use pgpilot.Protocol.Wire.{
  IoError, Error, io, Wire, Out, ok, err, bind_out, short_read, read_full, write, copy_n,
}
use pgpilot.Protocol.Wire.Streams.{
  Keeps, bind_out-Keeps, write-Keeps, copy_n-Keeps, read_full-cases,
}
use pgpilot.Protocol.Message.{
  InspectFunc, inspected, inspect_with, header_length, header_kind, relay_buffered, relay_streamed,
  relay_message, relay_loop, relay, clean_end, Run, on_message, max_inspect_body,
}

module _ {S : Type 0} (f : InspectFunc S) where
  -- The callback touches neither stream.
  inspect_with-Keeps :
      (kind : ℕ) (body : Option (List ℕ)) (total : List ℕ) (w : Wire S)
      → w.output ++ w.input ≡ total
      → Keeps total (inspect_with f kind body w)
  unfolding inspect_with
  inspect_with-Keeps kind body total w h = go (f w.seen kind body)
    where
      go : (o : Option S) → Keeps total (inspected o w)
      go none = (w.input, h)
      go (some s) = h

  -- So a message of which `bs` has been read can still be written.
  inspect_with-write-Keeps :
      (kind : ℕ) (body : Option (List ℕ)) (bs total : List ℕ) (w : Wire S)
      → w.output ++ (bs ++ w.input) ≡ total
      → Keeps total (bind_out (inspect_with f kind body w) λ _. write bs)
  unfolding inspect_with
  inspect_with-write-Keeps kind body bs total w h = go (f w.seen kind body)
    where
      go : (o : Option S) → Keeps total (bind_out (inspected o w) λ _. write bs)
      go none = (bs ++ w.input, h)
      go (some s) =
          subst (λ l. Keeps l (write bs (record w { seen = s }))) h
            (write-Keeps bs (record w { seen = s }))

  relay_buffered-Keeps :
      (kind n : ℕ) (total : List ℕ) (w : Wire S)
      → w.output ++ w.input ≡ total
      → Keeps total (relay_buffered f kind n w)
  unfolding relay_buffered
  relay_buffered-Keeps kind n total w h = elim (read_full-cases n w) [
    | inl (bs, rest, e, _, r) ↦ rw r (
        inspect_with-write-Keeps kind (some bs) bs total (record w { input = rest })
          (ap (λ l. w.output ++ l) e ∙ h))
    | inr r ↦ rw r (w.input, h)
  ]

  relay_streamed-Keeps :
      (kind n : ℕ) (total : List ℕ) (w : Wire S)
      → w.output ++ w.input ≡ total
      → Keeps total (relay_streamed f kind n w)
  unfolding relay_streamed
  relay_streamed-Keeps kind n total w h =
      bind_out-Keeps _ _ (inspect_with-Keeps kind none total w h)
        λ _ w' e. subst (λ l. Keeps l (copy_n n w')) e (copy_n-Keeps n w')

  relay_message-Keeps :
      (header total : List ℕ) (w : Wire S)
      → w.output ++ (header ++ w.input) ≡ total
      → Keeps total (relay_message f header w)
  unfolding relay_message
  relay_message-Keeps header total w h = elim (Bool-cases (ltb (header_length header) 4)) [
    | inl short ↦ rw short (header ++ w.input, h)
    | inr fine ↦ rw fine (
        bind_out-Keeps _ _ (subst (λ l. Keeps l (write header w)) h (write-Keeps header w))
          λ _ w' e. after w' e (leb (header_length header - 4) max_inspect_body))
  ]
    where
      after :
          (w' : Wire S)
          → w'.output ++ w'.input ≡ total
          → (b : Bool)
          → Keeps total (
              (if b
                  then relay_buffered f (header_kind header) (header_length header - 4)
                  else relay_streamed f (header_kind header) (header_length header - 4))
                w')
      after w' e true = relay_buffered-Keeps _ _ total w' e
      after w' e false = relay_streamed-Keeps _ _ total w' e

  clean_end-none :
      (input : List ℕ) (e : IoError) → clean_end (io (short_read input e)) ≡ none → input ≡ []
  unfolding clean_end short_read
  clean_end-none [] e h = refl
  clean_end-none (x ∷ xs) e h = ground arith

  -- What Relay promises of its result.
  abbrev Forwarded : List ℕ → Run S → Type 0
  Forwarded total none = Unit
  Forwarded total (some (e, w)) =
      (rest : List ℕ) × (w.output ++ rest ≡ total) × (e ≡ none → rest ≡ [])

  relay_loop-Forwarded :
      (n : ℕ) (total : List ℕ) (w : Wire S)
      → w.output ++ w.input ≡ total
      → Forwarded total (relay_loop f n w)
  unfolding relay_loop
  relay_loop-Forwarded zero total w h = tt
  relay_loop-Forwarded (suc n) total w h = elim (read_full-cases 5 w) [
    | inr r ↦ rw (r, relay_loop) (w.input, h, clean_end-none w.input w.ending)
    | inl (bs, rest, e, _, r) ↦
        rw (r, relay_loop)
          (go (relay_loop f n) (relay_message f bs (record w { input = rest }))
            (relay_loop-Forwarded n total)
            (relay_message-Keeps bs total (record w { input = rest })
              (ap (λ l. w.output ++ l) e ∙ h)))
  ]
    where
      go :
          (loop : Wire S → Run S) (o : Out S (Unit {0}))
          → ((w' : Wire S) → w'.output ++ w'.input ≡ total → Forwarded total (loop w'))
          → Keeps total o
          → Forwarded total (on_message o loop)
      go loop (ok _ w') ih k = ih w' k
      go loop (err e w') ih (rest, k) = (rest, k, λ c. cc)

  -- What is written is a prefix of what was to be read, on every branch: nothing is dropped, changed
  -- or reordered. After a clean end all of it has been written.
  pub relay-forwards :
      (w w' : Wire S) (e : Option Error)
      → relay f w ≡ some (e, w')
      → (rest : List ℕ) × (w'.output ++ rest ≡ w.output ++ w.input) × (e ≡ none → rest ≡ [])
  unfolding relay
  relay-forwards w w' e h =
      subst (Forwarded (w.output ++ w.input)) h
        (relay_loop-Forwarded (suc (length w.input)) (w.output ++ w.input) w refl)

  -- A round leaves no more to read than it found.
  abbrev Shrinks : ℕ → Out S (Unit {0}) → Type 0
  Shrinks n (ok _ w) = length w.input ≤ n
  Shrinks n (err _ w) = Unit

  relay_message-Shrinks :
      (header : List ℕ) (w : Wire S) → Shrinks (length w.input) (relay_message f header w)
  unfolding relay_message relay_buffered relay_streamed inspect_with write copy_n read_full
  relay_message-Shrinks header w = ground (arith, length-drop (header_length header - 4) w.input)

  relay_loop-total :
      (n : ℕ) (w : Wire S)
      → length w.input < n
      → (r : Option Error × Wire S) × (relay_loop f n w ≡ some r)
  unfolding relay_loop
  relay_loop-total zero w h = absurd (omega arith)
  relay_loop-total (suc n) w h = elim (read_full-cases 5 w) [
    | inr r ↦ rw (r, relay_loop) (_, refl)
    | inl (bs, rest, e, l, r) ↦
        rw (r, relay_loop)
          (go (relay_loop f n) (relay_message f bs (record w { input = rest }))
            (λ w' k.
              relay_loop-total n w'
                (omega (arith, ap (λ (x : List ℕ). length x) e, length-append bs rest)))
            (relay_message-Shrinks bs (record w { input = rest })))
  ]
    where
      go :
          {m : ℕ} (loop : Wire S → Run S) (o : Out S (Unit {0}))
          → ((w' : Wire S) → length w'.input ≤ m → (r : Option Error × Wire S) × (loop w' ≡ some r))
          → Shrinks m o
          → (r : Option Error × Wire S) × (on_message o loop ≡ some r)
      go loop (ok _ w') ih k = ih w' k
      go loop (err e w') ih k = (_, refl)

  -- Relay returns on every input, whatever the destination and the callback do.
  pub relay-total : (w : Wire S) → (r : Option Error × Wire S) × (relay f w ≡ some r)
  unfolding relay
  relay-total w = relay_loop-total (suc (length w.input)) w (omega arith)

  -- Relay returns on every input. What it has written is a prefix of what it was sent after what the
  -- destination already held, and all of it if Relay returns nil.
  pub relay-faithful :
      (w : Wire S)
      → (e : Option Error) × (w' : Wire S) × (relay f w ≡ some (e, w'))
        × (rest : List ℕ) × (w'.output ++ rest ≡ w.output ++ w.input)
        × (e ≡ none → rest ≡ [])
  relay-faithful w =
      let ((e, w'), h) = relay-total w in
      let (rest, whole, all) = relay-forwards w w' e h in (e, w', h, rest, whole, all)
