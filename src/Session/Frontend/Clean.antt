-- ===== src/Session/Frontend/Clean.antt =====
-- When relayPooled of internal/proxy/session.go reports a connection clean enough to reuse.
use mathlib.Core.List.{append_assoc, append-nil}
use pgpilot.Base.{
  ℕ, zero, suc, ◌-◌, ◌≤◌, ◌<◌, ◌≡◌, refl, sym, ap, subst, ◌∙◌, ◌&&◌, not, inl, inr, Bool, true,
  false, List, [], ◌++◌, Option, none, some, arith, length, length-append, nat_beq, ltb, ltb-false,
  Bool-cases,
}
use pgpilot.Protocol.Wire.{Wire, Error, ok, read_full, write, copy_n}
use pgpilot.Protocol.Wire.Success.{
  ok_inj, read_full-ok, write-ok, bind_out-ok, copy_n-ok, out-cases,
}
use pgpilot.Protocol.Message.{header_kind, header_length}
use pgpilot.Session.Frontend.{
  Run, forward_one, frontend_loop, relay_frontend, is_nil, verdict, relay_pooled, header_failed,
}

-- Whole messages, none of them a Terminate: a header of five bytes and as many more as it says.
pub data IsWhole : List ℕ → Type 0 where
  no_message : IsWhole []
  message :
      (header body : List ℕ) {rest : List ℕ}
      → length header ≡ 5
      → nat_beq (header_kind header) b'X' ≡ false
      → 4 ≤ header_length header
      → length body ≡ header_length header - 4
      → IsWhole rest
      → IsWhole (header ++ (body ++ rest))

-- The client sent whole messages and then the header of a Terminate; the backend was sent exactly
-- those messages.
pub record IsRelayed {S : Type 0} (before after : Wire S) : Type 0 where
  pub messages : List ℕ
  pub header : List ℕ
  pub whole : IsWhole messages
  pub terminates : nat_beq (header_kind header) b'X' ≡ true
  pub full : length header ≡ 5
  pub reads : before.input ≡ messages ++ (header ++ after.input)
  pub writes : after.output ≡ before.output ++ messages

module _ {S : Type 0} where
  -- A round that forwards a message, and one that reads a Terminate.
  Forwarded : List ℕ → Wire S → Bool → Wire S → Type 0
  Forwarded header w true w' = (nat_beq (header_kind header) b'X' ≡ true) × (w' ≡ w)
  Forwarded header w false w' =
      (body : List ℕ) × (nat_beq (header_kind header) b'X' ≡ false)
      × (4 ≤ header_length header)
      × (length body ≡ header_length header - 4)
      × (w.input ≡ body ++ w'.input)
      × (w'.output ≡ (w.output ++ header) ++ body)

  forward_one-Forwarded :
      (header : List ℕ) (w w' : Wire S) (terminated : Bool)
      → forward_one header w ≡ ok terminated w'
      → Forwarded header w terminated w'
  unfolding forward_one Forwarded
  forward_one-Forwarded header w w' terminated h =
      elim (Bool-cases (nat_beq (header_kind header) b'X')) [
        | inl e ↦
            let (t, same) = ok_inj (rw e at h) in
            subst (λ b. Forwarded header w b w') t (e, sym same)
        | inr e ↦ elim (Bool-cases (ltb (header_length header) 4)) [
          | inl short ↦ absurd (cc (rw short at (rw e at h)))
          | inr long ↦
              let (v, w₁, sent, h₁) = bind_out-ok (write header w) _ (rw long at (rw e at h)) in
              let (u, w₂, copied, h₂) = bind_out-ok (copy_n (header_length header - 4) w₁) _ h₁ in
              let (t, same) = ok_inj h₂ in
              let (kept, out) = write-ok header w w₁ sent in
              let (body, input, size, more) = copy_n-ok (header_length header - 4) w₁ w₂ copied in
              subst (λ b. Forwarded header w b w') t
                (
                  body,
                  e,
                  ltb-false (header_length header) 4 long,
                  size,
                  sym kept ∙ input ∙ ap (λ v. body ++ v.input) same,
                  sym (ap (λ v. v.output) same) ∙ more ∙ ap (λ l. l ++ body) out,
                )
        ]
      ]

  run_inj :
      {t t' : Bool} {e e' : Option Error} {v w : Wire S}
      → ◌≡◌ {A = Run S} (some (t, e, v)) (some (t', e', w))
      → (t ≡ t') × (v ≡ w)
  run_inj h = (cc h, cc h)

  -- A run that ends by a Terminate.
  frontend_loop-IsRelayed :
      (n : ℕ) (w w' : Wire S) (e : Option Error)
      → frontend_loop n w ≡ some (true, e, w')
      → IsRelayed w w'
  unfolding frontend_loop Forwarded
  frontend_loop-IsRelayed zero w w' e h = absurd (cc h)
  frontend_loop-IsRelayed (suc n) w w' e h = elim (out-cases (read_full 5 w)) [
    | inr (error, w₁, r) ↦ let (t, _) = run_inj (rw r at h) in absurd (cc t)
    | inl (header, w₁, r) ↦
        let (input, full, kept) = read_full-ok 5 w w₁ r in
        elim (out-cases (forward_one header w₁)) [
          | inr (error, w₂, f) ↦ let (t, _) = run_inj (rw f at (rw r at h)) in absurd (cc t)
          | inl (true, w₂, f) ↦
              let (_, same) = run_inj (rw f at (rw r at h)) in
              let (terminates, stays) = forward_one-Forwarded header w₁ w₂ true f in
              record {
                messages = [];
                header = header;
                whole = no_message;
                terminates = terminates;
                full = full;
                reads = input ∙ ap (λ (v : Wire S). header ++ v.input) (sym stays ∙ same);
                writes =
                    ap (λ (v : Wire S). v.output) (sym same ∙ stays)
                    ∙ kept
                    ∙ sym (append-nil w.output);
              }
          | inl (false, w₂, f) ↦
              let (body, other, long, size, more, out) =
                forward_one-Forwarded header w₁ w₂ false f in
              let inner = frontend_loop-IsRelayed n w₂ w' e (rw f at (rw r at h)) in
              record {
                messages = header ++ (body ++ inner.messages);
                header = inner.header;
                whole = message header body full other long size inner.whole;
                terminates = inner.terminates;
                full = inner.full;
                reads =
                    input
                    ∙ ap (λ l. header ++ l)
                        (more
                          ∙ ap (λ l. body ++ l) inner.reads
                          ∙ sym (append_assoc body inner.messages (inner.header ++ w'.input)))
                    ∙ sym (append_assoc header (body ++ inner.messages) (inner.header ++ w'.input));
                writes =
                    inner.writes
                    ∙ ap (λ l. l ++ inner.messages) (out ∙ ap (λ l. (l ++ header) ++ body) kept)
                    ∙ append_assoc (w.output ++ header) body inner.messages
                    ∙ append_assoc w.output header (body ++ inner.messages);
              }
        ]
  ]

  verdict-true :
      (ended shut_down : Bool) (r : Run S) (w' : Wire S)
      → verdict ended shut_down r ≡ some (true, w')
      → (e : Option Error) × (r ≡ some (true, e, w')) × (ended ≡ false) × (shut_down ≡ false)
  verdict-true ended shut_down none w' h = absurd (cc h)
  verdict-true true shut_down (some (t, e, w)) w' h = absurd (cc h)
  verdict-true false true (some (false, e, w)) w' h = absurd (cc h)
  verdict-true false true (some (true, none, w)) w' h = absurd (cc h)
  verdict-true false true (some (true, some e, w)) w' h = absurd (cc h)
  verdict-true false false (some (false, e, w)) w' h = absurd (cc h)
  verdict-true false false (some (true, some e, w)) w' h = absurd (cc h)
  verdict-true false false (some (true, none, w)) w' h = (none, cc h, refl, refl)

  -- relayPooled reports a connection clean only if the relay from the backend had not ended before and
  -- the context is not done, and then the client has ended with a Terminate and the backend has been
  -- sent exactly the whole messages before it: the connection is not left inside a message.
  pub relay_pooled-IsRelayed :
      (backend_ended shut_down : Bool) (w w' : Wire S)
      → relay_pooled backend_ended shut_down w ≡ some (true, w')
      → IsRelayed w w' × (backend_ended ≡ false) × (shut_down ≡ false)
  unfolding relay_pooled relay_frontend
  relay_pooled-IsRelayed backend_ended shut_down w w' h =
      let (e, run, going, up) = verdict-true backend_ended shut_down (relay_frontend w) w' h in
      (frontend_loop-IsRelayed (suc (length w.input)) w w' e run, going, up)

  frontend_loop-total :
      (n : ℕ) (w : Wire S)
      → length w.input < n
      → (r : Bool × Option Error × Wire S) × (frontend_loop n w ≡ some r)
  unfolding frontend_loop Forwarded
  frontend_loop-total zero w lt = absurd (omega arith)
  frontend_loop-total (suc n) w lt = elim (out-cases (read_full 5 w)) [
    | inr (error, w₁, r) ↦ ((false, header_failed error, w₁), rw r refl)
    | inl (header, w₁, r) ↦
        let (input, full, _) = read_full-ok 5 w w₁ r in
        elim (out-cases (forward_one header w₁)) [
          | inr (error, w₂, f) ↦ ((false, some error, w₂), rw r (rw f refl))
          | inl (true, w₂, f) ↦ ((true, none, w₂), rw r (rw f refl))
          | inl (false, w₂, f) ↦
              let (body, _, _, _, more, _) = forward_one-Forwarded header w₁ w₂ false f in
              let (result, runs) = frontend_loop-total n w₂ (
                omega (
                  arith,
                  full,
                  ap length input,
                  length-append header w₁.input,
                  ap length more,
                  length-append body w₂.input,
                )) in
              (result, rw r (rw f runs))
        ]
  ]

  -- relayPooled comes to a verdict on every client and every backend.
  pub relay_pooled-total :
      (backend_ended shut_down : Bool) (w : Wire S)
      → (clean : Bool) × (w' : Wire S) × (relay_pooled backend_ended shut_down w ≡ some (clean, w'))
  unfolding relay_pooled relay_frontend
  relay_pooled-total true shut_down w =
      let ((t, e, w'), runs) = frontend_loop-total (suc (length w.input)) w (omega arith) in
      (false, w', rw runs refl)
  relay_pooled-total false shut_down w =
      let ((t, e, w'), runs) = frontend_loop-total (suc (length w.input)) w (omega arith) in
      (t && is_nil e && not shut_down, w', rw runs refl)
