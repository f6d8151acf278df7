-- ===== src/Sql/Classify/Sound.antt =====
-- Classify answers read for exactly the queries whose every statement is a safe read.
use pgpilot.Base.{
  ◌≡◌, ◌↔◌, refl, ◌⊎◌, inl, inr, ◌||◌, String, Bool, true, false, Bool-cases, List, [], ◌∷◌, Option,
  some, arith, All, Option-cases,
}
use pgpilot.Sql.Tree.{Node, Nodes, select_stmt, explain_stmt, variable_show_stmt}
use pgpilot.Sql.Classify.Walk.{Among, Inside, self, below, writes_here, Inside-false, none-Inside}
use pgpilot.Sql.Classify.{
  Class, read, write, explain_executes, classify_stmt, classify_all, classify,
}

Class-cases : (c : Class) → (c ≡ read) ⊎ (c ≡ write)
Class-cases read = inl refl
Class-cases write = inr refl

write≢read {ℓ} : {A : Type ℓ} → write ≡ read → A
write≢read h = absurd (cc h)

module _ (to_lower : String → String) (equal_fold : String → String → Bool) where
  -- An INTO clause stands in this node, or in an arm of its set operation.
  abbrev pub stores_here : Node → Bool
  stores_here (select_stmt into locking arm cs) = into || arm
  stores_here _ = false

  -- The statements that a replica may run: SHOW, EXPLAIN that only plans, EXPLAIN ANALYZE of such a
  -- statement, and SELECT with no INTO, no modification, no locking clause and no volatile function
  -- in it or anywhere below.
  pub data IsRead : Node → Type 0 where
    shows : {cs : Nodes} → IsRead (variable_show_stmt cs)
    plans :
        {os : List (Option String)} {q : Node} {cs : Nodes}
        → explain_executes to_lower equal_fold os ≡ false
        → IsRead (explain_stmt os q cs)
    analyzes :
        {os : List (Option String)} {q : Node} {cs : Nodes}
        → IsRead q
        → IsRead (explain_stmt os q cs)
    selects :
        {into locking arm : Bool} {cs : Nodes}
        → ((m : Node)
            → Inside m (select_stmt into locking arm cs)
            → (writes_here to_lower equal_fold m ≡ false) × (stores_here m ≡ false))
        → IsRead (select_stmt into locking arm cs)

  -- An INTO stands nowhere but at the top of a statement, or of the one that it explains.
  abbrev pub IntoOnTop : Node → Type 0
  IntoOnTop (select_stmt into locking arm cs) =
      (arm ≡ false) × ((c m : Node) → Among c cs → Inside m c → stores_here m ≡ false)
  IntoOnTop (explain_stmt os q cs) = IntoOnTop q
  IntoOnTop _ = Unit

  stores-Inside :
      (into locking arm : Bool) (cs : Nodes)
      → into ≡ false
      → IntoOnTop (select_stmt into locking arm cs)
      → (m : Node) → Inside m (select_stmt into locking arm cs)
      → stores_here m ≡ false
  stores-Inside into locking arm cs e t m (self k) = rw (k, e) t.0
  stores-Inside into locking arm cs e t m (below c a i) = t.1 c m a i

  classify_stmt-IsRead :
      (n : Node) → IntoOnTop n → classify_stmt to_lower equal_fold n ≡ read → IsRead n
  unfolding classify_stmt
  classify_stmt-IsRead (select_stmt i l arm cs) t h = selects λ m k. (
    Inside-false to_lower equal_fold m _ k (ground arith),
    stores-Inside i l arm cs (ground arith) t m k,
  )
  classify_stmt-IsRead (explain_stmt o q cs) t h =
      elim (Bool-cases (explain_executes to_lower equal_fold o)) [
        | inl e ↦ analyzes (classify_stmt-IsRead q t (rw e at h))
        | inr e ↦ plans e
      ]
  classify_stmt-IsRead (variable_show_stmt cs) t h = shows
  classify_stmt-IsRead _ t h = absurd (cc h)

  -- A SELECT with nothing in it that writes is a read to classifyStmt, whatever its arms store.
  select-read :
      (locking arm : Bool) (cs : Nodes)
      → ((m : Node)
          → Inside m (select_stmt false locking arm cs)
          → writes_here to_lower equal_fold m ≡ false)
      → classify_stmt to_lower equal_fold (select_stmt false locking arm cs) ≡ read
  unfolding classify_stmt
  select-read locking arm cs p =
      rw (none-Inside to_lower equal_fold (select_stmt false locking arm cs) p) refl

  IsRead-classify_stmt : (n : Node) → IsRead n → classify_stmt to_lower equal_fold n ≡ read
  unfolding classify_stmt
  IsRead-classify_stmt n shows = refl
  IsRead-classify_stmt n (plans e) = rw e refl
  IsRead-classify_stmt n (analyzes {os = os} {q = q} r) = ground (arith, IsRead-classify_stmt q r)
  IsRead-classify_stmt n (selects {into = true} {locking = l} {arm = arm} {cs = cs} p) =
      absurd (cc ((p _ (self refl)).1))
  IsRead-classify_stmt n (selects {into = false} {locking = l} {arm = arm} {cs = cs} p) =
      select-read l arm cs λ m k. (p m k).0

  classify_all-IsRead :
      (ns : List Node)
      → All IntoOnTop ns
      → classify_all to_lower equal_fold ns ≡ read
      → All IsRead ns
  unfolding classify_all
  classify_all-IsRead [] t h = tt
  classify_all-IsRead (n ∷ ns) t h = elim (Class-cases (classify_stmt to_lower equal_fold n)) [
    | inl e ↦ (classify_stmt-IsRead n t.0 e, classify_all-IsRead ns t.1 (rw (e, classify_all) at h))
    | inr e ↦ write≢read (rw (e, classify_all) at h)
  ]

  IsRead-classify_all :
      (ns : List Node) → All IsRead ns → classify_all to_lower equal_fold ns ≡ read
  unfolding classify_all
  IsRead-classify_all [] a = refl
  IsRead-classify_all (n ∷ ns) (a, rest) =
      rw (IsRead-classify_stmt n a, classify_all) (IsRead-classify_all ns rest)

  one_read :
      (n : Node)
      → classify_stmt to_lower equal_fold n ≡ read
      → classify_all to_lower equal_fold (n ∷ []) ≡ read
  unfolding classify_all
  one_read n e = rw (e, classify_all) refl

  module _ (parse : String → Option (List Node)) where
    classify-read :
        (sql : String)
        → ((ns : List Node) → parse sql ≡ some ns → All IntoOnTop ns)
        → classify to_lower equal_fold parse sql ≡ read
        → (ns : List Node) × (parse sql ≡ some ns) × All IsRead ns
    unfolding classify
    classify-read sql t h = elim (Option-cases (parse sql)) [
      | inl e ↦ write≢read (rw e at h)
      | inr (ns, e) ↦ (ns, e, classify_all-IsRead ns (t ns e) (rw e at h))
    ]

    read-classify :
        (sql : String) (ns : List Node)
        → parse sql ≡ some ns
        → All IsRead ns
        → classify to_lower equal_fold parse sql ≡ read
    unfolding classify
    read-classify sql ns e a = rw e (IsRead-classify_all ns a)

    -- If INTO stands nowhere but at the top of a statement, or of the one that it explains, then
    -- Classify calls a query a read exactly if it parses and every statement of it is a safe read.
    pub classify_iff :
        (sql : String)
        → ((ns : List Node) → parse sql ≡ some ns → All IntoOnTop ns)
        → (classify to_lower equal_fold parse sql ≡ read)
          ↔ ((ns : List Node) × (parse sql ≡ some ns) × All IsRead ns)
    classify_iff sql t = (classify-read sql t, λ (ns, e, a). read-classify sql ns e a)

    -- A single SELECT whose INTO stands in an arm of its set operation is classified as a read, unless
    -- something else in it writes, although it is no safe read.
    pub classify-misses :
        (sql : String) (cs : Nodes)
        → parse sql ≡ some (select_stmt false false true cs ∷ [])
        → ((m : Node)
            → Inside m (select_stmt false false true cs)
            → writes_here to_lower equal_fold m ≡ false)
        → (classify to_lower equal_fold parse sql ≡ read)
          × ¬ IsRead (select_stmt false false true cs)
    unfolding classify classify_all
    classify-misses sql cs e p =
        (rw e (one_read (select_stmt false false true cs) (select-read false true cs p)), no_read)
      where
        no_read : ¬ IsRead (select_stmt false false true cs)
        no_read (selects q) = absurd (cc ((q _ (self refl)).1))
