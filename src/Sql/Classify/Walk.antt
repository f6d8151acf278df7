-- ===== src/Sql/Classify/Walk.antt =====
-- What writesInSubtree of internal/classify/classify.go finds, in terms of single nodes.
use pgpilot.Base.{◌≡◌, refl, ◌||◌, String, Bool, true, false, arith, sym, ◌∙◌}
use pgpilot.Sql.Tree.{
  Node, Nodes, absent, insert_stmt, update_stmt, delete_stmt, merge_stmt, select_stmt, func_call,
  explain_stmt, variable_show_stmt, prepare_stmt, listen_stmt, notify_stmt, unlisten_stmt,
  create_stmt, variable_set_stmt, other, nil, cons,
}
use pgpilot.Sql.Classify.{is_volatile, writes_in_subtree, writes_in_any}

-- The children of a node.
abbrev pub children : Node → Nodes
children absent = nil
children (insert_stmt cs) = cs
children (update_stmt cs) = cs
children (delete_stmt cs) = cs
children (merge_stmt cs) = cs
children (select_stmt i l arm cs) = cs
children (func_call n cs) = cs
children (explain_stmt o q cs) = cons q cs
children (variable_show_stmt cs) = cs
children (prepare_stmt cs) = cs
children (listen_stmt cs) = cs
children (notify_stmt cs) = cs
children (unlisten_stmt cs) = cs
children (create_stmt r cs) = cs
children (variable_set_stmt l cs) = cs
children (other cs) = cs

pub data Among (c : Node) : Nodes → Type 0 where
  head : {n : Node} {ns : Nodes} → c ≡ n → Among c (cons n ns)
  tail : {n : Node} {ns : Nodes} → Among c ns → Among c (cons n ns)

-- A node and everything below it.
pub data Inside (m : Node) : Node → Type 0 where
  self : {n : Node} → m ≡ n → Inside m n
  below : {n : Node} (c : Node) → Among c (children n) → Inside m c → Inside m n

module _ (to_lower : String → String) (equal_fold : String → String → Bool) where
  -- What writesInSubtree looks for in a single node.
  abbrev pub writes_here : Node → Bool
  writes_here (select_stmt into locking arm cs) = locking
  writes_here (func_call name cs) = is_volatile to_lower equal_fold name
  writes_here (insert_stmt cs) = true
  writes_here (update_stmt cs) = true
  writes_here (delete_stmt cs) = true
  writes_here (merge_stmt cs) = true
  writes_here _ = false

  -- The walk, one level at a time.
  writes_level :
      (n : Node)
      → writes_in_subtree to_lower equal_fold n
        ≡ (writes_here n || writes_in_any to_lower equal_fold (children n))
  unfolding writes_in_subtree writes_in_any
  writes_level absent = refl
  writes_level (insert_stmt cs) = refl
  writes_level (update_stmt cs) = refl
  writes_level (delete_stmt cs) = refl
  writes_level (merge_stmt cs) = refl
  writes_level (select_stmt i l arm cs) = refl
  writes_level (func_call f cs) = refl
  writes_level (explain_stmt o q cs) = refl
  writes_level (variable_show_stmt cs) = refl
  writes_level (prepare_stmt cs) = refl
  writes_level (listen_stmt cs) = refl
  writes_level (notify_stmt cs) = refl
  writes_level (unlisten_stmt cs) = refl
  writes_level (create_stmt r cs) = refl
  writes_level (variable_set_stmt l cs) = refl
  writes_level (other cs) = refl

  or_false : (a b : Bool) → (a || b) ≡ false → (a ≡ false) × (b ≡ false)
  or_false a b h = ground arith

  false_or : (a b : Bool) → a ≡ false → b ≡ false → (a || b) ≡ false
  false_or a b h k = ground arith

  Among-false :
      (c : Node) (ns : Nodes)
      → writes_in_any to_lower equal_fold ns ≡ false
      → Among c ns
      → writes_in_subtree to_lower equal_fold c ≡ false
  unfolding writes_in_any
  Among-false c nil h x = elim x [ ]
  Among-false c (cons n ns) h (head e) = rw e (or_false _ _ h).0
  Among-false c (cons n ns) h (tail a) = Among-false c ns (or_false _ _ h).1 a

  -- A walk that finds nothing has found nothing in any node.
  pub Inside-false :
      (m n : Node)
      → Inside m n
      → writes_in_subtree to_lower equal_fold n ≡ false
      → writes_here m ≡ false
  Inside-false m n (self e) h = rw e (or_false _ _ (sym (writes_level n) ∙ h)).0
  Inside-false m n (below c a i) h =
      Inside-false m c i (Among-false c (children n) (or_false _ _ (sym (writes_level n) ∙ h)).1 a)

  mutual
    unfolding writes_in_subtree writes_in_any

    pub none-Inside :
        (n : Node)
        → ((m : Node) → Inside m n → writes_here m ≡ false)
        → writes_in_subtree to_lower equal_fold n ≡ false
    none-Inside absent h = refl
    none-Inside (insert_stmt cs) h = h (insert_stmt cs) (self refl)
    none-Inside (update_stmt cs) h = h (update_stmt cs) (self refl)
    none-Inside (delete_stmt cs) h = h (delete_stmt cs) (self refl)
    none-Inside (merge_stmt cs) h = h (merge_stmt cs) (self refl)
    none-Inside (select_stmt i l arm cs) h =
        false_or _ _ (h _ (self refl)) (none-Among cs λ c a m i. h m (below c a i))
    none-Inside (func_call f cs) h =
        false_or _ _ (h _ (self refl)) (none-Among cs λ c a m i. h m (below c a i))
    none-Inside (explain_stmt o q cs) h =
        false_or _ _ (none-Inside q λ m i. h m (below q (head refl) i))
          (none-Among cs λ c a m i. h m (below c (tail a) i))
    none-Inside (variable_show_stmt cs) h = none-Among cs λ c a m i. h m (below c a i)
    none-Inside (prepare_stmt cs) h = none-Among cs λ c a m i. h m (below c a i)
    none-Inside (listen_stmt cs) h = none-Among cs λ c a m i. h m (below c a i)
    none-Inside (notify_stmt cs) h = none-Among cs λ c a m i. h m (below c a i)
    none-Inside (unlisten_stmt cs) h = none-Among cs λ c a m i. h m (below c a i)
    none-Inside (create_stmt r cs) h = none-Among cs λ c a m i. h m (below c a i)
    none-Inside (variable_set_stmt l cs) h = none-Among cs λ c a m i. h m (below c a i)
    none-Inside (other cs) h = none-Among cs λ c a m i. h m (below c a i)

    none-Among :
        (ns : Nodes)
        → ((c : Node) → Among c ns → (m : Node) → Inside m c → writes_here m ≡ false)
        → writes_in_any to_lower equal_fold ns ≡ false
    none-Among nil h = refl
    none-Among (cons n ns) h =
        false_or _ _ (none-Inside n (h n (head refl))) (none-Among ns λ c a. h c (tail a))
