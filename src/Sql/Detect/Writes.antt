-- ===== src/Sql/Detect/Writes.antt =====
-- internal/detect/detect.go against internal/classify/classify.go: serveRouting asks BreaksTxPooling
-- only about queries that Classify calls writes.
use pgpilot.Base.{◌≡◌, refl, ◌⊎◌, inl, inr, String, Bool, List, [], ◌∷◌, Option, some, Option-cases}
use pgpilot.Sql.Tree.{Node, absent, select_stmt, explain_stmt, variable_show_stmt}
use pgpilot.Sql.Classify.{Class, read, write, classify_stmt, classify_all, classify}
use pgpilot.Sql.Detect.{Feature, breaking_stmt, first_feature, breaks_tx_pooling}

module _ (to_lower : String → String) (equal_fold : String → String → Bool) where
  breaking_stmt-classify_stmt :
      (n : Node) (f : Feature)
      → breaking_stmt n ≡ some f
      → classify_stmt to_lower equal_fold n ≡ write
  unfolding breaking_stmt classify_stmt
  breaking_stmt-classify_stmt absent f h = absurd (cc h)
  breaking_stmt-classify_stmt (select_stmt i l arm cs) f h = absurd (cc h)
  breaking_stmt-classify_stmt (explain_stmt o q cs) f h = absurd (cc h)
  breaking_stmt-classify_stmt (variable_show_stmt cs) f h = absurd (cc h)
  breaking_stmt-classify_stmt _ f h = refl

  Class-cases : (c : Class) → (c ≡ read) ⊎ (c ≡ write)
  Class-cases read = inl refl
  Class-cases write = inr refl

  first_feature-classify_all :
      (ns : List Node) (f : Feature)
      → first_feature ns ≡ some f
      → classify_all to_lower equal_fold ns ≡ write
  unfolding first_feature classify_all
  first_feature-classify_all [] f h = absurd (cc h)
  first_feature-classify_all (n ∷ ns) f h =
      elim (Class-cases (classify_stmt to_lower equal_fold n)) [
        | inr e ↦ rw (e, classify_all) refl
        | inl e ↦ elim (Option-cases (breaking_stmt n)) [
          | inl none_here ↦
              rw (e, classify_all)
                (first_feature-classify_all ns f (rw (none_here, first_feature) at h))
          | inr (g, found) ↦ absurd (cc (e, breaking_stmt-classify_stmt n g found))
        ]
      ]

  -- Every query for which BreaksTxPooling reports a feature, an unparseable one included, is a write
  -- to Classify.
  pub breaks_tx_pooling-classify :
      (parse : String → Option (List Node)) (sql : String) (f : Feature)
      → breaks_tx_pooling parse sql ≡ some f
      → classify to_lower equal_fold parse sql ≡ write
  unfolding breaks_tx_pooling classify
  breaks_tx_pooling-classify parse sql f h = elim (Option-cases (parse sql)) [
    | inl e ↦ rw e refl
    | inr (ns, e) ↦ rw e (first_feature-classify_all ns f (rw e at h))
  ]
