-- ===== src/Tests/Sql.antt =====
-- Runs of internal/classify and internal/detect on a parser that knows two queries.
use pgpilot.Base.{
  ◌≡◌, ◌↔◌, refl, ◌==◌, string_eq, if◌then◌else◌, String, Bool, true, false, List, subst, [], ◌∷◌,
  Option, some, All,
}
use pgpilot.Sql.Tree.{
  Node, select_stmt, func_call, explain_stmt, prepare_stmt, other, nil, cons, delete_stmt,
}
use pgpilot.Sql.Classify.{
  read, write, classify, classify_all, classify_stmt, writes_in_subtree, is_volatile,
  explain_executes,
}
use pgpilot.Sql.Classify.Sound.{IsRead, IntoOnTop, stores_here, classify_iff, classify-misses}
use pgpilot.Sql.Classify.Walk.{Among, head, tail, Inside, self, below, children, writes_here}
use pgpilot.Sql.Detect.{breaks_tx_pooling, first_feature, breaking_stmt, prepared_statement}
use pgpilot.Sql.Detect.Writes.{breaks_tx_pooling-classify}

abbrev lower : String → String
lower s = s

abbrev fold : String → String → Bool
fold s t = s == t

-- SELECT lower(x) FROM t; and EXPLAIN DELETE FROM t.
abbrev safe : List Node
safe =
    select_stmt false false false (cons (func_call (some "lower" ∷ []) nil) nil)
    ∷ explain_stmt [] (delete_stmt nil) nil
    ∷ []

abbrev parse : String → Option (List Node)
parse sql = if sql == "safe" then some safe else some (other nil ∷ prepare_stmt nil ∷ [])

safe_is_read : classify lower fold parse "safe" ≡ read
unfolding classify classify_all classify_stmt writes_in_subtree is_volatile explain_executes
safe_is_read = refl

into_on_top : (ns : List Node) → some safe ≡ some ns → All (IntoOnTop lower fold) ns
into_on_top ns e =
    let same : safe ≡ ns = cc e in
    subst (All (IntoOnTop lower fold)) same ((refl, nothing_below), (tt, tt))
  where
    nothing_below :
        (c m : Node)
        → Among c (cons (func_call (some "lower" ∷ []) nil) nil)
        → Inside m c
        → stores_here lower fold m ≡ false
    nothing_below c m (head e) (self k) = rw (k, e) refl
    nothing_below c m (head e) (below d a i) =
        absurd (none_below d (subst (λ n. Among d (children n)) e a))
      where
        none_below : (d : Node) → ¬ Among d nil
        none_below d a = elim a [ ]
    nothing_below c m (tail a) i = elim a [ ]

classify_iff_example :
    (classify lower fold parse "safe" ≡ read)
    ↔ ((ns : List Node) × (parse "safe" ≡ some ns) × All (IsRead lower fold) ns)
classify_iff_example = classify_iff lower fold parse "safe" into_on_top

-- SELECT 1 INTO t UNION SELECT 2
abbrev hidden : Node
hidden = select_stmt false false true nil

hidden_writes_nothing : (m : Node) → Inside m hidden → writes_here lower fold m ≡ false
hidden_writes_nothing m (self e) = rw e refl
hidden_writes_nothing m (below c a i) = elim a [ ]

classify-misses_run :
    (classify lower fold (λ _. some (hidden ∷ [])) "union" ≡ read) × ¬ IsRead lower fold hidden
classify-misses_run =
    classify-misses lower fold (λ _. some (hidden ∷ [])) "union" nil refl hidden_writes_nothing

-- Any statement, then PREPARE.
breaks_tx_pooling-classify_run : classify lower fold parse "unsafe" ≡ write
unfolding breaks_tx_pooling first_feature breaking_stmt
breaks_tx_pooling-classify_run =
    breaks_tx_pooling-classify lower fold parse "unsafe" prepared_statement refl
