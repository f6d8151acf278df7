-- ===== src/Sql/Classify.antt =====
-- internal/classify/classify.go: whether a query may be served by a replica. The parser, and the case
-- folding of the standard library, are parameters.
pub mod Walk
pub mod Sound
use pgpilot.Base.{
  ◌||◌, not, String, Bool, true, false, List, [], ◌∷◌, Option, none, some, if◌then◌else◌, ◌==◌,
  string_eq, contains,
}
use pgpilot.Sql.Tree.{
  Node, Nodes, absent, insert_stmt, update_stmt, delete_stmt, merge_stmt, select_stmt, func_call,
  explain_stmt, variable_show_stmt, prepare_stmt, listen_stmt, notify_stmt, unlisten_stmt,
  create_stmt, variable_set_stmt, other, nil, cons,
}

pub data Class : Type 0 where
  read write : Class

abbrev pub volatile_funcs : List String
volatile_funcs =
    "nextval" ∷ "setval" ∷ "currval" ∷ "lastval" ∷ "random" ∷ "gen_random_uuid" ∷ "uuid_generate_v4"
    ∷ "clock_timestamp" ∷ "timeofday" ∷ "pg_sleep" ∷ []

module _ (to_lower : String → String) (equal_fold : String → String → Bool) where
  abbrev pub last_is_volatile : Option String → Bool
  last_is_volatile none = false
  last_is_volatile (some s) = contains volatile_funcs (to_lower s)

  -- isVolatile: the last part of the name decides.
  unfoldable pub is_volatile : List (Option String) → Bool
  is_volatile [] = false
  is_volatile (p ∷ []) = last_is_volatile p
  is_volatile (p ∷ q ∷ ps) = is_volatile (q ∷ ps)

  -- writesInSubtree: the walk visits the node and all below it; once `found` is set it stays.
  unfoldable mutual
    pub writes_in_subtree : Node → Bool
    writes_in_subtree absent = false
    writes_in_subtree (insert_stmt cs) = true
    writes_in_subtree (update_stmt cs) = true
    writes_in_subtree (delete_stmt cs) = true
    writes_in_subtree (merge_stmt cs) = true
    writes_in_subtree (select_stmt i l arm cs) = l || writes_in_any cs
    writes_in_subtree (func_call n cs) = is_volatile n || writes_in_any cs
    writes_in_subtree (explain_stmt o q cs) = writes_in_subtree q || writes_in_any cs
    writes_in_subtree (variable_show_stmt cs) = writes_in_any cs
    writes_in_subtree (prepare_stmt cs) = writes_in_any cs
    writes_in_subtree (listen_stmt cs) = writes_in_any cs
    writes_in_subtree (notify_stmt cs) = writes_in_any cs
    writes_in_subtree (unlisten_stmt cs) = writes_in_any cs
    writes_in_subtree (create_stmt r cs) = writes_in_any cs
    writes_in_subtree (variable_set_stmt l cs) = writes_in_any cs
    writes_in_subtree (other cs) = writes_in_any cs

    pub writes_in_any : Nodes → Bool
    writes_in_any nil = false
    writes_in_any (cons n ns) = writes_in_subtree n || writes_in_any ns

  abbrev pub is_analyze : Option String → Bool
  is_analyze none = false
  is_analyze (some d) = equal_fold d "analyze"

  -- explainExecutes
  unfoldable pub explain_executes : List (Option String) → Bool
  explain_executes [] = false
  explain_executes (o ∷ os) = is_analyze o || explain_executes os

  -- classifyStmt
  unfoldable pub classify_stmt : Node → Class
  unfolding explain_executes writes_in_subtree
  classify_stmt (explain_stmt os q cs) =
      let inner = classify_stmt q in if explain_executes os then inner else read
  classify_stmt (select_stmt into locking arm cs) =
      if into
      then write
      else if writes_in_subtree (select_stmt into locking arm cs)
      then write
      else read
  classify_stmt (variable_show_stmt cs) = read
  classify_stmt _ = write

  unfoldable pub classify_all : List Node → Class
  unfolding classify_stmt
  classify_all [] = read
  classify_all (n ∷ ns) =
      let rest = classify_all ns in elim (classify_stmt n) [ write ↦ write | read ↦ rest ]

  module _ (parse : String → Option (List Node)) where
    abbrev pub classify_parsed : Option (List Node) → Class
    classify_parsed none = write
    classify_parsed (some ns) = classify_all ns

    -- Classify; `none` is a parse error.
    unfoldable pub classify : String → Class
    unfolding classify_all
    classify sql = classify_parsed (parse sql)
