-- ===== src/Sql/Detect.antt =====
-- internal/detect/detect.go: the statements that leave session state behind.
pub mod Writes
use pgpilot.Base.{String, List, [], ◌∷◌, Option, none, some, if◌then◌else◌, ◌==◌, string_eq}
use pgpilot.Sql.Tree.{
  Node, prepare_stmt, listen_stmt, notify_stmt, unlisten_stmt, create_stmt, variable_set_stmt,
}

pub data Feature : Type 0 where
  prepared_statement temp_table listen_notify session_guc unparseable : Feature

-- breakingStmt
unfoldable pub breaking_stmt : Node → Option Feature
breaking_stmt (prepare_stmt cs) = some prepared_statement
breaking_stmt (listen_stmt cs) = some listen_notify
breaking_stmt (notify_stmt cs) = some listen_notify
breaking_stmt (unlisten_stmt cs) = some listen_notify
breaking_stmt (create_stmt none cs) = none
breaking_stmt (create_stmt (some persistence) cs) =
    if persistence == "t" then some temp_table else none
breaking_stmt (variable_set_stmt is_local cs) = if is_local then none else some session_guc
breaking_stmt _ = none

-- The first feature of a list of statements.
unfoldable pub first_feature : List Node → Option Feature
unfolding breaking_stmt
first_feature [] = none
first_feature (n ∷ ns) =
    let rest = first_feature ns in elim (breaking_stmt n) [ some f ↦ some f | none ↦ rest ]

module _ (parse : String → Option (List Node)) where
  abbrev pub features_parsed : Option (List Node) → Option Feature
  features_parsed none = some unparseable
  features_parsed (some ns) = first_feature ns

  -- BreaksTxPooling; `none` is ("", false).
  unfoldable pub breaks_tx_pooling : String → Option Feature
  unfolding first_feature
  breaks_tx_pooling sql = features_parsed (parse sql)
