-- ===== src/Sql/Tree.antt =====
-- The parse trees of pg_query, as far as the program looks at them. A node carries what the accessors
-- are asked for and, as its children, the nodes below it with no other node between, which is what the
-- reflective walk of classify.go visits. `absent` is the nil pointer.
use pgpilot.Base.{String, Bool, List, Option}

mutual
  pub data Node : Type 0 where
    absent : Node
    insert_stmt : Nodes → Node
    update_stmt : Nodes → Node
    delete_stmt : Nodes → Node
    merge_stmt : Nodes → Node
    -- whether there is an INTO clause, whether there is a locking clause, and whether an arm of a set
    -- operation, which is no node, has an INTO clause
    select_stmt : Bool → Bool → Bool → Nodes → Node
    -- the parts of the name, `none` for a part that is no string
    func_call : List (Option String) → Nodes → Node
    -- the names of the options, `none` for one that is no DefElem; and the statement
    explain_stmt : List (Option String) → Node → Nodes → Node
    variable_show_stmt : Nodes → Node
    prepare_stmt : Nodes → Node
    listen_stmt : Nodes → Node
    notify_stmt : Nodes → Node
    unlisten_stmt : Nodes → Node
    -- the persistence of the relation, if there is a relation
    create_stmt : Option String → Nodes → Node
    -- whether it is SET LOCAL
    variable_set_stmt : Bool → Nodes → Node
    other : Nodes → Node

  pub data Nodes : Type 0 where
    nil : Nodes
    cons : Node → Nodes → Nodes
