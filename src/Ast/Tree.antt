-- ===== src/Ast/Tree.antt =====
-- src/ast.rs: the syntax tree of types, expressions, queries and statements, as the parser builds
-- it. The Rust types form one family, indexed by which of them a node is: a struct is the one
-- constructor of its sort, a variant is a constructor of its enum's sort, and `many` and `maybe`
-- are `Vec` and `Option` of a sort. `Expr.arith`, which the checker sets later, is left out.
use jwc_lang.Prelude.{ℕ, Bool, Option, none, some, List, [], ◌∷◌, Bytes}
use jwc_lang.Token.{Span}
use jwc_lang.Ast.{BinOp}

-- the trivia in front of an item, by kind
pub record Attached : Type 0 where
  pub docs : List Bytes
  pub comments : List Bytes
  pub blocks : List (List Bytes)
  pub blank_before : Bool

pub record Ident : Type 0 where
  pub name : Bytes
  pub span : Span

pub record DottedName : Type 0 where
  pub parts : List Ident
  pub span : Span

pub record QualifiedTable : Type 0 where
  pub database : Ident
  pub schema : Ident
  pub object : Ident
  pub span : Span

pub data UnaryOp : Type 0 where
  not_op neg_op : UnaryOp

pub data NullsOrder : Type 0 where
  nulls_first nulls_last : NullsOrder

pub data JoinKind : Type 0 where
  left_join inner_join : JoinKind

pub data Cardinality : Type 0 where
  one_row many_rows group_rows : Cardinality

pub data AssignTarget : Type 0 where
  local_target : Ident → Bool → AssignTarget
  context_target : Ident → AssignTarget
  field_target : Ident → Bool → List Ident → AssignTarget

pub data Sort : Type 0 where
  type_ref type_kind record_field : Sort
  expr expr_kind obj_entry : Sort
  select_expr join_clause join_result object_shape proj_field sort_key page_clause : Sort
  insert_expr conflict_clause conflict_action update_expr set_item delete_expr : Sort
  stmt assert_kind dispatch_arg : Sort
  many maybe : Sort → Sort

pub data Node : Sort → Type 0 where
  empty : {k : Sort} → Node (many k)
  more : {k : Sort} → Node k → Node (many k) → Node (many k)
  absent : {k : Sort} → Node (maybe k)
  present : {k : Sort} → Node k → Node (maybe k)
  -- kind, array depth, optional, optional of each array level, span
  type_at : Node type_kind → ℕ → Bool → List Bool → Span → Node type_ref
  scalar : Bytes → List ℕ → Node type_kind
  record_type : Node (many record_field) → Node type_kind
  named : DottedName → Node type_kind
  typed : Ident → Node type_ref → Node record_field
  expr_at : Node expr_kind → Span → Node expr
  int : Bytes → Node expr_kind
  decimal : Bytes → Node expr_kind
  str : Bytes → Node expr_kind
  raw_str : Bytes → Node expr_kind
  bool : Bool → Node expr_kind
  null : Node expr_kind
  name : Ident → Node expr_kind
  local : Ident → Node expr_kind
  field : Node expr → Ident → Node expr_kind
  index : Node expr → Node expr → Node expr_kind
  -- callee, arguments, filter
  call : Node expr → Node (many expr) → Node (maybe expr) → Node expr_kind
  unary : UnaryOp → Node expr → Node expr_kind
  binary : BinOp → Node expr → Node expr → Node expr_kind
  ternary : Node expr → Node expr → Node expr → Node expr_kind
  coalesce : Node expr → Node expr → Node expr_kind
  -- `negated` last
  in_list : Node expr → Node (many expr) → Bool → Node expr_kind
  exists : Node expr → Bool → Node expr_kind
  object : Node (many obj_entry) → Node expr_kind
  array : Node (many expr) → Node expr_kind
  select : Node select_expr → Node expr_kind
  insert : Node insert_expr → Node expr_kind
  update : Node update_expr → Node expr_kind
  delete : Node delete_expr → Node expr_kind
  or_throw : Node expr → Ident → Node (many expr) → Node expr_kind
  -- value, error, binder, body
  catch_postfix : Node expr → Ident → Ident → Node (many stmt) → Node expr_kind
  cast : Node expr → Ident → Node expr_kind
  with_headers : Node expr → Node (many obj_entry) → Node expr_kind
  cookie : Node expr → Node (many expr) → Node expr_kind
  -- key, value, whether `=` was written
  entry : Attached → Ident → Node expr → Bool → Span → Node obj_entry
  spread : Attached → Ident → List Ident → Span → Node obj_entry
  -- binder, source, joins, where, group by, having, projection, orderby, limit, page, first
  select_at :
      Ident
      → QualifiedTable
      → Node (many join_clause)
      → Node (maybe expr)
      → Node (many expr)
      → Node (maybe expr)
      → Node (maybe object_shape)
      → Node (many sort_key)
      → Node (maybe expr)
      → Node (maybe page_clause)
      → Bool
      → Span
      → Node select_expr
  -- kind, table, binder, on, where, result
  join_at :
      JoinKind
      → QualifiedTable
      → Ident
      → Node expr
      → Node (maybe expr)
      → Node (maybe join_result)
      → Span
      → Node join_clause
  -- cardinality, name, under, orderby, limit
  result_at :
      Cardinality
      → Ident
      → Option Ident
      → Node (many sort_key)
      → Node (maybe expr)
      → Span
      → Node join_result
  shape_at : Node (many proj_field) → Span → Node object_shape
  column : Option Ident → Ident → Node proj_field
  computed : Ident → Node expr → Span → Node proj_field
  nested : Ident → Node object_shape → Span → Node proj_field
  sort_at : Node expr → Bool → Option NullsOrder → Span → Node sort_key
  -- after, size, max
  page_at : Node (maybe expr) → Node expr → Node (maybe expr) → Span → Node page_clause
  -- binder, table, values, conflict, projection, buffered
  insert_at :
      Ident
      → QualifiedTable
      → Node (many obj_entry)
      → Node (maybe conflict_clause)
      → Node (maybe object_shape)
      → Bool
      → Span
      → Node insert_expr
  conflict_at : List Ident → Node conflict_action → Span → Node conflict_clause
  do_nothing : Node conflict_action
  do_update : Node (many set_item) → Node conflict_action
  -- binder, table, sets, where, projection, orderby, first
  update_at :
      Ident
      → QualifiedTable
      → Node (many set_item)
      → Node (maybe expr)
      → Node (maybe object_shape)
      → Node (many sort_key)
      → Bool
      → Span
      → Node update_expr
  -- column, value, optional
  set_to : Ident → Node expr → Bool → Span → Node set_item
  set_spread : Ident → List Ident → Span → Node set_item
  -- binder, table, where, projection, orderby, first
  delete_at :
      Ident
      → QualifiedTable
      → Node (maybe expr)
      → Node (maybe object_shape)
      → Node (many sort_key)
      → Bool
      → Span
      → Node delete_expr
  let_stmt : Attached → Ident → Node (maybe type_ref) → Node expr → Span → Node stmt
  assign : Attached → AssignTarget → Node expr → Span → Node stmt
  if_stmt : Attached → Node expr → Node (many stmt) → Node (maybe (many stmt)) → Span → Node stmt
  for_stmt : Attached → Ident → Node expr → Node (many stmt) → Span → Node stmt
  while_stmt : Attached → Node expr → Node (many stmt) → Span → Node stmt
  return_stmt : Attached → Node (maybe expr) → Span → Node stmt
  throw_stmt : Attached → Ident → Node (many expr) → Span → Node stmt
  transaction : Attached → Node (many stmt) → Span → Node stmt
  break_stmt : Attached → Span → Node stmt
  continue_stmt : Attached → Span → Node stmt
  assert_stmt : Attached → Node assert_kind → Span → Node stmt
  dispatch : Attached → Ident → Node (many dispatch_arg) → Span → Node stmt
  expr_stmt : Attached → Node expr → Span → Node stmt
  assert_expr : Node expr → Node assert_kind
  -- error, body, message and its span
  assert_fails : Option Ident → Node (many stmt) → Option Bytes → Option Span → Node assert_kind
  argument : Ident → Node expr → Node dispatch_arg

abbrev pub Expr : Type 0
Expr = Node expr

abbrev pub Block : Type 0
Block = Node (many stmt)

-- `Expr::span`, and the same field of the other structs
unfoldable pub expr_span : Node expr → Span
expr_span (expr_at _ s) = s

unfoldable pub shape_span : Node object_shape → Span
shape_span (shape_at _ s) = s

unfoldable pub sort_span : Node sort_key → Span
sort_span (sort_at _ _ _ s) = s

unfoldable pub select_span : Node select_expr → Span
select_span (select_at _ _ _ _ _ _ _ _ _ _ _ s) = s

unfoldable pub insert_span : Node insert_expr → Span
insert_span (insert_at _ _ _ _ _ _ s) = s

unfoldable pub update_span : Node update_expr → Span
update_span (update_at _ _ _ _ _ _ _ s) = s

unfoldable pub delete_span : Node delete_expr → Span
delete_span (delete_at _ _ _ _ _ _ s) = s

unfoldable pub join_span : Node join_clause → Span
join_span (join_at _ _ _ _ _ _ s) = s

unfoldable pub page_span : Node page_clause → Span
page_span (page_at _ _ _ s) = s

unfoldable pub conflict_span : Node conflict_clause → Span
conflict_span (conflict_at _ _ s) = s

unfoldable pub set_span : Node set_item → Span
set_span (set_to _ _ _ s) = s
set_span (set_spread _ _ s) = s

unfoldable pub type_span : Node type_ref → Span
type_span (type_at _ _ _ _ s) = s

unfoldable pub vec : {k : Sort} → List (Node k) → Node (many k)
vec [] = empty
vec (x ∷ xs) = more x (vec xs)

unfoldable pub opt : {k : Sort} → Option (Node k) → Node (maybe k)
opt none = absent
opt (some x) = present x
