-- ===== src/Ast/Locals.antt =====
-- src/ast.rs: which expressions read a local, and the item of `xs = array.push(@xs, item)`.
pub mod Unread
mod Tests
use jwc_lang.Prelude.{
  Bool, true, false, ◌&&◌, ◌||◌, Option, none, some, Bytes, codes, if◌then◌else◌,
}
use jwc_lang.Token.{same_bytes}
use jwc_lang.Ast.Tree
use jwc_lang.Ast.Tree.{
  Sort, Node, Expr, expr_kind, more, empty, expr_at, int, decimal, str, raw_str, bool, null, name,
  local, field, index, call, unary, binary, coalesce, ternary, in_list, object, array, entry,
  spread,
}

-- `mentions_local`, on an expression and on its parts; a query, a `catch` or another shape that is
-- not listed answers `true`
unfoldable pub mentions_local : {k : Sort} → Node k → Bytes → Bool
mentions_local empty n = false
mentions_local (more x xs) n = mentions_local x n || mentions_local xs n
mentions_local (expr_at kind _) n = mentions_local kind n
mentions_local (int _) n = false
mentions_local (decimal _) n = false
mentions_local (str _) n = false
mentions_local (raw_str _) n = false
mentions_local (bool _) n = false
mentions_local null n = false
mentions_local (name i) n = same_bytes i.name n
mentions_local (local i) n = same_bytes i.name n
mentions_local (field base _) n = mentions_local base n
mentions_local (index base at) n = mentions_local base n || mentions_local at n
mentions_local (call callee args _) n = mentions_local callee n || mentions_local args n
mentions_local (unary _ rhs) n = mentions_local rhs n
mentions_local (binary _ lhs rhs) n = mentions_local lhs n || mentions_local rhs n
mentions_local (coalesce lhs rhs) n = mentions_local lhs n || mentions_local rhs n
mentions_local (ternary cond then_do else_do) n =
    mentions_local cond n || mentions_local then_do n || mentions_local else_do n
mentions_local (in_list lhs items _) n = mentions_local lhs n || mentions_local items n
mentions_local (object entries) n = mentions_local entries n
mentions_local (array items) n = mentions_local items n
mentions_local (entry _ _ value _ _) n = mentions_local value n
mentions_local (spread _ source _ _) n = same_bytes source.name n
mentions_local _ n = true

unfoldable pub is_callee : Expr → Bytes → Bytes → Bool
is_callee (expr_at (field (expr_at (name i) _) f) _) ns n =
    same_bytes f.name n && same_bytes i.name ns
is_callee _ ns n = false

-- `ExprKind::Name(i) | ExprKind::Local(i) if i.name == target`
unfoldable pub is_local : Node expr_kind → Bytes → Bool
is_local (name i) n = same_bytes i.name n
is_local (local i) n = same_bytes i.name n
is_local _ n = false

unfoldable pub self_append_item : Expr → Bytes → Option Expr
unfolding is_callee is_local mentions_local
self_append_item (expr_at (call callee (more (expr_at first _) (more item empty)) _) _) target =
    if is_callee callee (codes "array") (codes "push") && is_local first target
    then if mentions_local item target then none else some item
    else none
self_append_item _ target = none
