-- ===== src/Ast/Locals/Tests.antt =====
-- src/ast.rs: the walks on small expressions, and the theorems at them.
use jwc_lang.Prelude.{◌≡◌, refl, true, false, none, some, String, codes}
use jwc_lang.Token.{Span}
use jwc_lang.Ast.Tree.{
  Node, Expr, Ident, expr, expr_kind, maybe, more, empty, expr_at, name, local, field, call, absent,
  present,
}
use jwc_lang.Ast.Locals.{mentions_local, is_callee, is_local, self_append_item}
use jwc_lang.Ast.Locals.Unread.{MayRead, mentions_local-none, self_append_item_unread}

abbrev here : Span
here = record { start = 0; stop = 0 }

abbrev ident : String → Ident
ident w = record { name = codes w; span = here }

abbrev at_here : Node expr_kind → Expr
at_here k = expr_at k here

-- array.push(@first, item)
abbrev push_onto : String → Expr → Expr
push_onto first item = at_here (
    call (at_here (field (at_here (name (ident "array"))) (ident "push")))
      (more (at_here (local (ident first))) (more item empty)) absent)

abbrev of_y : Expr
of_y = at_here (local (ident "y"))

-- f() with a filter that reads `xs`
abbrev filtered : Expr
filtered =
    at_here (call (at_here (name (ident "f"))) empty (present (at_here (local (ident "xs")))))

appended : self_append_item (push_onto "xs" of_y) (codes "xs") ≡ some of_y
unfolding self_append_item
appended = refl

not_onto_itself : self_append_item (push_onto "xs" of_y) (codes "y") ≡ none
unfolding self_append_item
not_onto_itself = refl

item_reads : self_append_item (push_onto "y" of_y) (codes "y") ≡ none
unfolding self_append_item
item_reads = refl

-- the filter of a call is not looked into
filter_passed_over : mentions_local filtered (codes "xs") ≡ false
unfolding mentions_local
filter_passed_over = refl

unmentioned : mentions_local of_y (codes "xs") ≡ false
unfolding mentions_local
unmentioned = refl

mentions_local-none_example : ¬ MayRead (codes "xs") expr of_y
mentions_local-none_example = mentions_local-none (codes "xs") of_y unmentioned

self_append_item_unread_example :
    (callee : Expr) × (read : Node expr_kind) × (filter : Node (maybe expr)) × (s t : Span)
    × (push_onto "xs" of_y
        ≡ expr_at (call callee (more (expr_at read s) (more of_y empty)) filter) t)
    × (is_callee callee (codes "array") (codes "push") ≡ true)
    × (is_local read (codes "xs") ≡ true)
    × (¬ MayRead (codes "xs") expr of_y)
self_append_item_unread_example =
    self_append_item_unread (push_onto "xs" of_y) of_y (codes "xs") appended
