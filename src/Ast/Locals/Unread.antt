-- ===== src/Ast/Locals/Unread.antt =====
-- src/ast.rs: what `mentions_local` and `self_append_item` promise of a read of the local.
use jwc_lang.Prelude.{
  ◌≡◌, refl, Bool, true, false, ◌&&◌, some, Bytes, List, codes, arith, Bool-cases, inl, inr,
}
use jwc_lang.Token.{Span}
use jwc_lang.Token.Keywords.Search.{same_bytes-eq}
use jwc_lang.Ast.{BinOp}
use jwc_lang.Ast.Tree
use jwc_lang.Ast.Tree.{
  Sort, Node, Expr, Ident, Attached, UnaryOp, expr, expr_kind, obj_entry, many, maybe, more, empty,
  expr_at, name, local, field, index, call, unary, binary, coalesce, ternary, in_list, object,
  array, entry, spread, exists, or_throw, catch_postfix, cast, with_headers, cookie, select, insert,
  update, delete, stmt,
}
use jwc_lang.Ast.Locals.{mentions_local, is_callee, is_local, self_append_item}

-- The first node is a part of the second, the filter of a call left out.
pub data Part : (j k : Sort) → Node j → Node k → Type 0 where
  head : {k : Sort} (x : Node k) (xs : Node (many k)) → Part k (many k) x (more x xs)
  tail : {k : Sort} (x : Node k) (xs : Node (many k)) → Part (many k) (many k) xs (more x xs)
  kind_of : (k : Node expr_kind) (s : Span) → Part expr_kind expr k (expr_at k s)
  base_of : (e : Expr) (f : Ident) → Part expr expr_kind e (field e f)
  indexed : (e i : Expr) → Part expr expr_kind e (index e i)
  index_of : (e i : Expr) → Part expr expr_kind i (index e i)
  callee_of :
      (e : Expr) (args : Node (many expr)) (f : Node (maybe expr))
      → Part expr expr_kind e (call e args f)
  args_of :
      (e : Expr) (args : Node (many expr)) (f : Node (maybe expr))
      → Part (many expr) expr_kind args (call e args f)
  operand : (op : UnaryOp) (e : Expr) → Part expr expr_kind e (unary op e)
  left_of : (op : BinOp) (l r : Expr) → Part expr expr_kind l (binary op l r)
  right_of : (op : BinOp) (l r : Expr) → Part expr expr_kind r (binary op l r)
  wanted : (l r : Expr) → Part expr expr_kind l (coalesce l r)
  instead : (l r : Expr) → Part expr expr_kind r (coalesce l r)
  cond_of : (c t e : Expr) → Part expr expr_kind c (ternary c t e)
  then_of : (c t e : Expr) → Part expr expr_kind t (ternary c t e)
  else_of : (c t e : Expr) → Part expr expr_kind e (ternary c t e)
  sought :
      (e : Expr) (items : Node (many expr)) (neg : Bool)
      → Part expr expr_kind e (in_list e items neg)
  items_in :
      (e : Expr) (items : Node (many expr)) (neg : Bool)
      → Part (many expr) expr_kind items (in_list e items neg)
  entries_of : (es : Node (many obj_entry)) → Part (many obj_entry) expr_kind es (object es)
  items_of : (es : Node (many expr)) → Part (many expr) expr_kind es (array es)
  value_of :
      (a : Attached) (i : Ident) (e : Expr) (b : Bool) (s : Span)
      → Part expr obj_entry e (entry a i e b s)
  tested : (e : Expr) (b : Bool) → Part expr expr_kind e (exists e b)
  thrown_for :
      (e : Expr) (i : Ident) (args : Node (many expr)) → Part expr expr_kind e (or_throw e i args)
  thrown_with :
      (e : Expr) (i : Ident) (args : Node (many expr))
      → Part (many expr) expr_kind args (or_throw e i args)
  caught :
      (e : Expr) (x i : Ident) (body : Node (many stmt))
      → Part expr expr_kind e (catch_postfix e x i body)
  input_of : (e : Expr) (i : Ident) → Part expr expr_kind e (cast e i)
  answer_of : (e : Expr) (hs : Node (many obj_entry)) → Part expr expr_kind e (with_headers e hs)
  headers_of :
      (e : Expr) (hs : Node (many obj_entry))
      → Part (many obj_entry) expr_kind hs (with_headers e hs)
  cookie_for : (e : Expr) (args : Node (many expr)) → Part expr expr_kind e (cookie e args)
  cookie_args :
      (e : Expr) (args : Node (many expr)) → Part (many expr) expr_kind args (cookie e args)

-- The name is that of the local `n`, in the node or in a part of it; a query and the body of a
-- `catch` may read every local.
pub data MayRead (n : Bytes) : (k : Sort) → Node k → Type 0 where
  by_name : (i : Ident) → i.name ≡ n → MayRead n expr_kind (name i)
  by_local : (i : Ident) → i.name ≡ n → MayRead n expr_kind (local i)
  by_spread :
      (a : Attached) (i : Ident) (except : List Ident) (s : Span)
      → i.name ≡ n
      → MayRead n obj_entry (spread a i except s)
  by_select : (q : Node Tree.select_expr) → MayRead n expr_kind (select q)
  by_insert : (q : Node Tree.insert_expr) → MayRead n expr_kind (insert q)
  by_update : (q : Node Tree.update_expr) → MayRead n expr_kind (update q)
  by_delete : (q : Node Tree.delete_expr) → MayRead n expr_kind (delete q)
  by_catch :
      (e : Expr) (x i : Ident) (body : Node (many stmt))
      → MayRead n expr_kind (catch_postfix e x i body)
  in_part : {j k : Sort} (x : Node j) (y : Node k) → Part j k x y → MayRead n j x → MayRead n k y

module _ (n : Bytes) where
  mentions_local-Part :
      {j k : Sort} (x : Node j) (y : Node k)
      → Part j k x y
      → mentions_local x n ≡ true
      → mentions_local y n ≡ true
  unfolding mentions_local
  mentions_local-Part x y (head _ xs) h = ground arith
  mentions_local-Part x y (tail a _) h = ground arith
  mentions_local-Part x y (kind_of _ s) h = h
  mentions_local-Part x y (base_of _ f) h = h
  mentions_local-Part x y (indexed _ i) h = ground arith
  mentions_local-Part x y (index_of e _) h = ground arith
  mentions_local-Part x y (callee_of _ args f) h = ground arith
  mentions_local-Part x y (args_of e _ f) h = ground arith
  mentions_local-Part x y (operand op _) h = h
  mentions_local-Part x y (left_of op _ r) h = ground arith
  mentions_local-Part x y (right_of op l _) h = ground arith
  mentions_local-Part x y (wanted _ r) h = ground arith
  mentions_local-Part x y (instead l _) h = ground arith
  mentions_local-Part x y (cond_of _ t e) h = ground arith
  mentions_local-Part x y (then_of c _ e) h = ground arith
  mentions_local-Part x y (else_of c t _) h = ground arith
  mentions_local-Part x y (sought _ items neg) h = ground arith
  mentions_local-Part x y (items_in e _ neg) h = ground arith
  mentions_local-Part x y (entries_of _) h = h
  mentions_local-Part x y (items_of _) h = h
  mentions_local-Part x y (value_of a i _ b s) h = h
  mentions_local-Part x y _ h = refl

  mentions_local-MayRead : {k : Sort} (y : Node k) → MayRead n k y → mentions_local y n ≡ true
  unfolding mentions_local
  mentions_local-MayRead y (by_name i e) = same_bytes-eq i.name n e
  mentions_local-MayRead y (by_local i e) = same_bytes-eq i.name n e
  mentions_local-MayRead y (by_spread a i except s e) = same_bytes-eq i.name n e
  mentions_local-MayRead y (by_select q) = refl
  mentions_local-MayRead y (by_insert q) = refl
  mentions_local-MayRead y (by_update q) = refl
  mentions_local-MayRead y (by_delete q) = refl
  mentions_local-MayRead y (by_catch e x i body) = refl
  mentions_local-MayRead y (in_part x _ p r) =
      mentions_local-Part x y p (mentions_local-MayRead x r)

-- An expression that is found not to mention a local cannot read it: no name, local or spread of
-- that name stands in it, and no query and no `catch`, but for what stands in the filter of a call.
pub mentions_local-none : (n : Bytes) (e : Expr) → mentions_local e n ≡ false → ¬ MayRead n expr e
mentions_local-none n e h r = let read = mentions_local-MayRead n e r in absurd cc

-- Where an item is returned the value is the call `array.push` of two arguments, the local of that
-- name and the item; and the item cannot read the local, but for what stands in the filter of a
-- call.
pub self_append_item_unread :
    (value item : Expr) (target : Bytes)
    → self_append_item value target ≡ some item
    → (callee : Expr) × (read : Node expr_kind) × (filter : Node (maybe expr)) × (s t : Span)
      × (value ≡ expr_at (call callee (more (expr_at read s) (more item empty)) filter) t)
      × (is_callee callee (codes "array") (codes "push") ≡ true)
      × (is_local read target ≡ true)
      × (¬ MayRead target expr item)
unfolding self_append_item
self_append_item_unread (expr_at (call callee (more (expr_at read s) (more found empty)) filter) t)
      item target h =
    elim (Bool-cases (is_callee callee (codes "array") (codes "push") && is_local read target)) [
      | inl shape ↦ elim (Bool-cases (mentions_local found target)) [
        | inl mentioned ↦ absurd (let h' = rw (shape, mentioned) at h in cc)
        | inr unread ↦
            let h' = rw (shape, unread) at h in
            let same : found ≡ item = cc in
            (
              callee,
              read,
              filter,
              s,
              t,
              rw same refl,
              ground arith,
              ground arith,
              rw same at (mentions_local-none target found unread),
            )
      ]
      | inr other ↦ absurd (let h' = rw other at h in cc)
    ]
self_append_item_unread _ item target h = absurd cc
