-- ===== src/Routing/Patterns.antt =====
-- src/wiring.rs: the patterns of the routes that are collected, and the check of duplicates.
use jwc_lang.Prelude.{
  ℕ, suc, ◌≡◌, ◌≢◌, refl, ap, sym, ◌∙◌, Bool, true, List, [], ◌∷◌, ◌++◌, map, Bytes, length, arith,
  All, All-append, All-front, All-behind,
}
use jwc_lang.Token.Keywords.Search.{same_bytes-eq}
use jwc_lang.Ast.Decl
use jwc_lang.Ast.Decl.{RouteDecl, SocketDecl, RoutesDecl, Program}
use jwc_lang.Routing.Path.{Segment, literal, param, same_shape, parse_path, join_path, render}
use jwc_lang.Ast.Tree.{Ident}
use jwc_lang.Token.{Span}
use jwc_lang.Routing.Path.{route_pattern}
use jwc_lang.Routing.Slashes.{parse_path-join_path}
use jwc_lang.Routing.Printed.{untyped, parse_path-render}
use jwc_lang.Routing.Apart.{check_duplicates-collide}
use jwc_lang.Routing.{
  Loc, ResolvedRoute, resolved, routes_of, sockets_of, collect_file, collect_routes, same_shapes,
  collide, check_duplicates,
}

-- The segments are those of a path, and the pattern is what they are rendered as.
abbrev IsResolved : ResolvedRoute → Type 0
IsResolved r = (path : Bytes) × (r.segments ≡ parse_path path) × (r.pattern ≡ render r.segments)

module _ (has_after : Bytes → Bool) where
  routes_of-IsResolved :
      (block : RoutesDecl) (file : ℕ) (rs : List RouteDecl)
      → All IsResolved (routes_of has_after block file rs)
  unfolding routes_of resolved
  routes_of-IsResolved block file [] = tt
  routes_of-IsResolved block file (r ∷ rs) =
      ((join_path block.prefix r.suffix, refl, refl), routes_of-IsResolved block file rs)

  sockets_of-IsResolved :
      (block : RoutesDecl) (file : ℕ) (ss : List SocketDecl)
      → All IsResolved (sockets_of has_after block file ss)
  unfolding sockets_of resolved
  sockets_of-IsResolved block file [] = tt
  sockets_of-IsResolved block file (s ∷ ss) =
      ((join_path block.prefix s.suffix, refl, refl), sockets_of-IsResolved block file ss)

  collect_file-IsResolved :
      (file : ℕ) (ds : List Decl.Decl) → All IsResolved (collect_file has_after file ds)
  unfolding collect_file
  collect_file-IsResolved file [] = tt
  collect_file-IsResolved file (Decl.routes block ∷ ds) =
      All-append _ _ _
        (All-append _ _ _ (routes_of-IsResolved block file block.routes)
          (sockets_of-IsResolved block file block.sockets))
        (collect_file-IsResolved file ds)
  collect_file-IsResolved file (_ ∷ ds) = collect_file-IsResolved file ds

  collect_routes-IsResolved :
      (file : ℕ) (ps : List Program) → All IsResolved (collect_routes has_after file ps)
  unfolding collect_routes
  collect_routes-IsResolved file [] = tt
  collect_routes-IsResolved file (p ∷ ps) =
      All-append _ _ _ (collect_file-IsResolved file p.decls)
        (collect_routes-IsResolved (suc file) ps)

-- The pattern of a route or a socket is the `route_pattern` of its block's prefix and its suffix.
pub resolved-route_pattern :
    (has_after : Bytes → Bool) (block : RoutesDecl) (file : ℕ) (method suffix : Bytes)
    (uses : List Ident) (socket : Bool) (span : Span)
    → (resolved has_after block file method suffix uses socket span).pattern
      ≡ route_pattern block.prefix suffix
unfolding resolved route_pattern
resolved-route_pattern has_after block file method suffix uses socket span =
    ap render (parse_path-join_path block.prefix suffix)

same_shapes_of-untyped :
    (ss ts : List Segment)
    → map untyped ss ≡ map untyped ts
    → (length ss ≡ length ts) × (same_shapes ss ts ≡ true)
unfolding same_shapes same_shape
same_shapes_of-untyped [] [] e = (refl, refl)
same_shapes_of-untyped (literal a ∷ ss) (literal b ∷ ts) e =
    let (len, same) = same_shapes_of-untyped ss ts cc in
    let head' = same_bytes-eq a b cc in (omega (arith, len), rw (head', same) refl)
same_shapes_of-untyped (param n _ ∷ ss) (param k _ ∷ ts) e =
    let (len, same) = same_shapes_of-untyped ss ts cc in (omega (arith, len), same)
same_shapes_of-untyped (literal _ ∷ ss) (param _ _ ∷ ts) e = absurd cc
same_shapes_of-untyped (param _ _ ∷ ss) (literal _ ∷ ts) e = absurd cc
same_shapes_of-untyped [] (literal _ ∷ ts) e = absurd cc
same_shapes_of-untyped [] (param _ _ ∷ ts) e = absurd cc
same_shapes_of-untyped (literal _ ∷ ss) [] e = absurd cc
same_shapes_of-untyped (param _ _ ∷ ss) [] e = absurd cc

collide_of-pattern :
    (a b : ResolvedRoute)
    → IsResolved a
    → IsResolved b
    → a.method ≡ b.method
    → a.pattern ≡ b.pattern
    → collide a b ≡ true
unfolding collide
collide_of-pattern a b (p, sa, pa) (q, sb, pb) m e =
    let shown : render (parse_path p) ≡ render (parse_path q) = cc in
    let untyped_eq : map untyped (parse_path p) ≡ map untyped (parse_path q) =
      sym (parse_path-render p) ∙ ap parse_path shown ∙ parse_path-render q in
    let (len, same) = same_shapes_of-untyped a.segments b.segments (rw (sa, sb) untyped_eq) in
    let one = same_bytes-eq a.method b.method m in ground arith

-- Where the check reports no duplicate among the routes and sockets that a program's files declare,
-- two of them with one method have different patterns.
pub check_duplicates-pattern :
    (has_after : Bytes → Bool) (file_line : Loc → Bytes) (programs : List Program)
    (before between behind : List ResolvedRoute) (p q : ResolvedRoute)
    → collect_routes has_after 0 programs ≡ before ++ p ∷ between ++ q ∷ behind
    → check_duplicates file_line (collect_routes has_after 0 programs) ≡ []
    → p.method ≡ q.method
    → p.pattern ≢ q.pattern
check_duplicates-pattern has_after file_line programs before between behind p q places h m e =
    let all = rw places at (collect_routes-IsResolved has_after 0 programs) in
    let is_q = (All-behind IsResolved (before ++ p ∷ between) (q ∷ behind) all).0 in
    let ahead = All-front IsResolved (before ++ p ∷ between) (q ∷ behind) all in
    let is_p = (All-behind IsResolved before (p ∷ between) ahead).0 in
    let apart = check_duplicates-collide file_line before between behind p q (rw places at h) in
    let one = collide_of-pattern q p is_q is_p (sym m) (sym e) in absurd cc
