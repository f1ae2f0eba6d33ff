-- ===== src/Routing.antt =====
-- src/wiring.rs, `Wiring`: the routes of a program, and the checks of their paths.
pub mod Path
pub mod Match
pub mod Fit
pub mod Best
pub mod Order
pub mod Apart
pub mod Slashes
pub mod Plain
pub mod Printed
pub mod Patterns
mod Tests
use jwc_lang.Prelude.{
  ℕ, zero, suc, Bool, true, false, not, ◌&&◌, ◌||◌, Option, none, some, List, [], ◌∷◌, ◌++◌, map,
  Bytes, String, codes, utf8, if◌then◌else◌, ◌==◌, length, encode_utf8,
}
use jwc_lang.Token.{Span, same_bytes}
use jwc_lang.Diag.{Diagnostic, error, with_note, with_clause}
use jwc_lang.Naming.Generated.{decimal}
use jwc_lang.Ast.Tree.{Ident}
use jwc_lang.Ast.Decl
use jwc_lang.Ast.Decl.{RouteDecl, SocketDecl, RoutesDecl, Program}
use jwc_lang.Routing.Path.{Segment, literal, param, same_shape, join_path, parse_path, render}

-- `Loc`
pub record Loc : Type 0 where
  pub file : ℕ
  pub span : Span

pub record ResolvedRoute : Type 0 where
  pub method : Bytes
  pub pattern : Bytes
  pub segments : List Segment
  pub params : List (Bytes × Bytes)
  pub chain : List Bytes
  pub after : List Bytes
  pub socket : Bool
  pub loc : Loc

unfoldable pub params_of : List Segment → List (Bytes × Bytes)
params_of [] = []
params_of (literal _ ∷ ss) = params_of ss
params_of (param name ty ∷ ss) = (name, ty) ∷ params_of ss

-- the names, in reverse, that pass a test
unfoldable pub after_of : (Bytes → Bool) → List Bytes → List Bytes → List Bytes
after_of has_after [] acc = acc
after_of has_after (m ∷ ms) acc = after_of has_after ms (if has_after m then m ∷ acc else acc)

unfoldable pub names_of : List Ident → List Bytes
names_of [] = []
names_of (i ∷ is) = i.name ∷ names_of is

-- `has_after` says of a middleware whether it is declared, with an `after` block.
module _ (has_after : Bytes → Bool) where
  -- one route or socket of a block
  unfoldable pub resolved :
      RoutesDecl → ℕ → Bytes → Bytes → List Ident → Bool → Span → ResolvedRoute
  unfolding parse_path join_path render params_of after_of names_of
  resolved block file method suffix uses socket span =
      let segments = parse_path (join_path block.prefix suffix) in
      let chain = names_of block.uses ++ names_of uses in
      record {
        method = method;
        pattern = render segments;
        segments = segments;
        params = params_of segments;
        chain = chain;
        after = after_of has_after chain [];
        socket = socket;
        loc = record { file = file; span = span };
      }

  unfoldable pub routes_of : RoutesDecl → ℕ → List RouteDecl → List ResolvedRoute
  unfolding resolved
  routes_of block file [] = []
  routes_of block file (r ∷ rs) =
      resolved block file r.method.name r.suffix r.uses false r.span ∷ routes_of block file rs

  unfoldable pub sockets_of : RoutesDecl → ℕ → List SocketDecl → List ResolvedRoute
  unfolding resolved
  sockets_of block file [] = []
  sockets_of block file (s ∷ ss) =
      resolved block file (codes "GET") s.suffix s.uses true s.span ∷ sockets_of block file ss

  unfoldable pub collect_file : ℕ → List Decl.Decl → List ResolvedRoute
  unfolding routes_of sockets_of
  collect_file file [] = []
  collect_file file (Decl.routes block ∷ ds) =
      routes_of block file block.routes
      ++ sockets_of block file block.sockets
      ++ collect_file file ds
  collect_file file (_ ∷ ds) = collect_file file ds

  -- the programs of the files from one on
  unfoldable pub collect_routes : ℕ → List Program → List ResolvedRoute
  unfolding collect_file
  collect_routes file [] = []
  collect_routes file (p ∷ ps) = collect_file file p.decls ++ collect_routes (suc file) ps

-- what `Wiring` reports
abbrev pub Report : Type 0
Report = Loc × Diagnostic

unfoldable pub err : Loc → String → Bytes → Bytes → String → Report
err loc code msg note clause = (loc, with_clause clause (with_note note (error code loc.span msg)))

-- `zip` and `all`
unfoldable pub same_shapes : List Segment → List Segment → Bool
unfolding same_shape
same_shapes (x ∷ xs) (y ∷ ys) = same_shape x y && same_shapes xs ys
same_shapes _ _ = true

unfoldable pub collide : ResolvedRoute → ResolvedRoute → Bool
unfolding same_shapes
collide a b =
    if not (same_bytes a.method b.method) || not (length a.segments == length b.segments)
    then false
    else same_shapes a.segments b.segments

-- `file_line` is the workspace's text for a place.
module _ (file_line : Loc → Bytes) where
  unfoldable pub duplicate : ResolvedRoute → ResolvedRoute → Report
  unfolding err
  duplicate a b =
      err a.loc "E0710"
        (codes "duplicate route `" ++ a.method ++ codes " " ++ a.pattern ++ codes "`")
        (codes "already declared at "
          ++ file_line b.loc
          ++ codes " as `"
          ++ b.pattern
          ++ utf8 "` — parameter names do not distinguish two routes")
        "routing.md §4.1"

  -- the routes before `a`, in order
  unfoldable pub duplicates_of : ResolvedRoute → List ResolvedRoute → List Report
  unfolding collide duplicate
  duplicates_of a [] = []
  duplicates_of a (b ∷ bs) =
      let later = duplicates_of a bs in if collide a b then duplicate a b ∷ later else later

  unfoldable pub duplicates_from : List ResolvedRoute → List ResolvedRoute → List Report
  unfolding duplicates_of
  duplicates_from earlier [] = []
  duplicates_from earlier (a ∷ as') =
      duplicates_of a earlier ++ duplicates_from (earlier ++ a ∷ []) as'

  unfoldable pub check_duplicates : List ResolvedRoute → List Report
  unfolding duplicates_from
  check_duplicates routes = duplicates_from [] routes
