-- ===== src/Routing/Tests.antt =====
-- Runs of src/wiring.rs on the routes of a program, and the theorems at them.
use jwc_lang.Prelude.{◌≡◌, ◌≢◌, refl, false, List, [], ◌∷◌, Bytes, codes, map, trim, String}
use jwc_lang.Cursor.{split_once}
use jwc_lang.Routing.Path
use jwc_lang.Routing.Path.{
  Segment, literal, param, parse_path, render, route_pattern, join_path, pieces,
}
use jwc_lang.Routing.{Loc, ResolvedRoute, params_of, collect_routes, check_duplicates}
use jwc_lang.Routing
use jwc_lang.Routing.Printed.{untyped, parse_path-render}
use jwc_lang.Routing.Path.{route_pattern}
use jwc_lang.Ast.Decl.{RoutesDecl}
use jwc_lang.Routing.{resolved}
use jwc_lang.Routing.Patterns.{resolved-route_pattern}
use jwc_lang.Routing.Patterns.{check_duplicates-pattern}
use jwc_lang.Token.{Span}
use jwc_lang.Ast.Tree.{Attached, Node}
use jwc_lang.Ast.Decl
use jwc_lang.Ast.Decl.{RouteDecl, Program}

a_path_is_read :
    parse_path (codes "/orgs/{ id : uuid }//posts/")
    ≡ literal (codes "orgs") ∷ param (codes "id") (codes "uuid") ∷ literal (codes "posts") ∷ []
unfolding parse_path pieces Path.pieces_from Path.piece_then Path.trim_of Path.trim_start_of
    Path.trim_end_of Path.end_trimmed Path.segment_of Path.in_braces Path.before_brace Path.param_of
    split_once trim
a_path_is_read = refl

parse_path-render_example :
    parse_path (render (parse_path (codes "/orgs/{ id : uuid }//posts/")))
    ≡ map untyped (parse_path (codes "/orgs/{ id : uuid }//posts/"))
parse_path-render_example = parse_path-render (codes "/orgs/{ id : uuid }//posts/")

abbrev nowhere : Span
nowhere = record { start = 0; stop = 0 }

abbrev no_comments : Attached
no_comments = record { docs = []; comments = []; blocks = []; blank_before = false }

abbrev get_decl : String → RouteDecl
get_decl suffix = record {
  leading = no_comments;
  method = record { name = codes "GET"; span = nowhere };
  suffix = codes suffix;
  suffix_span = nowhere;
  uses = [];
  body = Node.empty;
  span = nowhere;
}

abbrev org_block : RoutesDecl
org_block = record {
  leading = no_comments;
  prefix = codes "/orgs";
  prefix_span = nowhere;
  uses = [];
  routes = get_decl "{id: uuid}" ∷ get_decl "/new" ∷ [];
  sockets = [];
  bare = false;
  span = nowhere;
}

abbrev org_program : Program
org_program = record { decls = Decl.routes org_block ∷ []; trailing = no_comments }

resolved-route_pattern_example :
    (resolved (λ _. false) org_block 0 (codes "GET") (codes "/new") [] false nowhere).pattern
    ≡ route_pattern (codes "/orgs") (codes "/new")
resolved-route_pattern_example =
    resolved-route_pattern (λ _. false) org_block 0 (codes "GET") (codes "/new") [] false nowhere

abbrev org_route : Bytes → List Segment → List (Bytes × Bytes) → ResolvedRoute
org_route pattern segments params = record {
  method = codes "GET";
  pattern = pattern;
  segments = segments;
  params = params;
  chain = [];
  after = [];
  socket = false;
  loc = record { file = 0; span = nowhere };
}

abbrev id_route : ResolvedRoute
id_route =
    org_route (codes "/orgs/{id}") (literal (codes "orgs") ∷ param (codes "id") (codes "uuid") ∷ [])
      ((codes "id", codes "uuid") ∷ [])

abbrev new_route : ResolvedRoute
new_route = org_route (codes "/orgs/new") (literal (codes "orgs") ∷ literal (codes "new") ∷ []) []

org_program_routes : collect_routes (λ _. false) 0 (org_program ∷ []) ≡ id_route ∷ new_route ∷ []
unfolding collect_routes Routing.collect_file Routing.routes_of Routing.sockets_of Routing.resolved
    Routing.names_of Routing.after_of params_of join_path Path.joined render Path.render_all
    Path.rendered parse_path pieces Path.pieces_from Path.piece_then Path.trim_of Path.trim_start_of
    Path.trim_end_of Path.end_trimmed Path.segment_of Path.in_braces Path.before_brace Path.param_of
    split_once trim
org_program_routes = refl

no_duplicates : check_duplicates (λ _. []) (id_route ∷ new_route ∷ []) ≡ []
unfolding check_duplicates Routing.duplicates_from Routing.duplicates_of Routing.collide
    Routing.same_shapes Path.same_shape
no_duplicates = refl

check_duplicates-pattern_example : ◌≢◌ {A = Bytes} (codes "/orgs/{id}") (codes "/orgs/new")
check_duplicates-pattern_example =
    check_duplicates-pattern (λ _. false) (λ _. []) (org_program ∷ []) [] [] [] id_route new_route
      org_program_routes (rw org_program_routes no_duplicates) refl
