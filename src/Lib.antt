-- ===== src/Lib.antt =====
-- Parts of jwc: its scanner, its parser, its types, names, routes and printed literals, and
-- the choice of a route, the cache and the cursors of its runtime.
--
-- jwc reads source text with a hand-written scanner (src/lexer.rs), parses the tokens
-- by recursive descent (src/parser.rs) into a tree (src/ast.rs), checks the tree
-- with the rules on types (src/types.rs), names the physical objects of the database (src/naming.rs),
-- collects and checks the routes (src/wiring.rs), formats source text (src/fmt.rs), and runs the
-- program: a request goes to the route that fits its path best (src/serve.rs), with, among others, a
-- process-local cache (src/cache.rs) and signed cursors (src/cursor.rs).
--
-- Text is a list of numbers: bytes where the source slices bytes (`Bytes`, the scanner), code points
-- where it walks characters (`Text`, the names). Numbers are natural; the `u32` of a span, the `u64`
-- of the counters and the seconds of a time to live keep their bounds.
--
--   Prelude             shared: tests, lists, text with UTF-8, loops, association lists
--   Ast                 src/ast.rs: `BinOp`
--     Tree              types, expressions, queries and statements, as one family of nodes
--     Decl              the declarations, as records, in Schema and Behaviour
--     Locals            `mentions_local` and `self_append_item`; Unread: what they promise
--   Token, Diag         src/token.rs, src/diag.rs: spans, tokens, trivia, diagnostics
--     Keywords          `KEYWORDS` and its binary search
--     Source            `SourceFile::line_col`; Walk is a walk over the bytes of a text,
--                       Boundary, Characters: one over its characters
--   Lexer               src/lexer.rs: `Lexer` and its cursor
--     Comments          `skip_trivia`
--     Strings           `scan_string`
--     Scan              `scan_one`; the table of punctuation is three lists, by length
--     Tokenize          `tokenize`
--     Spelling          the tokens against the text of their spans
--     Punctuation       the text of punctuation against the scanner
--     Bounds            positions, spans and progress, step by step
--   Parser              src/parser.rs, of the same function names
--     Action            `struct Parser`, and `PResult` as the outcome of a state change
--     Cursor            `peek` to `attached`, `err`, `expect` and `check_removed_keyword`
--     Names, Objects    lists, qualified tables, spreads, and the entries of objects
--     Query             `parse_select`, `parse_join`, `parse_object_shape`, the writes
--     Expr              Primary, Operators and Whole: `parse_expr` from the bottom up
--     Types, Stmt       `parse_type`; Control, Assign and Block: `parse_stmt`, `parse_block`
--     Recover           `skip_to_semi_or_rbrace`, and loops that go on behind an error
--     Grammar           the recursion, on fuel
--     Decl              Schema, Columns, Table, Service, Job, Middleware, Routes and Server: the
--                       declarations; Duration: `parse_duration` of src/serve.rs; Recover:
--                       `recover_to_decl`; Program: `parse_decl`, `parse_program` and `parse`
--     Progress          what each action may do to the parser, file by file as above
--     Correct, Lexed    the parsers together, and on the tokens of the scanner
--     Programs          a program as a whole, and the recovery behind a declaration
--   Types               src/types.rs: `Ty` and `Scalar`
--     Scalars, Shape    the functions on a scalar, and the parts of a type
--     Assign            `assignable_to`; Equality is the derived `==`
--     Targets, Order    its laws
--     Operators         `arith`, `widen`, `comparable`, `orderable`
--     Display           how a type is printed
--   Naming              src/naming.rs: `physical`
--     Snake             its laws
--     Generated         the names of constraints, indexes and functions
--     Quoting           `quote_ident`; Reading is a reader of SQL identifiers, after the lexical
--                       rules of PostgreSQL: quoted, with doubled quotes, or plain and not in the list
--   Cache               src/cache.rs: `Store` holds the map and the four counters
--     Bounded, Calls    the cap, and sequences of calls
--     Views             what a reader sees, before and after each call
--     Spec              the store against a map that forgets nothing
--     Metrics           the lines of `/metrics`
--   Routing             src/wiring.rs: `collect_routes` and `check_duplicates`
--     Path              `Segment`, `join_path`, `parse_path`, `render` and `route_pattern`
--     Match             src/serve.rs: `match_route`
--     Fit, Best, Order  which routes suit a request, the one that is chosen, and when the order of
--                       registration does not matter
--     Apart             what `check_duplicates` leaves to `match_route`
--     Slashes, Plain, Printed
--                       a path read, rendered and read again
--     Patterns          the patterns of the routes that are collected
--   Fmt                 src/fmt.rs: `quote` and `raw_quote`
--     Rounds, Quote     the scanner's rounds on a printed literal, and the literals
--     Raw               what a scanned raw literal can hold
--   Hash, Cursor        src/hash.rs: `hmac_sha256_hex`; src/cursor.rs: signed cursors
--     Compare           `constant_time_eq`, whose `^` and `|` are written out on the bits
--     Signed            `encode` and `decode` together
--
-- A method of the scanner takes the state and returns the next one. A `while` that only moves the
-- position over bytes is `run_length`. The loops that do more run on fuel, which bounds their rounds
-- by `length + 3`: the position starts at 0, every round but the last moves it, and it never passes the
-- end of the text by more than one. A model that ran out of fuel would return `none`.
--
-- In the parser a call of a parser that stands above the caller (an expression in parentheses, a
-- block in a `catch`) goes to the record `Parsers`, which has one unit of fuel less; each such call
-- stands behind a token that was taken, so as many units as there are tokens, and one, are enough. A
-- loop runs for as many rounds as there are tokens. What ran out of fuel would be `exhausted`. The
-- cursor is an index, as in the source; its clamping to the last token is written out, and an empty
-- list of tokens, on which the source panics, reads as `eof`. `array_depth` wraps as a `u8`.
--
-- The digests of the `sha2` and `hmac` crates are parameters, which need not be collision free, and
-- so are the base64 and the JSON of a cursor. The lowercase table of the characters that are not
-- ASCII is another. The clock of the cache is an argument of each call, and so is the last instant
-- that the platform can represent. Its map is a list of entries; the mutex makes each call one
-- step, and the write's two readings of the clock are two arguments. `HashMap` visits its entries
-- in no fixed order: `oldest` reads them in the order of the list, which matters only if two
-- entries had one number.
--
-- Which middleware is declared with an `after` block is a parameter of `collect_routes`, since the
-- symbol table is not modelled; the workspace's text for a place, a file and a line, is one of
-- `check_duplicates`. The routes are in the order of the files and, in a block, before the sockets.
--
-- The message for a duration prints its text with `{:?}`; the characters in it that are not ASCII
-- are taken as printable. The products of a duration wrap as a `u64`, as without overflow checks.
--
-- Not modelled: the layout of the formatter and its printer of expressions; the checker and the other
-- checks of the wiring, which need the table of all symbols; the database parts (model, DDL, diff,
-- migrations), which begin behind the checker; and the evaluator and the server behind the choice of
-- a route, which run over a database session and a network.
mod Prelude
pub mod Ast
pub mod Types
pub mod Token
pub mod Diag
pub mod Lexer
pub mod Naming
pub mod Parser
pub mod Cache
pub mod Fmt
pub mod Hash
pub mod Cursor
pub mod Routing
