-- ===== src/Lib.antt =====
-- Verification of the pure parts of cambium, a YANG schema toolkit in Go. This library models the
-- code below go/ as functions by clauses and proves what the parts promise.
--
-- Number (go/cambium/number.go): the type Number with a uint64 magnitude, a count of fraction
-- digits and a sign, its order by scaledBigInt, addQuantum, Int, FromInt, Trunc. A field is a
-- natural number, and a sum or product that the code computes in uint64 is taken modulo 2^64.
-- Number/Text holds String, ParseInt and ParseDecimal; a text is the list of its code points.
-- Strconv says what the parsers use of Go's strconv and strings packages: base prefixes,
-- underscores, the tests for overflow, trimming.
--
-- YangRange (go/cambium/number.go): YRange and YangRange, sequences of inclusive ranges, with
-- Sort, Validate, Contains, Equal and coalesceRanges; YangRange/Parse holds parseChildRanges,
-- which splits a range expression, parses its bounds with the parent's min and max, sorts,
-- coalesces, tests that the parent contains the result and validates it. YangRange/Meaning says
-- what a sequence permits, with no algorithm in it. The indices of the Go loops are the rest of
-- the sequence here.
--
-- IfFeature (go/cambium/schema_iffeature.go, go/cambium/schema.go): the tokenizer and the
-- recursive-descent parser of if-feature expressions. IfFeature/Grammar is the grammar of RFC 7950
-- as data, with its tokens and its value. The five parser methods recurse on fuel, four for each
-- token and four more, which is enough since each round of a loop or of the recursion reads a
-- token and passes through at most four methods. The tokenizer recurses on the length of its text,
-- since each round reads a byte. What a module answers about one feature is an argument of the
-- model.
--
-- XsdRanges (go/internal/xsdregex/pattern.go): sets of code points as sequences of ranges, with
-- normalizeRanges, complementRanges and subtractRanges.
--
-- Pattern (go/yangpattern/runtime_limits.go, go/yangpattern/runtime_program.go): the ledger that
-- bounds the work on a pattern, with its saturating arithmetic, in Pattern; the decimal strings of
-- repetition bounds in Pattern/Decimal; the portable data and the tests on one node in
-- Pattern/Program; the first loop of RestoreWithLimits in Pattern/Checks, and its search and the
-- whole of it in Pattern/Restore. A slice that the search indexes by nodes is a function, the
-- closure visit is a function on fuel that goes from a search to a search, and its fuel is two
-- more than the limit on the depth, since each call is one deeper and a call beyond the limit is
-- refused. Pattern/Language says which texts a node matches, with no algorithm in it. A text that
-- is matched is a list of code points.
--
-- Canonical (go/datatree/datatree_order.go): the keys by which the values of ordered-by system
-- lists and leaf-lists are put in order, and their comparison. Canonical/Bitmaps compares the
-- sparse bitmaps of bits values with the dense ones that memcmp would read, and Canonical/Bits
-- builds them: the maps of the code are lists of pairs, and the string of names is taken as read
-- from its JSON token.
--
-- CamelCase (go/cambium/camelcase.go): the exported Go spelling of a YANG identifier. The outer
-- loop recurses on the length of its text, since each round reads a byte.
--
-- Identifiers (go/codegen/names.go): identAllocator, which hands out the package-level identifiers
-- of a generated file in families. The map of used identifiers is a list, the map of names a list
-- of pairs. The loop over the numeric suffixes has as much fuel as there are used identifiers, and
-- one more: each suffix that is passed over is blocked by a used identifier of its own, provided
-- that the families of two candidates have nothing in common.
--
-- Leafref (go/cambium/schema_leafref_cycles.go): the depth-first search for chains of leafrefs
-- that return to a node. A schema node is its index in a table of types, the map pos a list of
-- pairs, and the closure visit a function on fuel that goes from a walk to a walk; the fuel is the
-- length of the table, since each visit marks one more node. Leafref/Graph says what an edge, a
-- walk and a chain are, Leafref/Search and Leafref/Visits carry the invariant of the walk,
-- Leafref/Fuel counts the nodes that it has not marked, and Leafref/Verdict is about
-- validateLeafrefCycles in both modes.
--
-- XsdClass (go/internal/xsdregex/pattern.go): character classes of XML Schema patterns and their
-- rewriting for Go's regexp package. XsdClass holds the ranges of Unicode tables and blocks,
-- XsdClass/Tables the tables of the file, XsdClass/Atom and XsdClass/Expr the class parser,
-- XsdClass/Scan the two scans over brackets, XsdClass/Native NativePattern and
-- UnsupportedNativeSyntax. A text is the list of its runes; a position is the list from there on,
-- or an index that counts from the class's first bracket, and a loop that jumps ahead carries how
-- many runes it has yet to pass. Only parseClassExprRanges has fuel, the length of its text, since
-- the class that is subtracted is a shorter one. XsdClass/Syntax gives classes as trees, with
-- their texts and the code points that they stand for. What Go's unicode and regexp/syntax
-- packages know is an argument, GoUnicode.
--
-- Samples holds runs on small inputs and the theorems at concrete inputs. Prelude passes on the
-- names and lemmas that the other modules share.
--
-- Not modelled: floating point (FromFloat, Frac), the schema builder, the rest of data trees, code
-- generation, the pattern compiler and matcher, and whatever reads files, calls the C library
-- libyang or is a copy of another project.
pub mod Prelude
pub mod Pattern
pub mod CamelCase
pub mod Identifiers
pub mod Canonical
pub mod Samples
pub mod Leafref
pub mod Number
pub mod Strconv
pub mod XsdClass
pub mod YangRange
pub mod IfFeature
pub mod XsdRanges
