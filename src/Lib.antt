-- ===== src/Lib.antt =====
-- protoc-gen-go-jet: the run-time library of the generated storage code, AIP-132 list requests over
-- go-jet and PostgreSQL, and of the plugin what it makes of a plan: its validation, its foreign keys,
-- its SQL, the order of the SQL files, and what the check reads back and compares.
--
-- The program has two parts. The plugin (cmd/protoc-gen-go-jet) turns annotated protobuf messages
-- into SQL and Go code; the packages pkg/aip and pkg/aip/jet serve the list requests of what it
-- generates.
--
-- A request names a page size, a page token, a filter and an ordering. `BuildPlan` checks them against
-- a schema and takes the cursor of the previous page out of the token; `buildKeysetCondition` makes of
-- it a condition that holds of the rows behind the cursor; `ExecuteWithCondition` runs the query for
-- one row more than the page holds and issues the token of the next page from the last row that is
-- returned.
--
-- The plugin resolves each message into a plan, which `validatePlan` accepts or refuses. Then
-- `resolveForeignKeys` passes over the plans of all messages: it completes each foreign key, and adds
-- to a target the unique constraint that the key needs. `renderSchemaSQL` writes the SQL of each plan
-- to a file; `topoSortDDL` orders the files by the tables that they reference; the check reads the
-- renames out of them, and compares the snapshot of a table that was migrated with that of one that
-- the SQL creates.
--
-- Which file models what:
--   Aip/Errors      pkg/aip/errors.go, wrapAIPError of pkg/aip/jet/plan.go; results and panics
--   Aip/Order       pkg/aip/order.go: ParseOrderBy, AppendUniqueFields, IsUniformDirection
--   Aip/Runtime     the types of pkg/aip/page.go; Go's standard library as a parameter
--   Aip/Decimal     strconv's decimal integers, as documented, for the int64 codec
--   Aip/Codec       pkg/aip/codec.go: the five cursor codecs
--   Aip/Page        pkg/aip/page.go: EncodeToken, DecodeToken, ValidateToken, hashFilter
--   Aip/Filter      pkg/aip/filter.go: MakeNameFilter, ParseNameFilter
--   Jet/Sql         go-jet's builders and PostgreSQL's conditions, as parameters
--   Jet/Schema      pkg/aip/jet/schema.go: NewSchema, validate, effectiveOrderBy
--   Jet/Cursor      pkg/aip/jet/schema.go: decodeCursorValues, extractCursorValues
--   Jet/Plan        pkg/aip/jet/plan.go: BuildPlan
--   Jet/Keyset      pkg/aip/jet/execute.go: buildKeysetCondition and what it calls
--   Jet/Execute     pkg/aip/jet/execute.go: Execute, ExecuteWithCondition, buildNextPageToken
--   Jet/Filter      pkg/aip/jet/filter.go: FilterToCondition and what it calls
--   Plugin/Plan     cmd/protoc-gen-go-jet/plan.go: the plan of a table and its parts
--   Plugin/Identifier  identifiers and JSON paths of cmd/protoc-gen-go-jet/resolve.go, quoting of
--                   cmd/protoc-gen-go-jet/emit_sql.go
--   Plugin/Resolve  cmd/protoc-gen-go-jet/resolve.go: resolveIndex, resolvePartition, parseOrderBy,
--                   normaliseProtoComment, toSnake, snakeToPascal
--   Plugin/Validate cmd/protoc-gen-go-jet/resolve.go: validatePlan
--   Plugin/ForeignKey  cmd/protoc-gen-go-jet/resolve_fk.go; Plugin/ForeignKey/Pass has completeFK and
--                   resolveForeignKeys
--   Plugin/Sql      cmd/protoc-gen-go-jet/emit_sql.go: renderSchemaSQL; Plugin/Sql/Table, Index and
--                   Notes have its parts
--   Plugin/Apply    cmd/protoc-gen-go-jet/apply_ddl.go: topoSortDDL
--   Plugin/Check    cmd/protoc-gen-go-jet/check.go: what is read out of ddl.sql, and normal forms
--   Plugin/Entry    cmd/protoc-gen-go-jet/main.go: detectDuplicateTables
--   Plugin/Delta    cmd/protoc-gen-go-jet/migration_scaffold.go: computeTableDelta, on the snapshots
--                   of check.go
--   Common          lists, texts, machine integers and their lemmas
--   Tests           concrete parameters, and the theorems at them
-- The files below a module hold its proofs and are named for what they prove.
--
-- A string is the list of its code points, an `any` of the cursor is a value with its dynamic type,
-- a map with string keys is the list of its entries, an error is the sentinels of its chain and a
-- cause, and a run-time panic is a result of its own. The clock, which the code reads, is an
-- argument. An int32 sum wraps around; the page size itself is an integer. A nil condition, and a
-- nil expression of a field of a filter, is `none`. The plans of a run, which are shared by
-- pointers, are a list, and a target is an index into it. The loops are structural recursions, but
-- for four on fuel: the client of Jet/Execute/Complete counts requests, and more requests than the
-- table has rows are enough; the tag of a dollar-quoted text grows at most as often as the text has
-- characters, and once more; parentheses are stripped at most as often as the text has characters;
-- the topological sort takes as many rounds as there are files. That each of these is enough is
-- shown, of the parentheses for bodies in which they are balanced.
--
-- Parameters: floats, times, `unicode`, JSON, base64 and SHA-256 (Aip/Runtime, with the laws that
-- the standard library documents), go-jet's expressions and what PostgreSQL makes of them on columns
-- without NULL (Jet/Sql), the parser of go.einride.tech/aip (Jet/Filter), upper case and
-- strings.EqualFold (Plugin/Resolve, Plugin/Check), the matches of regular expressions (Plugin/Apply).
--
-- Not modelled: what walks protobuf descriptors (resolveResource, resolveColumn, inferFieldEncoding,
-- resolveOneof), the emitters of Go code, and what talks to databases, files and processes; the
-- generated code, the end-to-end tests, the containers for them, jetgen and jettypes; of an error
-- message, all but its kind; the contexts and the connection that a query is given.
pub mod Common
pub mod Aip
pub mod Jet
pub mod Plugin
pub mod Tests
