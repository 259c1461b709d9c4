-- ===== src/Lib.antt =====
-- A model of the request path of the Gogogo web server, and theorems about it.
--
-- A request is read by the parser (modules/gogohttp), its path is matched in the trie of the
-- manifest (modules/router), and the route is served: from the manifest, from a file
-- (cmd/main/files.go), or as a page with holes that are filled by SQL queries
-- (cmd/main/holes.go, cmd/main/output_cache.go). The server reads and writes a connection in one loop
-- (modules/gogohttp/server.go, response.go) and calls the dispatch of cmd/main/main.go. Query rows (modules/fastdb/cache.go) and finished
-- pages (cmd/main/output_cache.go) are cached by the tables that they depend on, and a write to a
-- table invalidates both (modules/fastdb/invalidate.go, modules/fastdb/subscribe.go). The manifest is
-- written by cmd/build/v2_compiler.go.
--
-- Files and the code that they model:
-- Base: numbers, lists and byte strings.
-- Gogohttp/Types, Gogohttp/Scan, Gogohttp/Parser: modules/gogohttp/types.go and parser.go. `parse`
-- is `Parse`, `parse_request_line` and `parse_header` are the functions of those names, `find_eol`
-- is `findEOL`, `parse_decimal` is `parseDecimal`.
-- Gogohttp/Conn: a connection, as the segments that will arrive and the writes that will fail.
-- Gogohttp/Response: modules/gogohttp/response.go; `write_to` is `writeTo`, the closure of a streamed
-- response is the data type `Stream`, and `chunked_write` is `chunkedWriter.Write`.
-- Gogohttp/Response/Registry: modules/gogohttp/sugar.go.
-- Gogohttp/Server: modules/gogohttp/server.go; `serve_one` is `serveOne`, `receive` its part before the
-- dispatch, `serve_conn` is `serveConn`.
-- Router/Trie: modules/router/trie.go. A trie is its list of nodes, children are indices as in the
-- source, and an index out of range or a write to a nil map is the value `fault`.
-- Router/Methods: `ParseMethods` and `AllowHeaderValue` of modules/router/v2_binary.go.
-- Lru: what modules/fastdb/cache.go and cmd/main/output_cache.go have in common: `put_entry`,
-- `evict`, `drop_table` and `move_to_front` are the bodies of Put, its last loop, the
-- invalidation and moveToFrontLocked. The map of entries and the linked list are one list.
-- Fastdb/Cache: modules/fastdb/cache.go, with the clock as an argument.
-- Fastdb/Tables: `extractTables` of modules/fastdb/invalidate.go, on ASCII text.
-- Fastdb/Subscribe: modules/fastdb/subscribe.go, and the rounds of the watcher of invalidate.go, each
-- with the cache and the subscriptions that it meets.
-- Holes: the blobs of cmd/build/v2_compiler.go and their readers in cmd/main/holes.go,
-- cmd/main/files.go and modules/router/v2_binary.go.
-- OutputCache: cmd/main/output_cache.go. What composeHoleBody returns, and the compressors of
-- modules/compress, are parameters.
-- Files: `parseByteRange` of cmd/main/files.go.
-- Dispatch: `serve` of cmd/main/main.go and what it calls, with modules/actions/actions.go and
-- what composeHoleBody returns as a parameter;
-- Dispatch/Files: `serveFile` of cmd/main/files.go; Dispatch/Loading: the loops of `loadState`.
-- Router/Manifest: the entries and the manifest of modules/router/v2_binary.go; `load` is `Load`, and
-- `write_parts` the bytes of `Write` in cmd/build/v2_compiler.go. The JSON text is a parameter.
-- Compiler: the routes of cmd/build/v2_compiler.go, with the compressors as parameters.
-- Holes also has the cache of parsed templates of cmd/main/holes.go; whether a source parses is a
-- parameter, and a source stands for its template.
-- Compose: `composeHoleBody` of cmd/main/holes.go; templates and the database are parameters.
-- The modules named Tests apply the theorems to concrete inputs.
--
-- A mutex makes an operation of a cache one step, so a history is a list of operations. Loops with no
-- structural bound take fuel: the header loop of the parser gets `loop_fuel`, one round more than the
-- headers that a request may have; the eviction gets the number of entries, and each round removes
-- one; the loops of the table extraction and of QueryValue get the length of the text, and each round
-- goes on by at least a byte. Integers are unbounded where the source's int holds any size that
-- memory allows; the 8-, 16-, 32- and 64-bit fields and hashes are cut as in the source.
--
-- The loops that read a connection get the number of segments and bytes to come, since each read takes
-- a byte or a segment; the loop over the requests gets the bytes to come, since each request takes one.
--
-- Not modelled: the SQLite pool (modules/fastdb/fastdb.go) and the hook that SQLite calls, which are
-- calls of a C library; the accept loop and the pool of connection buffers of modules/gogohttp; the
-- swap of the state on SIGHUP; the templates of modules/build; the build pipeline of cmd/build, which
-- is file system work, with the loop of `Compile` over its results; the tools, metrics, studio,
-- configuration and database modules.
pub mod Base
pub mod Gogohttp
pub mod Router
pub mod Lru
pub mod Fastdb
pub mod Holes
pub mod OutputCache
pub mod Files
pub mod Dispatch
pub mod Compiler
pub mod Compose
