-- ===== src/Lib.antt =====
-- Titip: an HTTP cache in front of an origin handler, with Edge Side Includes.
--
-- The program. A request runs through the states of handler.go: it is bypassed, looked up under a key
-- (cache_key.go), matched to a stored variant, and its freshness and its conditional headers decide
-- whether the stored response is served, revalidated or fetched from the origin. A response from the
-- origin is judged by freshness.go, which says how long it is fresh and whether it may be stored. A
-- body that holds ESI tags is scanned once by esi/scanner.go; the descriptors are stored with the
-- variant, and esi/processor.go puts the fetched fragments into the body when it is served.
--
-- What models what:
--   Text           Go strings and byte slices, as lists of bytes, with the functions of `strings`,
--                  `bytes` and `strconv` that the program calls; Text/Order has the order of strings
--                  and `slices.Sort`
--   Http           `http.Header` with its canonical keys, and the names of header.go
--   Freshness      freshness.go: parseAge, parseDate, the tiers of Cache-Control; Freshness/Lifetime
--                  has the lifetime, the TTL and the stale windows, Freshness/Cacheable
--                  isResponseCacheable, Freshness/Calculate calculateFreshness
--   Key            cache_key.go: Key/Path the cleaned and escaped path, Key/Query the filtered query,
--                  Key/Primary generatePrimaryKey, Key/Variant generateVariantKey, Key/Escape the
--                  escapes of net/url
--   Purge          purge.go: what a purge and a prefix purge name; Purge/Run the purges of titip.go
--                  on a store of any kind
--   Precondition   strongETagMatches and weakETagMatches of header.go, evaluatePreconditionsHeaders of
--                  handler.go
--   Options        the options of config.go and New of titip.go
--   Validated      options that may be refused
--   Esi/Fragment   the message EsiFragment of proto/titip.proto
--   Esi/Attribute  scanTagHeaderEnd and extractAttributeRaw of esi/scanner.go
--   Esi/Tag        one round of the loop of Scan, with parseESIInclude and parseTimeout
--   Esi/Scanner    Scan with its recursion into `<!--esi` comments
--   Esi/Splice     spliceFragments, safeSlice and resolveFallback of esi/processor.go
--   Esi/Guard      esi/ssrf.go: the URLs, the hosts and the addresses that may be called
--   Esi/Options    the options of esi/config.go and NewProcessor of esi/processor.go
--   Esi/Fetch      one fetch of esi/processor.go, with the headers that go out
--   Esi/Execute    executeFragments, executeFragment, expandNestedESI and ProcessFragments
--   Esi/Flight     flightGroup of esi/processor.go, for one key
--   Esi/Reconcile  ReconcileHeaders of esi/processor.go
--   Esi/Surrogate  the Surrogate-Control and Surrogate-Capability headers, esi/processor.go
--   Storage        the messages of proto/titip.proto and the reads of storage/storage.go
--   Handler        the context, the events and the states of handler.go; Handler/Lookup has the states
--                  up to the verdict on an entry, Handler/Serve those that answer from the store,
--                  Handler/Miss and Handler/Revalidate those that ask the origin, Handler/Save what is
--                  stored of a response, Handler/Background the revalidation in the background,
--                  Handler/Unsafe the requests that change something and the purges after them,
--                  Handler/Machine the loop of ServeHTTP; Handler/Machine/Again joins it to the store
--                  in memory
--   Handler/Assemble  processESI of handler_esi.go: a document is assembled and written
--   Storage/Dict   a Go map with text keys
--   Storage/Glob   matchGlob of internal/teststore/store.go
--   Storage/Memory the store of internal/teststore/store.go: its reads and writes; Storage/Memory/Purges
--                  has the purges and the index of tags
--   Storage/Redis  the keys, the reads and the writes of storage/redis/redis.go; Storage/Redis/Purges has
--                  its purges
--   Caddy          the configuration types of adapter/caddy; Caddy/Provision has Provision of the handler
--                  and of the app, Caddy/Caddyfile the parsers of a Caddyfile, on a dispenser that is a
--                  parameter, with the directives in Caddy/Caddyfile/Directives, Caddy/Admin the purges
--                  of the admin API
--   Tests          the theorems at concrete inputs
-- The modules below these hold their laws.
--
-- Numbers. An instant is a natural number of nanoseconds from Go's zero time, a duration an `int64`
-- in nanoseconds, as an integer whose products and sums wrap at 64 bits. Offsets into a body are
-- natural numbers. Letter case and white space are those of ASCII, as they are in header fields.
--
-- Fuel. `scan_loop` and `attribute_loop` recurse on fuel; `scan` allows one round more than the body
-- has bytes, `extract_attribute` one more than the header has, and each round moves on by a byte.
--
-- The loop of ServeHTTP has six rounds: no longer chain of states exists. `execute_fragments` has fuel
-- for the documents inside one another; `process_fragments` gives it one more than the limit of depth,
-- and each document inside another is one level deeper. The loops over the pages of a scan in Redis have
-- fuel that a caller gives: more than there are pages is enough. A parser of a Caddyfile takes a round
-- for each token: more fuel than tokens is enough.
--
-- The world of a request. A `World` gives what the states read: the store, the origin as a function from
-- a request to its response or a panic, the readings of the clock, and the codecs. What they do is a list
-- of events in their order. One request is followed at a time; a store that others change in between is
-- given a second time, as the function in the singleflight finds it.
--
-- The assembly of a document. A fetch is a function of its URL and of the state of the document, and
-- another says of each tag whether there is time for its alternative. Nothing is assumed of them. The
-- tags of a document run side by side in the code and write to results of their own, which stand in
-- their order here. The flights that tags of one URL share are a step relation in Esi/Flight, on all
-- orders in which callers come and leave and flights end.
--
-- Parameters. `url.Parse` with `URL.String` and `URL.RequestURI`, `http.ParseTime` and the two parsers
-- of cacheobject, `time.ParseDuration` in the scanner, the date format of HTTP, the codecs, and the
-- clock. Nothing is assumed of them. The store of Purge/Run is a parameter as well, of which
-- `HardPurge` has what storage/storage.go documents: a hard purge removes what it names. The store in
-- memory is one; that in Redis is one where the server, a parameter, does what Redis documents of
-- HKEYS, UNLINK and SCAN. For the assembly: `url.Parse`, the internal fetcher and the HTTP client.
-- For the adapter: the modules, the durations and the dispenser of Caddy, of which `Counts` says that it
-- counts its tokens and `Presents` that it gives the lines of a block in order, the sizes of go-humanize,
-- and the decoder of JSON.
--
--
-- Not modelled: the details of Cache-Status by RFC 9211, logs, metrics and timings, timeouts and the
-- limit on requests at one time, ServeHTTP of the Caddy adapter, its module for Redis, and the generated
-- protobuf code.
pub mod Caddy
pub mod Esi
pub mod Freshness
pub mod Handler
pub mod Http
pub mod Key
pub mod Options
pub mod Precondition
pub mod Prelude
pub mod Purge
pub mod Storage
pub mod Tests
pub mod Text
pub mod Validated
