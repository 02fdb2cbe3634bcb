-- ===== src/Lib.antt =====
-- The conformance oracle, tools/oracle: a Go program that runs the test cases under cases/ against a
-- real PostgREST server. A case is loaded from YAML, routed to one of the shared server
-- configurations or to a variant of one, sent as an HTTP request or run as a command line, and
-- checked against the expectations that it states; a report sums the results up.
--
-- The parts, the Go packages under tools/oracle/internal unless said otherwise, and their modules:
--   Value       Go's `any`: the values that yaml.v3 and encoding/json decode to; `Golib` is what the
--               program takes from libraries that are not modelled, a parameter of every definition
--               that uses it
--   Jsonval     jsonval/jsonval.go (numRat, DeepEqual; Rational is big.Rat.SetString)
--   Jsonval.Path
--               jsonval/jsonpath.go (parsePath, EvalPath)
--   Cases       cases/cases.go: RequestParser (parseRequest), Settings (parseConfig), Normalize
--               (normalizeYAML), Load (Load, LoadAll)
--   Route       route/route.go: Bases (the tables and BaseConfigs), Route and its helpers, groupKey;
--               Harness (CrossCheckHarness)
--   Httpexec    httpexec/pathenc.go (PathEncoding: EncodeRawPath), exec.go and jwt.go (Spec: BuildSpec,
--               MintHS256)
--   Instance    instance/instance.go (BuildEnv, withSafeUpdate, ringBuffer); Process (freePort, Start,
--               waitReady, Stop)
--   Assert      assert/assert.go: Headers, Body and Commands have the checks, Check has CheckHTTP and
--               CheckCLI
--   Report      report/report.go (Summary)
--   Run         ../cmd/oracle/run.go: Run (filterCases, effectiveSelection, groupsInOrder, toResult), Flags
--               (parseIDSet, parseStringSet), Loop (the loops of cmdRun, runCLICase, runHTTPCase),
--               Command (cmdRun, and resetSequences of db.go),
--               Interrupt (instanceRegistry and the signal's goroutine)
--   Db          db/sequences.go (quoteIdent, quoteLiteral, sequenceStateSQL, restoreSQL); Baselines
--               (CaptureSequences, RestoreSequences, BaselinePath), Server (db/db.go)
--   Cliexec     cliexec/cliexec.go
--   Fetchbin    fetchbin/fetchbin.go
--   Validate    CliShape: validate/clishape.go; Areas: checkAreaTable, checkTotalLine, checkOverflowNote and
--               numberWord of validate/validate.go; Tree: its loop over the case files
--   System      what the program calls of the operating system, a parameter `Os` whose answers may
--               depend on all that was done before; actions that add to that history, errors, panics
--               and `defer`
-- The other modules under these hold proofs, and Tests examples. Base has texts as lists of bytes,
-- association lists for Go's maps, sorting, signed integers and decimal texts.
--
-- How the code corresponds: a struct is a record, a map an association list whose order is the one a
-- `range` loop visits, a `(value, error)` pair a `Result` with one constructor for each message, a
-- list of failure texts a list of `Failure`, and a field with a `Has…` flag an option. Integers are
-- ℤ with the range checks of the conversions written out.
--
-- A run goes from the documents to its error: Cases loads them, Run.Command plans and resets the
-- sequences by Db, Run.Loop runs the cases by Cliexec and by Instance and Httpexec, Assert judges
-- them, and Report sums up. Each step takes the history of what was done and gives a longer one, so
-- the statements on temporary files, processes and calls of psql are statements on that history.
--
-- Fuel: only the loop of `parsePath` has it, the length of the text behind the dollar sign; each turn
-- takes at least one byte, so it is enough. The loop of `waitReady` has the number of polls that are
-- left before its deadline, which the clock gives.
--
-- Not modelled: reading YAML (yaml.v3's answer is the input); the work of encoding/json, regexp,
-- base64, SHA-256 and HMAC (parameters); the answers of files, processes, psql, the network and the
-- clock (fields of `Os` and `Host`); the signal inside Run.Loop, where a cancelled run is one whose
-- loops stop, while Run.Interrupt has the two threads; in Run.Interrupt a Start that fails and stops its own
-- process; white space and letter case beyond ASCII, and
-- runes, so that a byte is replaced in a baseline's name where the code replaces a rune; bands that end at the
-- largest int, on which parseCLIBand does not end; the texts of error messages; PGEnv.URI, which is net/url, and the reading
-- and writing of the baseline file; the rest of validate/validate.go, which reads the files, applies a
-- schema library and finds rows by regular expressions; and the flags and the other entry points of cmd/oracle.
pub mod Base
pub mod Value
pub mod System
pub mod Jsonval
pub mod Httpexec
pub mod Cases
pub mod Route
pub mod Instance
pub mod Assert
pub mod Report
pub mod Run
pub mod Db
pub mod Cliexec
pub mod Fetchbin
pub mod Validate
pub mod Tests
