-- ===== src/Lib.antt =====
-- The low-latency key-value lookup system: crates/kv-store, crates/snapshot-builder,
-- crates/kv-server and crates/validator.
--
-- A snapshot builder writes a table of 64-byte keys and 256-byte values to one file: a header page,
-- a minimal perfect hash index, padding, and a record for each key in the slot that the index gives
-- the key. A store maps such a file and answers look-ups: the index gives a slot, and the key in the
-- slot decides. A gRPC service holds a store behind an atomic pointer, validates requests, counts
-- them, and lets the store be replaced while requests run.
--
-- Which file models which part:
--   Common: numbers and tests, lists, byte ranges, 64-bit words, masks, text, and outcomes. An
--     `Outcome` is a value, a returned error or a panic; an `Action` carries a state through it.
--   Kv/Error, Kv/Header, Kv/Record, Kv/Mphf, Kv/Store: error.rs, header.rs, record.rs, mphf.rs and
--     store.rs of crates/kv-store/src, function by function under the source's names. `open` is a
--     reserved word here: `open_store` is `KvStore::open`, and `open_bytes` is what it does once the
--     file's bytes are mapped.
--   Kv/Record/Cast: records and blocks of 320 bytes as types. Kv/Store/Contents: what a store is to
--     its callers, a multiset of entries. Kv/Store/Sample: the counts of the look-ups of a sample.
--   Kv/GoFunction: the operations of the crate `ph` that the index is made of, a parameter, and what
--     that crate documents (`IsLawful`). A look-up may panic in a function that was not built from
--     keys; `Answers` is that it does not.
--   Builder/Snapshot: crates/snapshot-builder/src/builder.rs. The state is the file at the output
--     path; each system call succeeds or fails as the argument `Calls` says.
--   Builder/Inputs: build_from_binary, build_from_csv (from parsed rows on), build_random (from the
--     random bytes on) and the string conversions of crates/snapshot-builder/src/main.rs.
--   Builder/Validation: its `validate_snapshot`. Common/Choice is the sample that it draws. Here
--     Counted, and for the validator Validator/Accepted, are about files of any contents that open.
--   Builder/CommandLine: its `main` and `print_info`, over the files that the commands read and
--     write. The crates csv and rand are the argument `Crates`.
--   Server/Metrics, Server/Service: metrics.rs and server.rs of crates/kv-server/src. A handler is an
--     action on the service, its store and its metrics.
--   Server/Metrics/Registry: how `Metrics::new` makes and registers the instruments, and
--     `Metrics::encode`. The crate prometheus is the argument `Prometheus`.
--   Server/Concurrent: any number of requests of both kinds and reloads, as a step relation in which
--     each step of a request makes one access of the shared store or counters.
--     Server/Concurrent/Tickets has what each request asked for, and the stores that it has seen;
--     Server/Concurrent/Built is about servers whose stores were opened from built files, and
--     Server/Concurrent/Opened about files of any contents.
--   Server/Process: crates/kv-server/src/main.rs, from the parsed command line on. The address parser
--     and how serving ends are the argument `Network`, the crate prometheus is `Prometheus`; what has
--     been started is a list of events.
--     Server/Process/Endpoint is its metrics endpoint, over the connections that it accepts.
--   Validator/Check, Validator/Verify (with Validator/Pairs for its loop), Validator/Bench,
--     Validator/Diff, Validator/Hex: the commands of crates/validator/src/main.rs, and its hex codec;
--     Validator/CommandLine: its `main`. The sample that `check` draws is an argument (`Choice`), and
--     a parsed file of pairs is one of `verify_expected`; a command carries what it has printed,
--     without the texts around the results.
--   Tests: a concrete hash function that satisfies the laws, a table of two records, and the theorems
--     at concrete inputs.
--
-- Conventions. A byte, a word and a size are natural numbers; `usize` has 64 bits, and `+` and `*` on
-- u64 and usize wrap (`add64`, `mul64`), as in the release profile of Cargo.toml. Arrays and slices
-- are lists of bytes; a slice out of range, a failed `assert!`, `unwrap` or `expect` is `panic`,
-- which ends the process. Loops are recursions on their lists and counts; `touch_pages` has a round
-- for each byte, which is more than one for each page; `decimal` has the twenty digits of a u64.
--
-- Not modelled: argument parsing, logging, progress bars, the network, HTTP and TLS layers, what the
-- benchmark measures, the formatting of sizes and dates that `info` prints, and the deployment
-- scripts. The digest of `sha2` is a parameter. The histogram is the list of its observations. Of
-- `Debug` output the `fmt` of records, indexes and stores is modelled, without the alternate form.
pub mod Common
pub mod Kv
pub mod Builder
pub mod Server
pub mod Validator
pub mod Tests
