-- ===== src/Lib.antt =====
-- Verification of Gamarr, the game and ROM library manager of this repository.
--
-- The parts, and the files that model them:
--
-- Health.antt and Health/: internal/search/health.go. The package's variables (the map of source
-- records, the breaker's threshold and its retry time) are the record Health; each exported function
-- is a function of the same name on it, with the current time as an argument.
--
-- Selection.antt and Selection/: internal/selection/rank.go and select.go, with the structs of
-- internal/models and internal/db that they read. Model holds the data, Filter filterCandidate and the
-- wanted dump, Rank the rank key and its comparison, Groups the disc sets, Pick the function Select.
-- Select calls into the library and the download queue through functions of its options, as in the
-- source. The random set identifier and StripDiscToken are its parameters. The model's Select returns
-- an Option, none where the source would read through a nil pointer.
--
-- Collection.antt and Collection/: internal/collection. Model holds the structs of set.go, Policy what a
-- policy excludes, Keeper the order of a group's dumps and its keeper, Build the grouping of a platform's
-- dumps, where selection.Parse and Overlay.Match are parameters; CloneList models the latter with the
-- parsing and the index of clone lists. Reconcile holds the functions of reconcile.go: the claiming of
-- library files tier by tier, the status of each group, and the summary. The library index
-- is a record of functions; selection.OwnershipKeys is a parameter.
--
-- Prune.antt and Prune/: internal/prune/prune.go. Model holds the rows and verdicts, Preview the
-- classification of a platform's owned dumps and of the files no dump claims, Disk the move of one file
-- with its sidecar, its manifest entry and its library row, Apply the pass over the rows of a preview,
-- Runner the runner with its counters and pages. selection.OwnershipKeys, the regular expression of the
-- hack marker and what the operating system or the store refuses are parameters; a run is modelled to
-- its end, and a cancellation is the position at which the run sees it. Keepers joins it with
-- Collection: what Reconcile, the preview and the apply pass do together. The disk is the
-- files, the library rows, the manifest and the directories made. The start of a page wraps around at 64
-- bits, as a product of Go ints does.
--
-- Selection/Name.antt and Selection/Name/: internal/selection/relname.go. A name is scanned into plain
-- characters and tokens; the regular expressions are functions on text, and the spans of the source are
-- those pieces. Ownership holds the keys of internal/selection/ownership.go.
--
-- Download.antt and Download/: internal/download/failure.go and discset.go with internal/db/blocklist.go
-- and the handler of internal/api/blocklist.go that adds an entry. Model is the job store: the jobs, the
-- blocklist, the activity log and the library rows by source id. Failure fails a job, Sets holds the
-- barrier, the finalizing and the sweep of disc sets; what normalizing, converting and the sidecar do to
-- the files is left out, and the flight that keeps two finalizers of a set apart is a sequence of runs.
--
-- Scoring.antt and Scoring/: internal/search/scoring.go, with the words of internal/search/filter.go. The
-- operations of float64 are a parameter.
--
-- RateLimit.antt and RateLimit/: internal/api/ratelimit.go. The limiter is a record; Check takes the
-- time, and the goroutine that calls cleanup is an event of a run.
--
-- Base.antt and Base/: shared names; Go strings as lists of character codes, with ASCII case folding
-- and trimming (Text); Go maps as association lists (Dict, Keyed); sort.SliceStable as an insertion sort
-- (Sort); signed integers (Int).
--
-- Bounds: a Go int is a natural number where it is never negative and a signed integer of Base.Int
-- otherwise, without the 64-bit limit, which only the parser of numbers in names and the pages of a
-- preview keep. Every loop of the source that is modelled runs over a list or a counter; only the
-- decimal form of a number runs on fuel, one more than the number, of which each digit takes one and
-- leaves a tenth of the number. Times are seconds or nanoseconds since a fixed origin.
--
-- Not modelled: logging, the other HTTP handlers, the SQL store, file and archive handling, the clients
-- of other services, and the web frontend.
pub mod Base
pub mod Collection
pub mod Download
pub mod Health
pub mod Prune
pub mod RateLimit
pub mod Scoring
pub mod Selection
