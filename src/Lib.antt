-- ===== src/Lib.antt =====
-- A verification library for jepa-btc-forecasting: the parts of the program that decide when a bar
-- closes, what order book a trade saw, which vendor a window leans on, which training rows are
-- purged, how a window is labelled, which trials count, and how often the holdout is consumed. Paths
-- are from the repository's root.
--
-- How the parts interact. recon/ turns two streams of normalized events (book deltas and trades)
-- into the order book as of a sample time or a trade, offline over a whole day and live behind a
-- watermark. bars/clock.py cuts a day's trades into dollar bars, with a threshold that comes from
-- the volume of the days before, and gives each bar the instant at which it was decided; the bars
-- of chained days are coalesced to one per instant (bars/produce.py). bars/snapshot.py reads the
-- target book at these instants twice, as it was observable and as it truly was; data/labels.py
-- labels each instant from the second. recon/stitch_policy.py says which vendor serves each part of
-- a day, and data/ splits and weights the rows that the bars become. eval/ledger.py records every
-- trial of a study, so that their number enters the statistics, and eval/consumption.py lets the
-- holdout be scored once; eval/partition.py keeps the development rows clear of it.
--
-- Files.
--   Prelude: Boolean tests, lists, integers and results; Float, the arithmetic of Python's floats as a record
--     of operations; Order and Sort, `sorted` as the stable insertion sort, and np.searchsorted.
--   Bars/Events: bars/events.py (ClockTrade, clock_order_key).
--   Bars/Schedule: bars/clock.py, class ThresholdSchedule.
--   Bars/Clock: bars/clock.py, class BarClock (init, close for _close, push, finish); Clock/Bounds
--     says what a sound bar is, Clock/Sound, Clock/Push and Clock/Finish follow the calls.
--   Bars/Day: bars/clock.py, bars_for_day and coalesce_decision_bars.
--   Bars/Snapshot: bars/snapshot.py (dual_book_reads), its types in Snapshot/Records; Snapshot/Cells to
--     Snapshot/Advance follow one decision, Snapshot/Reads, Reference, Accepted and Total a run.
--   Bars/Produce: bars/produce.py, the days of a segment in _build_frame; Produce/Carry is about the bar
--     held over to the next day, Produce/Segment about the whole segment.
--   Recon/Events: recon/events.py and recon/merge.py.
--   Recon/OrderBook: recon/orderbook.py.
--   Recon/Reconstruct: recon/reconstruct.py (sample_topk_as_of, reconstruct_book_at_samples,
--     reconstruct_book_at_trades).
--   Recon/Live: recon/live.py, class LiveReconstructor.
--   Recon/Stitch: recon/stitch_policy.py, the warm-up boundary, the masks and the window sources, an
--     array function at one sample; Stitch/Masks and Stitch/Plan: plan_day_stitch, full_day_plan.
--   Data/Cv: data/cv.py (cpcv_splits). Data/Uniqueness: data/uniqueness.py
--     (concurrency_uniqueness, max_lookback_ns, apply_lookback_cap).
--   Data/Labels: data/labels.py (triple_barrier_labels), its types in Labels/Records; Labels/Scan is
--     about one window, Labels/Path to Labels/Rows about the stream.
--   Eval/Json: the values that eval/ stores, and _json_safe. Eval/Ledger: eval/ledger.py.
--   Eval/Consumption: eval/consumption.py, with verify_freeze and authorize_freeze of eval/freeze.py;
--     Consumption/Store has the record and its files, Consumption/Lawful the step relation.
--   Eval/Partition: eval/partition.py (validate_partition_contract, _span_violations and its callers).
--   Files below these hold what is proved of them. Tests: the theorems at concrete inputs.
--
-- How the code is represented. A record stands for each class with state, and a function for each
-- method: it takes the state and returns the state that it leaves, beside the value or the error
-- that the `raise` names. A generator is the list of what it yields beside how it ends. Times,
-- sequence numbers and counts are natural numbers: negative integers are not represented (but for
-- the int64 columns of Eval/Partition), the checks that refuse them have no counterpart, and a
-- difference that may be negative is compared in the form `a + b <= c`. The sums of int64 arrays in
-- data/cv.py and in label_valid_mask wrap around (wrap_i64 of Prelude/Int). A float is a value of
-- an arbitrary arithmetic (Prelude/Float); a theorem that needs the order of floats takes the law
-- as a hypothesis, which says that the floats are finite and the two zeros are one. The NaN that
-- pads a missing level is `none`; a book's sizes are taken to be positive, so that the microprice
-- never divides by zero. A dictionary is an association list in insertion order. A day's name is
-- read by a parameter (date.fromisoformat), which gives the days since 1970-01-01. hash_obj of
-- eval/hashing.py, which is json and hashlib, is a parameter.
--
-- Fuel. The loop of BarClock.push and of BarClock.finish runs on the fuel `limit + 1`, where `limit`
-- is the time up to which it runs; that is enough, since each round moves the interval's start by the
-- cap, which is at least 1.
--
-- Not modelled: pandas and numpy adapters, downloads and file formats (ingest/), the Rust
-- reconstruction (native/), and the scripts: they are input and output or call other libraries. The
-- features of bars/ and the classification, labels and files of bars/produce.py, the reseeding, the
-- building of the freeze artifact and the statistics of eval/ are not modelled either.
pub mod Bars
pub mod Data
pub mod Eval
pub mod Prelude
pub mod Recon
pub mod Tests
