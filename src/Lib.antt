-- ===== src/Lib.antt =====
-- Market data for BTC up/down markets: the core of the gateway that merges the feeds of Polymarket,
-- Binance and Chainlink into one ordered sequence of events, reduces them to snapshots for a strategy,
-- stores the events, and replays them.
--
-- The parts and how they interact. The sources publish events on the bus, which numbers them and
-- puts each into the queue of the reducer and the queue of the raw writer. The reducer applies each
-- event to the store; a tick makes a snapshot, which the publisher hands to its subscribers. The
-- replay reads the written segments back, merges them by their numbers, and gives them to the same
-- reducer. The paths below stand under src/polymarket_btc/data_collection/.
--
--   Prelude, Prelude/*: names of the libraries, Boolean tests on numbers, lists, decidable equality.
--   Texts: what is used of Python's str.
--   Dict, Dict/Laws: Python's dict as its entries in insertion order, and its laws.
--   Decimals: sums of decimals under the context of 28 digits, with its rounding half to even.
--   Models/*: the enumerations and records of market_data/models.py and market_discovery/models.py.
--   Health: the registry of market_data/health.py, a row for each source; Health/Rows has a lemma.
--   State/Book: the books of market_data/state.py (_Book) and what each message does to one.
--   State/Rolling: the windows (_RollingAccumulator), against sums over the recent trades.
--   State/Contexts, State/Identity, State/Store: the contexts of the markets, the fields of a CLOB event,
-- and StateStore.apply.
--   State/BookView, State/BinanceView, State/View: StateStore.snapshot and the functions it calls.
--   Reducer: market_data/reducer.py, and as `run` the loop of _replay of market_data/cli.py over it.
--   Reducer/Live: MarketDataGateway._reducer as `live`, with what the other tasks do to the shared
-- registry and store between two events, and with the put that raises past its deadline.
--   EventBus: market_data/event_bus.py, with MarketDataGateway._publish_source.
--   Publisher: market_data/snapshot.py.
--   Replay, Replay/Files: market_data/replay.py; Replay/Merge, Success, Completeness: the merge;
-- Replay/Follow, Sorted, Groups, Orders: the whole of a directory of segments.
--   Discovery: market_discovery/models.py, and of resolver.py and transition.py the windows, the
-- checks of a payload, and the search for the next market; Discovery/Floats: the floating point of its
-- delay.
--   Clob: market_data/sources/polymarket_clob.py: the subscriptions; Clob/Parsing, Clob/Messages:
-- apply_clob_message with the functions that it calls; Clob/Levels: _book_levels; Clob/Frames: the loop
-- over the frames of a connection, with the removal of duplicates, and with what the other tasks do to
-- the assets between the frames.
--   Json, Json/*: decoded messages, their fields, and parse_decimal of market_data/models.py.
--   Binance: the parser of market_data/sources/binance_spot.py, and its loop over the messages of a
-- connection.
--   Chainlink: the same of market_data/sources/rtds_chainlink.py.
--   Codec: the JSON of an event, both ways: Codec/Write has _jsonable, and Codec/Parts and Codec/Read
-- have event_from_dict, of market_data/models.py.
--   Storage: RawEventStorage of market_data/storage.py, which writes the events into files, rotates
-- these, and closes them, with Storage/Recovery for a file that was left open; its files are those
-- that Replay reads. Storage/Segments, Contents, Closing are about a segment, the calls of write, and
-- close; Storage/Replayed is about the storage and the replay together.
--   Tests: the theorems applied to concrete values.
--
-- How code is modelled. A method on an object is a function from the state to the state. An exception
-- is a value: value_error of Result, the Failure that ends a stream, an Outcome, and in the parsers
-- and checks of messages `none`, which leaves the text of the error out. Decimals that come from a
-- message are natural numbers of a common decimal place; sums and differences of them are integers,
-- rounded as the decimal context does; a quotient is kept as its two terms. Times are natural numbers
-- of nanoseconds, and in the discovery of microseconds. The wait of a publication is a list of rounds,
-- each with what the consumers took and the clock that it reads. A generator is the list of what it
-- yields with its end. The tasks of one event loop change what they share only where a task waits: the
-- changes are arguments of the step that follows the wait. An event's stream is that of its payload,
-- as in every event that the parsers and the decoding build, so that the `ValueError` of the reducer
-- for another payload of a tick, which the model has, is never reached. The order of Python's sets is
-- not used where the code does not depend on it.
--
-- Bounds. Three functions recur on fuel: the loop of the merge, which is given a round for each event of
-- its streams (merge_raw_streams-WithinFuel is about this); the search for the power of ten to which a
-- sum is rounded, which is given the sum itself, more than its digits; and the scaling of a
-- floating-point number, which takes 80 doublings, enough for a microsecond. All else is structural.
--
-- Parameters. The replay takes the hash of a file, its decompression and the decoding of a line as
-- functions. The parsers take Python's `str` of a decoded value, and the reading of a text as a
-- decimal of the common place, as functions; the checks of a market's payload take the readers of
-- JSON, dates and URLs, and the case mapping of Unicode, as functions. The coding of events takes
-- what it uses of Python (`str`, `int`, `Decimal`) as the record Python, with the law that a decimal's
-- text reads as the decimal; the storage takes the formats of its files (JSON lines, Zstandard, SHA-256)
-- as the record Format, with the law that what is written is read back.
--
-- Not modelled: network connections with their back-off and statuses, and the scheduling of the
-- gateway's tasks, which are asynchronous input and output; errors of the operating system, the
-- directories, renames and flushes of files; the recovery of files but for JSONL files that were left
-- open, and the snapshots in Parquet, which depend on the formats' libraries; the reading of the
-- configuration, the command lines and the scripts.
pub mod Prelude
pub mod Texts
pub mod Dict
pub mod Decimals
pub mod Models
pub mod Health
pub mod State
pub mod Reducer
pub mod Replay
pub mod Storage
pub mod Json
pub mod Codec
pub mod Binance
pub mod Chainlink
pub mod Discovery
pub mod Clob
pub mod EventBus
pub mod Publisher
pub mod Tests
