-- ===== src/Health.antt =====
-- market_data/health.py: the registry of source health, the runtime fields of the health file that the
-- registry itself writes, and the verdict of `read_status` on a health file.
pub mod Rows
use poly_market_btc_arbitrag.Prelude.{
  ℕ, ◌+◌, ◌-◌, ◌/◌, Bool, true, false, not, Option, none, some, List, [], ◌∷◌, map, String, ltb,
  if◌then◌else◌,
}
use poly_market_btc_arbitrag.Models.Enums.{
  EventSource, market_discovery, chainlink_rtds, binance_spot, polymarket_clob,
}
use poly_market_btc_arbitrag.Models.Payloads.{SourceHealthSnapshot}

-- `_SourceHealth`
pub record SourceHealth : Type 0 where
  pub connected : Bool
  pub current_session_id : Option String
  pub last_valid_message_ns : Option ℕ
  pub reconnect_count : ℕ
  pub invalid_count : ℕ
  pub duplicate_count : ℕ
  pub stale_session_count : ℕ
  pub divergence_count : ℕ
  pub protocol_error_count : ℕ
  pub last_disconnect_reason : Option String

-- `last_fatal_error` of the runtime fields
pub record FatalError : Type 0 where
  pub message : String
  pub exception_type : String
  pub timestamp_ns : ℕ

-- The runtime fields that methods of the registry set.
pub record Runtime : Type 0 where
  pub schema_version : ℕ
  pub process_started_at : String
  pub gateway_state : String
  pub ready : Bool
  pub not_ready_reasons : List String
  pub last_fatal_error : Option FatalError

-- `_sources` has one row for each source.
pub record HealthRegistry : Type 0 where
  pub discovery_row : SourceHealth
  pub chainlink_row : SourceHealth
  pub binance_row : SourceHealth
  pub clob_row : SourceHealth
  pub runtime : Runtime

abbrev pub new_row : SourceHealth
new_row = record {
  connected = false;
  current_session_id = none;
  last_valid_message_ns = none;
  reconnect_count = 0;
  invalid_count = 0;
  duplicate_count = 0;
  stale_session_count = 0;
  divergence_count = 0;
  protocol_error_count = 0;
  last_disconnect_reason = none;
}

-- `HealthRegistry()`, at the time that `datetime.now(UTC).isoformat()` shows
unfoldable pub new_registry : String → HealthRegistry
new_registry started = record {
  discovery_row = new_row;
  chainlink_row = new_row;
  binance_row = new_row;
  clob_row = new_row;
  runtime = record {
    schema_version = 2;
    process_started_at = started;
    gateway_state = "starting";
    ready = false;
    not_ready_reasons = [];
    last_fatal_error = none;
  };
}

-- `self._sources[source]`
unfoldable pub row : HealthRegistry → EventSource → SourceHealth
row r market_discovery = r.discovery_row
row r chainlink_rtds = r.chainlink_row
row r binance_spot = r.binance_row
row r polymarket_clob = r.clob_row

-- A change to the fields of one row.
unfoldable pub change :
    EventSource → (SourceHealth → SourceHealth) → HealthRegistry → HealthRegistry
change market_discovery f r = record r { discovery_row = f r.discovery_row }
change chainlink_rtds f r = record r { chainlink_row = f r.chainlink_row }
change binance_spot f r = record r { binance_row = f r.binance_row }
change polymarket_clob f r = record r { clob_row = f r.clob_row }

unfoldable pub record_connection : EventSource → Option String → ℕ → HealthRegistry → HealthRegistry
record_connection source session now = change source λ row. record row {
  connected = true;
  current_session_id = session;
  last_valid_message_ns = some now;
  last_disconnect_reason = none;
}

unfoldable pub record_disconnection :
    EventSource → Option String → Option String → HealthRegistry → HealthRegistry
record_disconnection source session reason r =
    let marked = change source disconnect r in
    record marked { runtime = record (marked.runtime) { ready = false } }
  where
    disconnect : SourceHealth → SourceHealth
    disconnect row = record row {
      connected = false;
      current_session_id = session;
      last_disconnect_reason = reason;
    }

unfoldable pub record_message : EventSource → ℕ → HealthRegistry → HealthRegistry
record_message source now = change source λ row. record row { last_valid_message_ns = some now }

unfoldable pub record_reconnect : EventSource → HealthRegistry → HealthRegistry
record_reconnect source =
    change source λ row. record row { reconnect_count = row.reconnect_count + 1 }

unfoldable pub record_invalid : EventSource → HealthRegistry → HealthRegistry
record_invalid source = change source λ row. record row { invalid_count = row.invalid_count + 1 }

unfoldable pub record_duplicate : EventSource → HealthRegistry → HealthRegistry
record_duplicate source =
    change source λ row. record row { duplicate_count = row.duplicate_count + 1 }

unfoldable pub record_stale_session : EventSource → HealthRegistry → HealthRegistry
record_stale_session source =
    change source λ row. record row { stale_session_count = row.stale_session_count + 1 }

unfoldable pub record_divergence : EventSource → HealthRegistry → HealthRegistry
record_divergence source =
    change source λ row. record row { divergence_count = row.divergence_count + 1 }

unfoldable pub record_protocol_error : EventSource → HealthRegistry → HealthRegistry
record_protocol_error source =
    change source λ row. record row { protocol_error_count = row.protocol_error_count + 1 }

-- The exception's text and class name are its argument.
unfoldable pub record_fatal : String → String → ℕ → HealthRegistry → HealthRegistry
record_fatal message exception_type now r = record r {
  runtime = record (r.runtime) {
    gateway_state = "failed";
    ready = false;
    last_fatal_error =
        some (record { message = message; exception_type = exception_type; timestamp_ns = now });
  };
}

-- `max(0, (now_ns - then) // 1_000_000)`: where `now` is before `then` both are 0.
abbrev pub age_ms_since : ℕ → ℕ → ℕ
age_ms_since now before = (now - before) / 1000000

age_of : ℕ → Option ℕ → Option ℕ
age_of now none = none
age_of now (some before) = some (age_ms_since now before)

unfoldable pub source_snapshot : HealthRegistry → EventSource → ℕ → SourceHealthSnapshot
unfolding age_of
source_snapshot r source now =
    let h = row r source in
    record {
      connected = h.connected;
      stale = not h.connected;
      current_session_id = h.current_session_id;
      last_message_timestamp_ns = h.last_valid_message_ns;
      age_ms = age_of now h.last_valid_message_ns;
      reconnect_count = h.reconnect_count;
      invalid_count = h.invalid_count;
      duplicate_count = h.duplicate_count;
      stale_session_count = h.stale_session_count;
      divergence_count = h.divergence_count;
      protocol_error_count = h.protocol_error_count;
    }

-- `EventSource` in the order of its members
abbrev pub all_sources : List EventSource
all_sources = market_discovery ∷ chainlink_rtds ∷ binance_spot ∷ polymarket_clob ∷ []

unfoldable pub all_source_snapshots : HealthRegistry → ℕ → List (EventSource × SourceHealthSnapshot)
all_source_snapshots r now = map (λ source. (source, source_snapshot r source now)) all_sources

-- What `read_status` finds at the path: no file, a file that it cannot read or decode, or that is no
-- object with a whole number for its time (`corrupt`), or a health file.
pub data HealthFile : Type 0 where
  missing corrupt : HealthFile
  payload : (updated_at_ns : ℕ) (ready : Bool) → HealthFile

-- The exit status of `read_status`.
unfoldable pub read_status : HealthFile → ℕ → ℕ
read_status missing now = 2
read_status corrupt now = 3
read_status (payload updated ready) now =
    if ltb 5000000000 (now - updated) then 2 else if ready then 0 else 1
