-- ===== src/Agent/Eventlog.antt =====
-- src/agent/eventlog.c: the append-only log of agent events, a ring of the newest records.
-- The globals `g_ring`, `g_head`, `g_count`, `g_seq` are the state. Each function runs under `g_lock`,
-- so a call is one step. The time that `timer_get_ms` reads is an argument.
pub mod Inv
pub mod Log
mod Tests
use aev_os.Common.{
  ℕ, suc, ◌+◌, ◌-◌, ◌%◌, ◌^◌, Bool, true, false, not, Option, none, some, List, [], ltb, ◌==◌,
  if◌then◌else◌, get_or, set, replicate, length,
}
use aev_os.Common.Ring.{slot, span}
use aev_os.Clib.Str.{strncpy}

-- `eventlog_type_t`; `zeroed` is the 0 of a record that `memset` cleared.
pub data EventType : Type 0 where
  zeroed user_input llm_start llm_end tool_call tool_result cancel error plan_step : EventType
  correct_rollback verify mailbox evolver : EventType

-- `eventlog_record_t`; `payload` is the whole `char[192]`.
pub record Record : Type 0 where
  pub seq : ℕ
  pub ts_ms : ℕ
  pub type : EventType
  pub agent_id : ℕ
  pub payload : List ℕ

pub record Eventlog : Type 0 where
  pub ring : List Record
  pub head : ℕ
  pub count : ℕ
  pub seq : ℕ

abbrev pub eventlog_capacity : ℕ
eventlog_capacity = 4096

abbrev pub payload_size : ℕ
payload_size = 192

pub zero_record : Record
zero_record = record {
  seq = 0;
  ts_ms = 0;
  type = zeroed;
  agent_id = 0;
  payload = replicate payload_size 0;
}

pub init : Eventlog
init = record { ring = replicate eventlog_capacity zero_record; head = 0; count = 0; seq = 0 }

-- `strncpy` and the terminator, or an empty string
pub write_payload : List ℕ → Option (List ℕ) → List ℕ
write_payload old none = set old 0 0
write_payload old (some s) = set (strncpy old s (payload_size - 1)) (payload_size - 1) 0

pub append : Eventlog → ℕ → EventType → ℕ → Option (List ℕ) → Eventlog
append g now type agent_id payload =
    let i = slot eventlog_capacity g.head g.count in
    let full = not (ltb g.count eventlog_capacity) in
    let next = (g.seq + 1) % 2 ^ 64 in
    let old = get_or g.ring i zero_record in
    record {
      ring = set g.ring i (record {
        seq = next;
        ts_ms = now;
        type = type;
        agent_id = agent_id;
        payload = write_payload old.payload payload;
      });
      head = if full then slot eventlog_capacity g.head 1 else g.head;
      count = if full then g.count else g.count + 1;
      seq = next;
    }

-- `for (i = 0; i < n; i++) out[i] = g_ring[(start + i) % EVENTLOG_CAPACITY]`
pub copy_out : List Record → ℕ → ℕ → ℕ → List Record
copy_out ring start i n = span zero_record eventlog_capacity ring start i n

-- The records written to `out`; their number is the result. `out` says whether `out` is given.
pub snapshot : Eventlog → Bool → ℕ → List Record
unfolding copy_out
snapshot g out max_records =
    if not out
    then []
    else if max_records == 0
    then []
    else let n = if ltb g.count max_records then g.count else max_records in
      copy_out g.ring ((g.head + g.count - n) % eventlog_capacity) 0 n
