-- ===== src/Agent/History.antt =====
-- src/agent/history.c: the history of turns of an agent, a ring of entries with a window of tokens.
-- `head` and `tail` are counters of 32 bits, and an entry lies at its number modulo the size of the
-- ring. The data of an entry are the bytes of its buffer, and `none` is a null pointer; `dangling`
-- says that the pointer is to a buffer given back to the heap, which krealloc does for a size of 0.
-- A push of an empty text makes such an entry; no function reads its data, but a later kfree of the
-- pointer acts on the heap, which is not modelled here. A call runs
-- under the lock. The time, and whether an allocation succeeds, are arguments. The calls that keep
-- the index `bpt` up to date are left out: no function here reads it. So are null arguments, and
-- history_serialize and history_deserialize; history_search is in Search.
pub mod Inv
pub mod Evict
pub mod Push
pub mod Keep
pub mod Get
pub mod Texts
pub mod Search
mod Tests
use aev_os.Common.{
  ℕ, zero, suc, ◌+◌, ◌-◌, ◌*◌, ◌/◌, ◌%◌, ◌^◌, Bool, true, false, not, ◌&&◌, ◌||◌, Option, none,
  some, List, [], ◌∷◌, ltb, leb, ◌==◌, if◌then◌else◌, get_or, set, replicate, length, take, min,
}
use aev_os.Common.Errno.{Status, ok, enomem}
use aev_os.Common.Ring.{slot}
use aev_os.Clib.Str.{strlen}
use aev_os.Clib.Lz4.{Result, done, failed, out_of_fuel, lz4_compress, lz4_decompress}

pub record HistEntry : Type 0 where
  pub timestamp : ℕ
  pub seq : ℕ
  pub role : ℕ
  pub token_count : ℕ
  pub data_bytes : Option (List ℕ)
  pub dangling : Bool
  pub data_len : ℕ
  pub raw_len : ℕ

pub record History : Type 0 where
  pub ring : List HistEntry
  pub head : ℕ
  pub tail : ℕ
  pub window_tokens : ℕ
  pub max_tokens : ℕ
  pub next_seq : ℕ

abbrev pub hist_ring_size : ℕ
hist_ring_size = 4096

abbrev pub zero_entry : HistEntry
zero_entry = record {
  timestamp = 0;
  seq = 0;
  role = 0;
  token_count = 0;
  data_bytes = none;
  dangling = false;
  data_len = 0;
  raw_len = 0;
}

unfoldable pub history_init : ℕ → History
history_init max_tokens = record {
  ring = replicate hist_ring_size zero_entry;
  head = 0;
  tail = 0;
  window_tokens = 0;
  max_tokens = max_tokens;
  next_seq = 0;
}

unfoldable pub estimate_tokens : List ℕ → ℕ
estimate_tokens text = (strlen text + 3) % 2 ^ 32 / 4

abbrev pub history_count : History → ℕ
history_count h = (h.head + 2 ^ 32 - h.tail) % 2 ^ 32

abbrev pub entry_free : HistEntry → HistEntry
entry_free e = record e {
  data_bytes = none;
  dangling = false;
  data_len = 0;
  raw_len = 0;
  token_count = 0;
}

-- the entry of a number
abbrev pub entry_at : History → ℕ → HistEntry
entry_at h n = get_or h.ring (n % hist_ring_size) zero_entry

unfoldable pub evict_oldest : History → History
evict_oldest h =
    if h.head == h.tail
    then h
    else let e = entry_at h h.tail in
      record h {
        window_tokens = (h.window_tokens + 2 ^ 32 - e.token_count) % 2 ^ 32;
        ring = set h.ring (h.tail % hist_ring_size) (entry_free e);
        tail = (h.tail + 1) % 2 ^ 32;
      }

-- `while (h->head - h->tail >= HIST_RING_SIZE)`, at most `rounds` times
unfoldable pub evict_full : ℕ → History → History
unfolding evict_oldest
evict_full zero h = h
evict_full (suc rounds) h =
    let rest = evict_full rounds (evict_oldest h) in
    if leb hist_ring_size (history_count h) then rest else h

-- the loop that makes room for `tok_cnt` tokens, at most `rounds` times
unfoldable pub evict_window : ℕ → ℕ → History → History
unfolding evict_oldest
evict_window zero tok_cnt h = h
evict_window (suc rounds) tok_cnt h =
    let rest = evict_window rounds tok_cnt (evict_oldest h) in
    if ltb h.max_tokens ((h.window_tokens + tok_cnt) % 2 ^ 32) && ltb h.tail h.head then rest else h

-- what is kept of the text, with what `lz4_compress` gave
abbrev pub kept_bytes : List ℕ → Result → List ℕ
kept_bytes text (done bs) = if length bs == 0 then text else bs
kept_bytes text failed = text
kept_bytes text out_of_fuel = text

-- the buffer of an entry
unfoldable pub stored : List ℕ → List ℕ
stored text = kept_bytes text (lz4_compress text (strlen text + strlen text / 255 + 16))

unfoldable pub insert : History → HistEntry → History
insert h e = record h {
  ring = set h.ring (h.head % hist_ring_size) e;
  head = (h.head + 1) % 2 ^ 32;
  window_tokens = (h.window_tokens + e.token_count) % 2 ^ 32;
  next_seq = (h.next_seq + 1) % 2 ^ 64;
}

unfoldable pub new_entry : History → ℕ → ℕ → List ℕ → HistEntry
unfolding stored estimate_tokens
new_entry h now role text = record {
  timestamp = now;
  seq = h.next_seq;
  role = role;
  token_count = estimate_tokens text;
  data_bytes = some (stored text);
  dangling = length (stored text) == 0;
  data_len = length (stored text) % 2 ^ 32;
  raw_len = strlen text % 2 ^ 32;
}

-- `history_push` up to the insertion
unfoldable pub make_room : ℕ → History → History
unfolding evict_full evict_window
make_room tok_cnt h =
    let h' = evict_full (history_count h) h in evict_window (history_count h') tok_cnt h'

unfoldable pub history_push : History → ℕ → ℕ → List ℕ → Bool → Status × History
unfolding make_room insert new_entry
history_push h now role text memory =
    if not memory
    then (enomem, h)
    else (ok, insert (make_room (estimate_tokens text) h) (new_entry h now role text))

-- the result of `history_get`: an error, or the bytes that it writes before the terminator
pub data Got : Type 0 where
  einval : Got
  enoent : Got
  bytes : List ℕ → Got

-- the decompressed bytes, or the data as they are
abbrev pub raw_or : List ℕ → ℕ → Result → List ℕ
raw_or buf room (done out) = if length out == 0 then take room buf else out
raw_or buf room failed = take room buf
raw_or buf room out_of_fuel = take room buf

unfoldable pub read_entry : HistEntry → ℕ → Option (List ℕ) → Got
read_entry e buf_size none = enoent
read_entry e buf_size (some buf) =
    if e.data_len == 0
    then enoent
    else bytes (
        raw_or buf (min e.data_len ((buf_size - 1) % 2 ^ 32))
          (lz4_decompress buf (min (buf_size - 1) e.raw_len)))

unfoldable pub history_get : History → ℕ → ℕ → Got
unfolding read_entry
history_get h index buf_size =
    if buf_size == 0
    then einval
    else if leb (history_count h) index
    then enoent
    else let e = entry_at h ((h.tail + index) % 2 ^ 32) in read_entry e buf_size e.data_bytes

-- the entries from number `k` on
unfoldable pub copy_entries : History → ℕ → ℕ → List HistEntry
copy_entries h k zero = []
copy_entries h k (suc n) = entry_at h (k % 2 ^ 32) ∷ copy_entries h (k + 1) n

unfoldable pub history_get_recent : History → ℕ → Bool → Option (List HistEntry)
unfolding copy_entries
history_get_recent h count memory =
    let total = history_count h in
    let n = if ltb total count then total else count in
    if n == 0 || not memory then none else some (copy_entries h (h.head + 2 ^ 32 - n) n)

-- the loop of `history_truncate_keep`
unfoldable pub drop_newest : ℕ → History → History
drop_newest zero h = h
drop_newest (suc n) h =
    let newest = h.head - 1 in
    let rest = drop_newest n (record h {
      head = newest;
      window_tokens = (h.window_tokens + 2 ^ 32 - (entry_at h newest).token_count) % 2 ^ 32;
      ring = set h.ring (newest % hist_ring_size) zero_entry;
    }) in
    if leb h.head h.tail then h else rest

unfoldable pub history_truncate_keep : History → ℕ → History
unfolding drop_newest
history_truncate_keep h keep_count =
    let total = history_count h in
    if leb total keep_count then h else drop_newest (total - keep_count) h

-- the loop of `history_clear`, at most `rounds` times
unfoldable pub evict_all : ℕ → History → History
unfolding evict_oldest
evict_all zero h = h
evict_all (suc rounds) h =
    let rest = evict_all rounds (evict_oldest h) in if ltb h.tail h.head then rest else h

unfoldable pub history_clear : History → History
unfolding evict_all
history_clear h = record (evict_all (h.head - h.tail) h) {
  head = 0;
  tail = 0;
  window_tokens = 0;
  next_seq = 0;
}

unfoldable pub history_seq_at : History → ℕ → ℕ
history_seq_at h logical_index =
    if leb (history_count h) logical_index
    then 0
    else (entry_at h ((h.tail + logical_index) % 2 ^ 32)).seq
