-- ===== src/Agent/History/Push.antt =====
-- `history_push`: the new entry behind the others.
use aev_os.Common.{
  ℕ, ◌+◌, ◌-◌, ◌%◌, ◌^◌, ◌≤◌, ◌<◌, ◌≡◌, refl, ap, ap₂, sym, ◌∙◌, subst, true, false, List, ◌==◌,
  Bool-cases, inl, inr, ◌/◌, [], ◌∷◌, ◌++◌, arith, length, set, length-drop, length-set,
  get_or-set_ne, get_or-set_self,
}
use aev_os.Common.Errno.{ok}
use aev_os.Clib.Str.{strlen}
use aev_os.Clib.Lz4.{Result, done, failed, out_of_fuel, lz4_compress}
use aev_os.Agent.History.{
  HistEntry, History, hist_ring_size, zero_entry, entry_at, insert, make_room, new_entry,
  estimate_tokens, history_push, stored, kept_bytes,
}
use aev_os.Agent.History.Inv.{
  entries_from, entries, tokens, IsSound, AreSound, IsValid, length-entries, entries_from_ext,
  entries_from-snoc,
}
use aev_os.Agent.History.Evict.{number-ne, trim_full, trim_window, make_room-Leaves}

pub tokens-snoc :
    (es : List HistEntry) (e : HistEntry) → tokens (es ++ (e ∷ [])) ≡ tokens es + e.token_count
tokens-snoc [] e = omega arith
tokens-snoc (x ∷ es) e = omega (arith, tokens-snoc es e)

AreSound-snoc :
    (es : List HistEntry) (e : HistEntry) → AreSound es → IsSound e → AreSound (es ++ (e ∷ []))
AreSound-snoc [] e v lt = (lt, tt)
AreSound-snoc (x ∷ es) e v lt = (v.0, AreSound-snoc es e v.1 lt)

module _ (h : History) (e : HistEntry) (v : IsValid h) (room : h.head - h.tail < hist_ring_size)
    (numbers : h.head + 1 < 2 ^ 32) where
  abbrev inserted : History
  inserted = record h {
    ring = set h.ring (h.head % hist_ring_size) e;
    head = h.head + 1;
    window_tokens = (h.window_tokens + e.token_count) % 2 ^ 32;
    next_seq = (h.next_seq + 1) % 2 ^ 64;
  }

  entries-inserted : entries inserted ≡ entries h ++ (e ∷ [])
  unfolding entries
  entries-inserted =
      ap (λ (n : ℕ). entries_from inserted h.tail n) (omega (arith, v.order))
      ∙ entries_from-snoc inserted h.tail (h.head - h.tail)
      ∙ ap₂ (λ r x. r ++ (x ∷ []))
          (entries_from_ext h inserted h.tail (h.head - h.tail) (λ i lo hi.
            get_or-set_ne h.ring (h.head % hist_ring_size) (i % hist_ring_size) e zero_entry
              (λ q. number-ne i h.head (omega arith) (omega arith) (sym q))))
          (ap (entry_at inserted) (omega (arith, v.order))
            ∙ get_or-set_self h.ring (h.head % hist_ring_size) e zero_entry
                (omega (arith, v.cells)))

  inserted-IsValid : IsSound e → IsValid inserted
  inserted-IsValid small = record {
    cells = length-set h.ring (h.head % hist_ring_size) e ∙ v.cells;
    order = omega (arith, v.order);
    numbers = numbers;
    fits = omega (arith, v.order);
    sound = subst AreSound (sym entries-inserted) (AreSound-snoc (entries h) e v.sound small);
    window = omega (arith, v.window, ap tokens entries-inserted, tokens-snoc (entries h) e);
  }

  pub insert-lem : IsSound e → IsValid (insert h e) × (entries (insert h e) ≡ entries h ++ (e ∷ []))
  unfolding insert
  insert-lem small =
      let no_wrap : (h.head + 1) % 2 ^ 32 ≡ h.head + 1 = omega arith in
      rw no_wrap (inserted-IsValid small, entries-inserted)

length-trim_window :
    (max tok_cnt : ℕ) (es : List HistEntry) → length (trim_window max tok_cnt es) ≤ length es
unfolding trim_window
length-trim_window max tok_cnt [] = omega arith
length-trim_window max tok_cnt (e ∷ es) = ground (arith, length-trim_window max tok_cnt es)

-- What is kept of a text that is not empty is not empty.
kept_bytes-some :
    (text : List ℕ) (r : Result) → 0 < length text → (length (kept_bytes text r) == 0) ≡ false
kept_bytes-some text (done bs) some_text = elim (Bool-cases (length bs == 0)) [
  | inl e ↦ rw e (ground arith)
  | inr e ↦ rw e e
]
kept_bytes-some text failed some_text = ground arith
kept_bytes-some text out_of_fuel some_text = ground arith

new_entry-IsSound :
    (h : History) (now role : ℕ) (text : List ℕ)
    → 0 < length text
    → IsSound (new_entry h now role text)
unfolding new_entry stored estimate_tokens
new_entry-IsSound h now role text some_text = (
  omega arith,
  kept_bytes-some text (lz4_compress text (strlen text + strlen text / 255 + 16)) some_text,
)

-- history_push with memory, of a text that is not empty, to a valid history with fewer than 2^32 -
-- 1 pushes so far, returns 0 and leaves a valid history, in which no live entry has a buffer given
-- back. Its entries are the old ones without the oldest, if there were 4096, and without the oldest
-- ones until the window has room for the new tokens, and the new entry behind them.
pub entries-history_push :
    (h : History) (now role : ℕ) (text : List ℕ)
    → IsValid h
    → h.head + 1 < 2 ^ 32
    → 0 < length text
    → let r = history_push h now role text true in
      (r.0 ≡ ok)
      × IsValid r.1
      × (entries r.1
          ≡ trim_window h.max_tokens (estimate_tokens text) (trim_full (entries h))
            ++ (new_entry h now role text ∷ []))
unfolding history_push
entries-history_push h now role text v numbers some_text =
    let tok_cnt = estimate_tokens text in
    let l = make_room-Leaves tok_cnt h v in
    let h' = make_room tok_cnt h in
    let e = new_entry h now role text in
    let small = new_entry-IsSound h now role text some_text in
    let room : h'.head - h'.tail < hist_ring_size = ground (
      arith,
      length-entries h',
      ap length l.same,
      length-trim_window h.max_tokens tok_cnt (trim_full (entries h)),
      length-drop 1 (entries h),
      length-entries h,
      v.fits,
    ) in
    let i = insert-lem h' e l.valid room (omega (arith, l.head)) small in
    (refl, i.0, i.1 ∙ ap (λ es. es ++ (e ∷ [])) l.same)
