-- ===== src/Agent/History/Evict.antt =====
-- Giving up the oldest entries.
use aev_os.Common.{
  ℕ, zero, suc, ◌+◌, ◌-◌, ◌%◌, ◌^◌, ◌≤◌, ◌<◌, ◌≡◌, ◌≢◌, refl, ap, sym, ◌∙◌, true, false, List, [],
  ◌∷◌, arith, length, set, drop, length-drop, length-set, get_or-set_ne, ltb, leb, ◌==◌,
  if◌then◌else◌, Bool-cases, inl, inr, subst,
}
use aev_os.Agent.History.{
  HistEntry, History, hist_ring_size, zero_entry, entry_at, entry_free, history_count, evict_oldest,
  evict_full, evict_window, make_room,
}
use aev_os.Agent.History.Inv.{
  entries_from, entries, tokens, AreSound, IsValid, length-entries, history_count-eq,
  entries_from_ext,
}

-- Different numbers less than a ring apart are different cells.
pub number-ne : (i j : ℕ) → i < j → j < i + 4096 → i % 4096 ≢ j % 4096
number-ne i j lo hi e = absurd (omega arith)

-- A history that was left with the entries `es`.
pub record Leaves (h : History) (es : List HistEntry) (h' : History) : Type 0 where
  pub valid : IsValid h'
  pub same : entries h' ≡ es
  pub head : h'.head ≡ h.head
  pub max_tokens : h'.max_tokens ≡ h.max_tokens
  pub next_seq : h'.next_seq ≡ h.next_seq

module _ (h : History) (v : IsValid h) (any_left : h.tail < h.head) where
  entries_split : entries h ≡ entry_at h h.tail ∷ entries_from h (h.tail + 1) (h.head - h.tail - 1)
  unfolding entries entries_from
  entries_split = ap (λ (n : ℕ). entries_from h h.tail n) (the_suc (h.head - h.tail) (omega arith))
    where
      the_suc : (n : ℕ) → 0 < n → n ≡ suc (n - 1)
      the_suc n lt = omega arith

  abbrev evicted : History
  evicted = record h {
    window_tokens = (h.window_tokens + 2 ^ 32 - (entry_at h h.tail).token_count) % 2 ^ 32;
    ring = set h.ring (h.tail % hist_ring_size) (entry_free (entry_at h h.tail));
    tail = h.tail + 1;
  }

  entries-evicted : entries evicted ≡ entries_from h (h.tail + 1) (h.head - h.tail - 1)
  unfolding entries
  entries-evicted =
      ap (λ (n : ℕ). entries_from evicted (h.tail + 1) n) (omega arith)
      ∙ entries_from_ext h evicted (h.tail + 1) (h.head - h.tail - 1) (λ i lo hi.
        get_or-set_ne h.ring (h.tail % hist_ring_size) (i % hist_ring_size)
          (entry_free (entry_at h h.tail)) zero_entry
          (number-ne h.tail i (omega arith) (omega (arith, v.fits))))

  evicted-Leaves : Leaves h (drop 1 (entries h)) evicted
  evicted-Leaves =
      let small = subst AreSound entries_split v.sound in
      let counts : tokens (entries h) ≡ (entry_at h h.tail).token_count + tokens (entries evicted) =
        ap tokens entries_split
        ∙ ap (λ r. (entry_at h h.tail).token_count + tokens r) (sym entries-evicted) in
      record {
        valid = record {
          cells =
              length-set h.ring (h.tail % hist_ring_size) (entry_free (entry_at h h.tail))
              ∙ v.cells;
          order = omega (arith, any_left);
          numbers = v.numbers;
          fits = omega (arith, v.fits);
          sound = subst AreSound (sym entries-evicted) small.1;
          window = omega (arith, v.window, counts, small.0.0);
        };
        same = entries-evicted ∙ ap (drop 1) (sym entries_split);
        head = refl;
        max_tokens = refl;
        next_seq = refl;
      }

  pub evict_oldest-Leaves : Leaves h (drop 1 (entries h)) (evict_oldest h)
  unfolding evict_oldest
  evict_oldest-Leaves =
      let some_left : (h.head == h.tail) ≡ false = ground arith in
      let no_wrap : (h.tail + 1) % 2 ^ 32 ≡ h.tail + 1 = omega (arith, v.numbers) in
      rw (some_left, no_wrap) evicted-Leaves

unchanged-Leaves : (h : History) → IsValid h → Leaves h (entries h) h
unchanged-Leaves h v = record {
  valid = v;
  same = refl;
  head = refl;
  max_tokens = refl;
  next_seq = refl;
}

then_Leaves :
    (h h1 h2 : History) (es fs : List HistEntry) → Leaves h es h1 → Leaves h1 fs h2 → Leaves h fs h2
then_Leaves h h1 h2 es fs a b = record {
  valid = b.valid;
  same = b.same;
  head = b.head ∙ a.head;
  max_tokens = b.max_tokens ∙ a.max_tokens;
  next_seq = b.next_seq ∙ a.next_seq;
}

-- the entries without the oldest, if the ring is full
abbrev pub trim_full : List HistEntry → List HistEntry
trim_full es = if leb hist_ring_size (length es) then drop 1 es else es

-- the entries without the oldest ones, until `tok_cnt` more tokens fit in the window of `max`
unfoldable pub trim_window : ℕ → ℕ → List HistEntry → List HistEntry
trim_window max tok_cnt [] = []
trim_window max tok_cnt (e ∷ es) =
    if ltb max ((tokens (e ∷ es) + tok_cnt) % 2 ^ 32) then trim_window max tok_cnt es else e ∷ es

not_full : (rounds : ℕ) (h : History) → history_count h < hist_ring_size → evict_full rounds h ≡ h
unfolding evict_full
not_full zero h lt = refl
not_full (suc rounds) h lt =
    let fits : leb hist_ring_size (history_count h) ≡ false = ground arith in rw fits refl

pub evict_full-Leaves :
    (rounds : ℕ) (h : History)
    → history_count h ≤ rounds
    → IsValid h
    → Leaves h (trim_full (entries h)) (evict_full rounds h)
unfolding evict_full
evict_full-Leaves zero h le v =
    let fits : leb hist_ring_size (length (entries h)) ≡ false =
      ground (arith, history_count-eq h v) in
    rw fits (unchanged-Leaves h v)
evict_full-Leaves (suc rounds) h le v = elim (Bool-cases (leb hist_ring_size (history_count h))) [
  | inr few ↦
      let fits : leb hist_ring_size (length (entries h)) ≡ false =
        ap (leb hist_ring_size) (sym (history_count-eq h v)) ∙ few in
      rw (few, fits) (unchanged-Leaves h v)
  | inl full ↦
      let fits : leb hist_ring_size (length (entries h)) ≡ true =
        ap (leb hist_ring_size) (sym (history_count-eq h v)) ∙ full in
      let l = evict_oldest-Leaves h v (ground (arith, v.order, v.numbers)) in
      let few : history_count (evict_oldest h) < hist_ring_size = omega (
        arith,
        history_count-eq (evict_oldest h) l.valid,
        ap length l.same,
        length-drop 1 (entries h),
        length-entries h,
        v.fits,
      ) in
      rw (full, fits, not_full rounds (evict_oldest h) few) l
]

trim_window_step :
    (max tok_cnt : ℕ) (h : History)
    → IsValid h
    → h.tail < h.head
    → trim_window max tok_cnt (entries h) ≡ (
        if ltb max ((h.window_tokens + tok_cnt) % 2 ^ 32)
        then trim_window max tok_cnt (drop 1 (entries h))
        else entries h)
unfolding trim_window
trim_window_step max tok_cnt h v any_left =
    let wraps : (tokens (entries h) + tok_cnt) % 2 ^ 32 ≡ (h.window_tokens + tok_cnt) % 2 ^ 32 =
      omega (arith, v.window) in
    let split = entries_split h v any_left in rw (← wraps, split) refl

trim_window_empty :
    (max tok_cnt : ℕ) (h : History)
    → h.head ≤ h.tail
    → trim_window max tok_cnt (entries h) ≡ entries h
unfolding entries entries_from trim_window
trim_window_empty max tok_cnt h le =
    let zero_left : h.head - h.tail ≡ 0 = omega arith in rw zero_left refl

evict_window-Leaves :
    (rounds tok_cnt : ℕ) (h : History)
    → length (entries h) ≤ rounds
    → IsValid h
    → Leaves h (trim_window h.max_tokens tok_cnt (entries h)) (evict_window rounds tok_cnt h)
unfolding evict_window
evict_window-Leaves zero tok_cnt h le v =
    rw (trim_window_empty h.max_tokens tok_cnt h (omega (arith, length-entries h)))
      (unchanged-Leaves h v)
evict_window-Leaves (suc rounds) tok_cnt h le v =
    elim (Bool-cases (ltb h.max_tokens ((h.window_tokens + tok_cnt) % 2 ^ 32))) [
      | inr fits ↦ elim (Bool-cases (ltb h.tail h.head)) [
        | inl some_left ↦
            rw (trim_window_step h.max_tokens tok_cnt h v (ground arith), fits)
              (unchanged-Leaves h v)
        | inr none_left ↦
            rw (trim_window_empty h.max_tokens tok_cnt h (ground arith), fits)
              (unchanged-Leaves h v)
      ]
      | inl over ↦ elim (Bool-cases (ltb h.tail h.head)) [
        | inr none_left ↦
            rw (trim_window_empty h.max_tokens tok_cnt h (ground arith), over, none_left)
              (unchanged-Leaves h v)
        | inl some_left ↦
            let l = evict_oldest-Leaves h v (ground arith) in
            let shorter : length (entries (evict_oldest h)) ≤ rounds =
              omega (arith, ap length l.same, length-drop 1 (entries h), le) in
            let r = evict_window-Leaves rounds tok_cnt (evict_oldest h) shorter l.valid in
            rw (trim_window_step h.max_tokens tok_cnt h v (ground arith), over, some_left)
              (then_Leaves h (evict_oldest h) (evict_window rounds tok_cnt (evict_oldest h))
                (drop 1 (entries h)) (trim_window h.max_tokens tok_cnt (drop 1 (entries h))) l
                (rw (l.max_tokens, l.same) at r))
      ]
    ]

-- `make_room` gives up the oldest entries: one, if the ring is full, and those that the window has no
-- place for.
pub make_room-Leaves :
    (tok_cnt : ℕ) (h : History)
    → IsValid h
    → Leaves h (trim_window h.max_tokens tok_cnt (trim_full (entries h))) (make_room tok_cnt h)
unfolding make_room
make_room-Leaves tok_cnt h v =
    let l = evict_full-Leaves (history_count h) h (omega arith) v in
    let h' = evict_full (history_count h) h in
    let r =
      evict_window-Leaves (history_count h') tok_cnt h' (omega (arith, history_count-eq h' l.valid))
        l.valid in
    then_Leaves h h' (make_room tok_cnt h) (trim_full (entries h))
      (trim_window h.max_tokens tok_cnt (trim_full (entries h))) l (rw (l.max_tokens, l.same) at r)
