-- ===== src/Agent/History/Keep.antt =====
-- `history_truncate_keep` and `history_clear`: giving up the newest entries, and all.
use aev_os.Common.{
  ℕ, zero, suc, ◌+◌, ◌-◌, ◌%◌, ◌^◌, ◌≤◌, ◌<◌, ◌≡◌, refl, ap, ap₂, sym, ◌∙◌, subst, false, List, [],
  ◌∷◌, ◌++◌, arith, length, set, take, length-set, get_or-set_ne, ltb, leb, Bool-cases, inl, inr,
}
use aev_os.Agent.History.{
  HistEntry, History, hist_ring_size, zero_entry, entry_at, history_count, drop_newest,
  history_truncate_keep, evict_all, evict_oldest, history_clear,
}
use aev_os.Agent.History.Inv.{
  entries_from, entries, tokens, IsSound, AreSound, IsValid, length-entries, history_count-eq,
  entries_from_ext, entries_from-snoc, entries_from-take,
}
use aev_os.Agent.History.Evict.{number-ne, evict_oldest-Leaves}
use aev_os.Agent.History.Push.{tokens-snoc}

AreSound-init :
    (es : List HistEntry) (e : HistEntry) → AreSound (es ++ (e ∷ [])) → AreSound es × IsSound e
AreSound-init [] e v = (tt, v.0)
AreSound-init (x ∷ es) e v = let r = AreSound-init es e v.1 in ((v.0, r.0), r.1)

module _ (h : History) (v : IsValid h) (any_left : h.tail < h.head) where
  abbrev dropped : History
  dropped = record h {
    head = h.head - 1;
    window_tokens = (h.window_tokens + 2 ^ 32 - (entry_at h (h.head - 1)).token_count) % 2 ^ 32;
    ring = set h.ring ((h.head - 1) % hist_ring_size) zero_entry;
  }

  entries-dropped : entries dropped ≡ entries_from h h.tail (h.head - h.tail - 1)
  unfolding entries
  entries-dropped =
      ap (λ (n : ℕ). entries_from dropped h.tail n) (omega arith)
      ∙ entries_from_ext h dropped h.tail (h.head - h.tail - 1) (λ i lo hi.
        get_or-set_ne h.ring ((h.head - 1) % hist_ring_size) (i % hist_ring_size) zero_entry
          zero_entry (λ q. number-ne i (h.head - 1) (omega arith) (omega (arith, v.fits)) (sym q)))

  entries_snoc : entries h ≡ entries dropped ++ (entry_at h (h.head - 1) ∷ [])
  unfolding entries
  entries_snoc =
      ap (λ (n : ℕ). entries_from h h.tail n) (omega arith)
      ∙ entries_from-snoc h h.tail (h.head - h.tail - 1)
      ∙ ap₂ (λ r x. r ++ (x ∷ [])) (sym entries-dropped) (ap (entry_at h) (omega arith))

  dropped-IsValid : IsValid dropped
  dropped-IsValid =
      let small =
        AreSound-init (entries dropped) (entry_at h (h.head - 1))
          (subst AreSound entries_snoc v.sound) in
      record {
        cells = length-set h.ring ((h.head - 1) % hist_ring_size) zero_entry ∙ v.cells;
        order = omega arith;
        numbers = omega (arith, v.numbers);
        fits = omega (arith, v.fits);
        sound = small.0;
        window = omega (
          arith,
          v.window,
          ap tokens entries_snoc,
          tokens-snoc (entries dropped) (entry_at h (h.head - 1)),
          small.1.0,
        );
      }

drop_newest_lem :
    (n : ℕ) (h : History)
    → IsValid h
    → n ≤ h.head - h.tail
    → IsValid (drop_newest n h)
      × (entries (drop_newest n h) ≡ entries_from h h.tail (h.head - h.tail - n))
unfolding drop_newest entries
drop_newest_lem zero h v le = (v, ap (λ (k : ℕ). entries_from h h.tail k) (omega arith))
drop_newest_lem (suc n) h v le =
    let any_left : leb h.head h.tail ≡ false = ground arith in
    let r =
      drop_newest_lem n (dropped h v (omega arith)) (dropped-IsValid h v (omega arith))
        (omega arith) in
    rw any_left (
      r.0,
      r.1
          ∙ ap (λ (k : ℕ). entries_from (dropped h v (omega arith)) h.tail k) (omega arith)
          ∙ entries_from_ext h (dropped h v (omega arith)) h.tail (h.head - h.tail - suc n)
              (λ i lo hi.
                get_or-set_ne h.ring ((h.head - 1) % hist_ring_size) (i % hist_ring_size) zero_entry
                  zero_entry
                  (λ q. number-ne i (h.head - 1) (omega arith) (omega (arith, v.fits)) (sym q))),
    )

-- history_truncate_keep of a valid history leaves a valid history with the oldest keep_count
-- entries, or all of them, if there are not more.
pub entries-history_truncate_keep :
    (h : History) (keep_count : ℕ)
    → IsValid h
    → IsValid (history_truncate_keep h keep_count)
      × (entries (history_truncate_keep h keep_count) ≡ take keep_count (entries h))
unfolding history_truncate_keep entries
entries-history_truncate_keep h keep_count v =
    let count : history_count h ≡ h.head - h.tail = history_count-eq h v ∙ length-entries h in
    elim (Bool-cases (leb (history_count h) keep_count)) [
      | inl e ↦
          rw e (v, sym (take_all keep_count (entries h) (ground (arith, history_count-eq h v))))
      | inr e ↦
          let r = drop_newest_lem (history_count h - keep_count) h v (omega (arith, count)) in
          rw e (r.0, r.1 ∙ kept (ground arith) count)
    ]
  where
    take_all : (n : ℕ) (es : List HistEntry) → length es ≤ n → take n es ≡ es
    take_all zero [] le = refl
    take_all zero (x ∷ es) le = absurd (omega arith)
    take_all (suc n) [] le = refl
    take_all (suc n) (x ∷ es) le = ap (λ r. x ∷ r) (take_all n es (omega arith))

    kept :
        keep_count < history_count h
        → history_count h ≡ h.head - h.tail
        → entries_from h h.tail (h.head - h.tail - (history_count h - keep_count))
          ≡ take keep_count (entries h)
    kept lt e =
        ap (λ (k : ℕ). entries_from h h.tail k) (omega arith)
        ∙ sym (entries_from-take h h.tail (h.head - h.tail) keep_count (omega arith))

evict_all-cells :
    (rounds : ℕ) (h : History) → IsValid h → length (evict_all rounds h).ring ≡ hist_ring_size
unfolding evict_all
evict_all-cells zero h v = v.cells
evict_all-cells (suc rounds) h v = elim (Bool-cases (ltb h.tail h.head)) [
  | inr e ↦ rw e v.cells
  | inl e ↦
      rw e (evict_all-cells rounds (evict_oldest h) (evict_oldest-Leaves h v (ground arith)).valid)
]

-- history_clear of a valid history leaves a valid history without entries.
pub entries-history_clear :
    (h : History) → IsValid h → IsValid (history_clear h) × (entries (history_clear h) ≡ [])
unfolding history_clear entries entries_from
entries-history_clear h v = (
  record {
    cells = evict_all-cells (h.head - h.tail) h v;
    order = omega arith;
    numbers = omega arith;
    fits = omega arith;
    sound = tt;
    window = refl;
  },
  refl,
)
