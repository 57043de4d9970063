-- ===== src/Agent/History/Get.antt =====
-- Reading the history: `history_get`, `history_seq_at` and `history_get_recent`.
use aev_os.Common.{
  ℕ, ◌+◌, ◌-◌, ◌/◌, ◌%◌, ◌^◌, ◌<◌, ◌≡◌, ◌⊎◌, refl, ap, ap₂, sym, ◌∙◌, subst, true, false, some,
  List, [], ◌∷◌, ◌++◌, arith, length, get_or, take, leb, ◌==◌, if◌then◌else◌, Bool-cases, inl, inr,
  min,
}
use aev_os.Clib.Str.{strlen}
use aev_os.Clib.Lz4.{done, failed, lz4_compress, lz4_decompress}
use aev_os.Clib.Lz4.Matches.{AreBytes}
use aev_os.Clib.Lz4.Overrun.{length-lz4_compress}
use aev_os.Clib.Lz4.Encoder.{lz4_decompress-lz4_compress}
use aev_os.Agent.History.{history_push, estimate_tokens}
use aev_os.Agent.History.Evict.{trim_full, trim_window}
use aev_os.Agent.History.Push.{entries-history_push}
use aev_os.Agent.History.{
  HistEntry, History, Got, enoent, bytes, zero_entry, entry_at, history_count, read_entry,
  history_get, history_seq_at, new_entry, stored,
}
use aev_os.Agent.History.Inv.{entries, IsValid, history_count-eq, get_or-entries_from}

module _ (h : History) (index : ℕ) (v : IsValid h) where
  -- The entry behind an index in range.
  entry_at-get_or :
      index < history_count h
      → entry_at h ((h.tail + index) % 2 ^ 32) ≡ get_or (entries h) index zero_entry
  unfolding entries
  entry_at-get_or lt =
      let no_wrap : (h.tail + index) % 2 ^ 32 ≡ h.tail + index =
        omega (arith, v.numbers, v.order) in
      ap (entry_at h) no_wrap
      ∙ sym
          (get_or-entries_from h h.tail (h.head - h.tail) index (omega (arith, v.numbers, v.order)))

  -- history_get reads the entry at the index from the oldest one on; it returns -ENOENT behind the
  -- last one.
  pub history_get-get_or :
      (buf_size : ℕ)
      → 0 < buf_size
      → history_get h index buf_size ≡ (
          let e = get_or (entries h) index zero_entry in
          if leb (length (entries h)) index then enoent else read_entry e buf_size e.data_bytes)
  unfolding history_get
  history_get-get_or buf_size size =
      let some_size : (buf_size == 0) ≡ false = ground arith in
      rw (some_size, ← history_count-eq h v)
        (elim (Bool-cases (leb (history_count h) index)) [
          | inl e ↦ rw e refl
          | inr e ↦ rw (e, entry_at-get_or (ground arith)) refl
        ])

  pub history_seq_at-get_or :
      history_seq_at h index
      ≡ (if leb (length (entries h)) index then 0 else (get_or (entries h) index zero_entry).seq)
  unfolding history_seq_at
  history_seq_at-get_or =
      rw (← history_count-eq h v) (elim (Bool-cases (leb (history_count h) index)) [
        | inl e ↦ rw e refl
        | inr e ↦ rw (e, entry_at-get_or (ground arith)) refl
      ])

strlen-length : (s : List ℕ) → strlen s ≡ length s
unfolding strlen
strlen-length [] = refl
strlen-length (c ∷ s) = omega (arith, strlen-length s)

last_of_snoc :
    (es : List HistEntry) (e : HistEntry) → get_or (es ++ (e ∷ [])) (length es) zero_entry ≡ e
last_of_snoc [] e = refl
last_of_snoc (x ∷ es) e = last_of_snoc es e

length-snoc : (es : List HistEntry) (e : HistEntry) → length (es ++ (e ∷ [])) ≡ length es + 1
length-snoc [] e = omega arith
length-snoc (x ∷ es) e = omega (arith, length-snoc es e)

module _ (h : History) (now role : ℕ) (text bs : List ℕ) (buf_size : ℕ) (b : AreBytes text)
    (some_text : 0 < length text) (room : length text < buf_size) (few : length text < 2 ^ 31)
    (some_bytes : 0 < length bs)
    (compressed : lz4_compress text (strlen text + strlen text / 255 + 16) ≡ done bs) where
  -- what `read_entry` gives for the text
  abbrev Reads : Got → Type 0
  Reads r =
      (r ≡ bytes text)
      ⊎ ((r ≡ bytes (take (min (length bs) ((buf_size - 1) % 2 ^ 32)) bs))
          × (lz4_decompress bs (length text) ≡ failed))

  stored-eq : stored text ≡ bs
  unfolding stored
  stored-eq = let ne : (length bs == 0) ≡ false = ground arith in rw (compressed, ne) refl

  new_entry-Reads : Reads (read_entry (new_entry h now role text) buf_size (some bs))
  unfolding read_entry new_entry
  new_entry-Reads =
      let short : length bs < 2 ^ 32 = omega (
        arith,
        length-lz4_compress text bs (strlen text + strlen text / 255 + 16) compressed,
        strlen-length text,
      ) in
      let data_len : length bs % 2 ^ 32 ≡ length bs = omega (arith, short) in
      let ne : (length bs == 0) ≡ false = ground arith in
      let nt : (length text == 0) ≡ false = ground arith in
      let out : min (buf_size - 1) (strlen text % 2 ^ 32) ≡ length text =
        ground (arith, strlen-length text) in
      rw (stored-eq, data_len, ne, out)
        (elim (lz4_decompress-lz4_compress text bs (strlen text + strlen text / 255 + 16)
          (length text) b (omega arith) compressed) [
            | inl d ↦ rw (d, nt) (inl refl)
            | inr f ↦ rw f (inr (refl, refl))
          ])

  -- The newest entry, which history_push makes of a text of bytes that lz4_compress compresses, is
  -- read by history_get as the text, if the buffer has room for it, or, where lz4_decompress
  -- rejects what lz4_compress wrote, as the compressed bytes.
  pub history_get-history_push :
      IsValid h
      → h.head + 1 < 2 ^ 32
      → let h' = (history_push h now role text true).1 in
        Reads (history_get h' (length (entries h') - 1) buf_size)
  unfolding new_entry
  history_get-history_push v numbers =
      let h' = (history_push h now role text true).1 in
      let p = entries-history_push h now role text v numbers some_text in
      let es = trim_window h.max_tokens (estimate_tokens text) (trim_full (entries h)) in
      let e = new_entry h now role text in
      let size : length (entries h') ≡ length es + 1 = ap length p.2 ∙ length-snoc es e in
      let inside : leb (length (entries h')) (length (entries h') - 1) ≡ false =
        ground (arith, size) in
      let at : get_or (entries h') (length (entries h') - 1) zero_entry ≡ e =
        ap₂ (λ (xs : List HistEntry) (i : ℕ). get_or xs i zero_entry) p.2 (omega (arith, size))
        ∙ last_of_snoc es e in
      subst Reads
        (sym (
          history_get-get_or h' (length (entries h') - 1) p.1 buf_size (omega arith)
          ∙ rw (inside, at) (ap (read_entry e buf_size) (ap some stored-eq))))
        new_entry-Reads
