-- ===== src/Agent/History/Tests.antt =====
-- The theorems on the history at short ones.
use aev_os.Common.{
  ◌+◌, ◌-◌, ◌/◌, ◌%◌, ◌^◌, ◌≡◌, ◌⊎◌, true, [], ◌∷◌, ◌++◌, arith, length, take, min, max, sym, subst,
  refl, ap, inl, some, ◌≤◌,
}
use aev_os.Common.Errno.{ok}
use aev_os.Clib.Str.{strlen}
use aev_os.Clib.Lz4.{done, failed, lz4_compress, lz4_decompress}
use aev_os.Clib.Lz4.Tests.{
  text, packed, text-AreBytes, lz4_compress-text_tight, lz4_decompress-packed_tight,
}
use aev_os.Agent.History.{
  History, history_init, history_push, history_get, new_entry, estimate_tokens, bytes, stored,
  kept_bytes,
}
use aev_os.Agent.History.Inv.{entries, entries_from, IsValid, history_init-IsValid}
use aev_os.Agent.History.Evict.{trim_full, trim_window}
use aev_os.Agent.History.Push.{entries-history_push}
use aev_os.Agent.History.Search.{AreFitting, hits, history_search, history_search-hits}
use aev_os.Agent.History.Texts.{AreTexts}
use aev_os.Agent.History.Get.{history_get-history_push}

abbrev empty : History
empty = history_init 100

empty-IsValid : IsValid empty
empty-IsValid = history_init-IsValid 100

abbrev one_turn : History
one_turn = (history_push empty 5 0 text true).1

one_turn-IsValid : IsValid one_turn
one_turn-IsValid =
    (entries-history_push empty 5 0 text empty-IsValid (unfold history_init in omega arith)
      (omega arith)).1

compressed : lz4_compress text (strlen text + strlen text / 255 + 16) ≡ done packed
unfolding strlen
compressed = lz4_compress-text_tight

entries-history_push_example :
    let r = history_push empty 5 0 text true in
    (r.0 ≡ ok)
    × IsValid r.1
    × (entries r.1
        ≡ trim_window empty.max_tokens (estimate_tokens text) (trim_full (entries empty))
          ++ (new_entry empty 5 0 text ∷ []))
entries-history_push_example =
    entries-history_push empty 5 0 text empty-IsValid (unfold history_init in omega arith)
      (omega arith)

history_get-history_push_example :
    let h' = (history_push empty 5 0 text true).1 in
    let r = history_get h' (length (entries h') - 1) 64 in
    (r ≡ bytes text)
    ⊎ ((r ≡ bytes (take (min (length packed) ((64 - 1) % 2 ^ 32)) packed))
        × (lz4_decompress packed (length text) ≡ failed))
history_get-history_push_example =
    history_get-history_push empty 5 0 text packed 64 text-AreBytes (omega arith) (omega arith)
      (omega arith) (omega arith) compressed empty-IsValid (unfold history_init in omega arith)

one_turn-entries : entries one_turn ≡ new_entry empty 5 0 text ∷ []
unfolding history_init entries entries_from trim_window
one_turn-entries =
    (entries-history_push empty 5 0 text empty-IsValid (unfold history_init in omega arith)
      (omega arith)).2

one_turn-AreFitting : AreFitting (entries one_turn)
unfolding new_entry stored strlen
one_turn-AreFitting = subst AreFitting (sym one_turn-entries) (
  subst (λ r. length (kept_bytes text r) % 2 ^ 32 ≤ max (length text) 8191) (sym compressed)
      (omega arith),
  omega arith,
  tt,
)

stored-text : stored text ≡ packed
unfolding stored
stored-text = ap (kept_bytes text) compressed

one_turn-AreTexts : AreTexts (entries one_turn) (text ∷ [])
unfolding new_entry strlen
one_turn-AreTexts =
    subst (λ es. AreTexts es (text ∷ [])) (sym one_turn-entries)
      (
        record {
          bytes = refl;
          data_len = rw stored-text refl;
          raw_len = refl;
          string = (
            omega arith,
            (
              omega arith,
              (
                omega arith,
                (
                  omega arith,
                  (
                    omega arith,
                    (
                      omega arith,
                      (
                        omega arith,
                        (
                          omega arith,
                          (
                            omega arith,
                            (omega arith, (omega arith, (omega arith, (omega arith, tt)))),
                          ),
                        ),
                      ),
                    ),
                  ),
                ),
              ),
            ),
          );
          readable = inl (rw stored-text lz4_decompress-packed_tight, omega arith);
        },
        tt,
      )

history_search-hits_example :
    history_search one_turn (take 2 text) 5 (λ size. true)
    ≡ some (take 5 (hits (text ∷ []) (take 2 text) 0))
history_search-hits_example =
    history_search-hits one_turn (take 2 text) 5 (text ∷ []) one_turn-IsValid one_turn-AreFitting
      one_turn-AreTexts
