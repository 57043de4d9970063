-- ===== src/Agent/History/Search.antt =====
-- src/agent/history.c: history_search.
-- Whether an allocation of a size succeeds is an argument.
use aev_os.Common.{
  ℕ, zero, suc, ◌+◌, ◌-◌, ◌%◌, ◌^◌, ◌<◌, ◌≤◌, ◌≡◌, refl, sym, ap, ap₂, ◌∙◌, subst, Bool, true,
  false, Option, none, some, List, [], ◌∷◌, ltb, ltb→lt, if◌then◌else◌, arith, take, min, max,
  Bool-cases, inl, inr,
}
use aev_os.Clib.Str.{cstr}
use aev_os.Clib.Str.Search.{strstr}
use aev_os.Clib.Lz4.{lz4_decompress}
use aev_os.Agent.History.{HistEntry, History, entry_at, history_count, raw_or}
use aev_os.Agent.History.Texts.{StandsFor, AreTexts, cstr-raw_or}
use aev_os.Agent.History.Inv.{entries, entries_from, IsValid}

-- the string in the buffer of `buf_size` bytes
abbrev pub found_text : HistEntry → List ℕ → ℕ → List ℕ
found_text e buf buf_size =
    cstr (
      raw_or buf (min e.data_len (buf_size - 1))
        (lz4_decompress buf (min (buf_size - 1) e.raw_len)))

abbrev pub is_some : Option (List ℕ) → Bool
is_some none = false
is_some (some s) = true

-- the size of the buffer for an entry, if there is one
unfoldable pub fit : HistEntry → ℕ → (ℕ → Bool) → Option ℕ
fit e buf_size mem =
    let need = (e.raw_len + 1) % 2 ^ 32 in
    if ltb buf_size need then (if mem need then some need else none) else some buf_size

-- what a round does with its entry: it breaks, or goes on with a buffer size, and whether it found
-- the keyword
pub data Visit : Type 0 where
  halt : Visit
  next : ℕ → Bool → Visit

unfoldable pub look : HistEntry → List ℕ → List ℕ → Option ℕ → Visit
look e keyword buf none = halt
look e keyword buf (some size) = next size (is_some (strstr (found_text e buf size) keyword))

unfoldable pub visit_data : HistEntry → List ℕ → (ℕ → Bool) → ℕ → Option (List ℕ) → Visit
unfolding fit look
visit_data e keyword mem buf_size none = next buf_size false
visit_data e keyword mem buf_size (some buf) = look e keyword buf (fit e buf_size mem)

-- The loop at `i` with the rounds left; `room` is `max_results - found`.
unfoldable pub search_from : ℕ → History → List ℕ → (ℕ → Bool) → ℕ → ℕ → ℕ → List ℕ
unfolding visit_data
search_from zero h keyword mem i buf_size room = []
search_from (suc n) h keyword mem i buf_size zero = []
search_from (suc n) h keyword mem i buf_size (suc room) =
    let e : HistEntry = entry_at h ((h.tail + i) % 2 ^ 32) in
    elim (visit_data e keyword mem buf_size e.data_bytes) [
      | halt ↦ []
      | next size hit ↦
          if hit
          then i ∷ search_from n h keyword mem (i + 1) size room
          else search_from n h keyword mem (i + 1) size (suc room)
    ]

-- The indices written to `results`, or `none` for -ENOMEM.
unfoldable pub history_search : History → List ℕ → ℕ → (ℕ → Bool) → Option (List ℕ)
unfolding search_from
history_search h keyword max_results mem =
    if mem 8192 then some (search_from (history_count h) h keyword mem 0 8192 max_results) else none

-- whether what a round reads of an entry contains the keyword
unfoldable contains : HistEntry → List ℕ → Option (List ℕ) → Bool
contains e keyword none = false
contains e keyword (some buf) =
    is_some (strstr (cstr (raw_or buf e.data_len (lz4_decompress buf e.raw_len))) keyword)

-- the indices, from `i` on, of the entries that the loop finds
unfoldable found_in : List HistEntry → List ℕ → ℕ → List ℕ
unfolding contains
found_in [] keyword i = []
found_in (e ∷ es) keyword i =
    let rest = found_in es keyword (i + 1) in
    if contains e keyword e.data_bytes then i ∷ rest else rest

-- the indices, from `i` on, of the texts that contain the keyword
unfoldable pub hits : List (List ℕ) → List ℕ → ℕ → List ℕ
hits [] keyword i = []
hits (t ∷ ts) keyword i =
    let rest = hits ts keyword (i + 1) in if is_some (strstr t keyword) then i ∷ rest else rest

contains-StandsFor :
    (e : HistEntry) (t keyword : List ℕ)
    → StandsFor e t
    → contains e keyword e.data_bytes ≡ is_some (strstr t keyword)
unfolding contains
contains-StandsFor e t keyword s =
    ap (contains e keyword) s.bytes ∙ ap (λ x. is_some (strstr x keyword)) (cstr-raw_or e t s)

-- The loop finds the entries whose texts contain the keyword.
found_in-hits :
    (es : List HistEntry) (ts : List (List ℕ)) (keyword : List ℕ) (i : ℕ)
    → AreTexts es ts
    → found_in es keyword i ≡ hits ts keyword i
unfolding found_in hits
found_in-hits [] [] keyword i a = refl
found_in-hits [] (t ∷ ts) keyword i a = absurd a
found_in-hits (e ∷ es) [] keyword i a = absurd a
found_in-hits (e ∷ es) (t ∷ ts) keyword i (s, a) =
    ap₂ (λ (b : Bool) (rest : List ℕ). if b then i ∷ rest else rest)
      (contains-StandsFor e t keyword s) (found_in-hits es ts keyword (i + 1) a)

-- The data of the entries fit the buffer.
abbrev pub AreFitting : List HistEntry → Type 0
AreFitting [] = Unit
AreFitting (e ∷ es) = (e.data_len ≤ max e.raw_len 8191) × (e.raw_len + 1 < 2 ^ 32) × AreFitting es

abbrev all_given : ℕ → Bool
all_given size = true

fit_lem :
    (e : HistEntry) (size : ℕ)
    → e.raw_len + 1 < 2 ^ 32
    → fit e size all_given ≡ some (max size (e.raw_len + 1))
unfolding fit
fit_lem e size g =
    let need : (e.raw_len + 1) % 2 ^ 32 ≡ e.raw_len + 1 = omega arith in
    elim (Bool-cases (ltb size ((e.raw_len + 1) % 2 ^ 32))) [
      | inl t ↦ rw (t, fit) (ap some (grown t need))
      | inr t ↦ rw (t, fit) (ap some (kept t need))
    ]
  where
    grown : {n : ℕ} → ltb size n ≡ true → n ≡ e.raw_len + 1 → n ≡ max size (e.raw_len + 1)
    grown {n} t need = omega (arith, ltb→lt size n t, need)

    kept : {n : ℕ} → ltb size n ≡ false → n ≡ e.raw_len + 1 → size ≡ max size (e.raw_len + 1)
    kept {n} t need = ground (arith, t, need)

-- A round finds what the entry contains, and the buffer does not shrink.
visit_data-contains :
    (e : HistEntry) (keyword : List ℕ) (size : ℕ) (d : Option (List ℕ))
    → 8192 ≤ size
    → e.data_len ≤ max e.raw_len 8191
    → e.raw_len + 1 < 2 ^ 32
    → (size' : ℕ) × (8192 ≤ size')
      × (visit_data e keyword all_given size d ≡ next size' (contains e keyword d))
unfolding visit_data contains
visit_data-contains e keyword size none h f g = (size, h, refl)
visit_data-contains e keyword size (some buf) h f g =
    let m = max size (e.raw_len + 1) in
    let fits : fit e size all_given ≡ some m = fit_lem e size g in
    let x : min e.data_len (m - 1) ≡ e.data_len = omega arith in
    let y : min (m - 1) e.raw_len ≡ e.raw_len = omega arith in
    (
      m,
      omega arith,
      ap (look e keyword buf) fits
          ∙ ap₂
              (λ (a b : ℕ).
                next m (is_some (strstr (cstr (raw_or buf a (lz4_decompress buf b))) keyword)))
              x y,
    )

chosen :
    (b : Bool) (i room : ℕ) (found : ℕ → List ℕ) (rest : List ℕ)
    → ((r : ℕ) → found r ≡ take r rest)
    → (if b then i ∷ found room else found (suc room))
      ≡ take (suc room) (if b then i ∷ rest else rest)
chosen true i room found rest h = ap (λ l. i ∷ l) (h room)
chosen false i room found rest h = h (suc room)

search_from-found_in :
    (n : ℕ) (h : History) (keyword : List ℕ) (i size room : ℕ)
    → h.tail + i + n ≤ 2 ^ 32
    → 8192 ≤ size
    → AreFitting (entries_from h (h.tail + i) n)
    → search_from n h keyword all_given i size room
      ≡ take room (found_in (entries_from h (h.tail + i) n) keyword i)
unfolding search_from found_in entries_from
search_from-found_in zero h keyword i size zero w s f = refl
search_from-found_in zero h keyword i size (suc room) w s f = refl
search_from-found_in (suc n) h keyword i size zero w s f = refl
search_from-found_in (suc n) h keyword i size (suc room) w s f =
    let num : (h.tail + i) % 2 ^ 32 ≡ h.tail + i = omega arith in
    let next_num : h.tail + i + 1 ≡ h.tail + (i + 1) = omega arith in
    let e = entry_at h (h.tail + i) in
    let v = visit_data-contains e keyword size e.data_bytes s f.0 f.1 in
    let fs = subst (λ (k : ℕ). AreFitting (entries_from h k n)) next_num f.2 in
    let rec = λ (r : ℕ).
      search_from-found_in n h keyword (i + 1) v.0 r (omega arith) v.1 fs
      ∙ ap (λ (k : ℕ). take r (found_in (entries_from h k n) keyword (i + 1))) (sym next_num) in
    let round = λ (x : Visit).
      ◌≡◌ {A = List ℕ}
        (elim x [
          | halt ↦ []
          | next size' hit ↦
              if hit
              then i ∷ search_from n h keyword all_given (i + 1) size' room
              else search_from n h keyword all_given (i + 1) size' (suc room)
        ])
        (take (suc room) (found_in (entries_from h (h.tail + i) (suc n)) keyword i)) in
    subst
      (λ (k : ℕ).
        round (visit_data (entry_at h k) keyword all_given size (entry_at h k).data_bytes))
      (sym num)
      (subst round (sym v.2) (
        chosen (contains e keyword e.data_bytes) i room
          (λ (r : ℕ). search_from n h keyword all_given (i + 1) v.0 r)
          (found_in (entries_from h (h.tail + i + 1) n) keyword (i + 1)) rec))

-- history_search of a valid history whose entries fit the buffer, where every allocation succeeds,
-- gives the indices of the entries whose text contains the keyword, counted from the oldest one on,
-- in ascending order, and of these the first max_results. Each entry is to hold what history_push
-- stores for a text that is a string, is not empty and can be read back: what lz4_compress makes of
-- it, where lz4_decompress accepts that, or the text itself, where lz4_decompress refuses it.
pub history_search-hits :
    (h : History) (keyword : List ℕ) (max_results : ℕ) (ts : List (List ℕ))
    → IsValid h
    → AreFitting (entries h)
    → AreTexts (entries h) ts
    → history_search h keyword max_results (λ size. true)
      ≡ some (take max_results (hits ts keyword 0))
unfolding history_search entries
history_search-hits h keyword max_results ts v f texts =
    let count : history_count h ≡ h.head - h.tail = omega (arith, v.order, v.numbers) in
    let start : h.tail ≡ h.tail + 0 = omega arith in
    let f' = subst (λ (k : ℕ). AreFitting (entries_from h k (h.head - h.tail))) start f in
    ap (λ (n : ℕ). some (search_from n h keyword all_given 0 8192 max_results)) count
    ∙ ap some (
        search_from-found_in (h.head - h.tail) h keyword 0 8192 max_results
          (omega (arith, v.order, v.numbers)) (omega arith) f'
        ∙ ap (λ (k : ℕ). take max_results (found_in (entries_from h k (h.head - h.tail)) keyword 0))
            (sym start)
        ∙ ap (take max_results) (found_in-hits (entries h) ts keyword 0 texts))
