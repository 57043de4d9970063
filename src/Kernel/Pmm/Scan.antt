-- ===== src/Kernel/Pmm/Scan.antt =====
-- What the searches find.
use mathlib.Core.Bool.{true≢false}
use aev_os.Common.{
  ℕ, zero, suc, ◌+◌, ◌-◌, ◌*◌, ◌/◌, ◌%◌, ◌≤◌, ◌<◌, ◌≡◌, ap, ◌∙◌, true, false, Option, none, some,
  List, ltb, ◌==◌, arith, get_or, dec_lt, subst, sym, Bool-cases, inl, inr,
}
use aev_os.Common.Bits.{
  test_bit, lowest_zero, lowest_zero_below, lowest_zero_at, lowest_zero-le, lowest_zero-lt,
  test_bit_ones,
}
use aev_os.Kernel.Pmm.{
  Pmm, bm_test, find_word, find_run, uint64_max, bm_find_first_free, bm_find_free,
}
use aev_os.Kernel.Pmm.Bitmap.{Words}

-- `r` is the first free page in `from .. total - 1`, or `none` if there is none.
abbrev pub IsFirstFree : List ℕ → ℕ → ℕ → Option ℕ → Type 0
IsFirstFree bm from total none = (q : ℕ) → from ≤ q → q < total → bm_test bm q ≡ true
IsFirstFree bm from total (some p) =
    (from ≤ p)
    × (p < total)
    × (bm_test bm p ≡ false)
    × ((q : ℕ) → from ≤ q → q < p → bm_test bm q ≡ true)

-- The search may start earlier, at pages that are in use.
IsFirstFree-extend :
    (bm : List ℕ) (from from' total : ℕ) (r : Option ℕ)
    → from ≤ from'
    → ((q : ℕ) → from ≤ q → q < from' → q < total → bm_test bm q ≡ true)
    → IsFirstFree bm from' total r
    → IsFirstFree bm from total r
IsFirstFree-extend bm from from' total none le used f =
    λ q lo hi. elim (dec_lt q from') [ yes h ↦ used q lo h hi | no h ↦ f q (omega arith) hi ]
IsFirstFree-extend bm from from' total (some p) le used (lo', hi', free, below) = (
  omega arith,
  hi',
  free,
  λ q lo hi. elim (dec_lt q from') [
    | yes h ↦ used q lo h (omega arith)
    | no h ↦ below q (omega arith) hi
  ],
)

-- A page of word `w`.
bm_test-word :
    (bm : List ℕ) (w i : ℕ) → i < 64 → bm_test bm (w * 64 + i) ≡ test_bit (get_or bm w 0) i
unfolding bm_test
bm_test-word bm w i h =
    let word : (w * 64 + i) / 64 ≡ w = omega arith in
    let bit : (w * 64 + i) % 64 ≡ i = omega arith in rw (word, bit)

bm_test-page :
    (bm : List ℕ) (w q : ℕ)
    → w * 64 ≤ q
    → q < w * 64 + 64
    → bm_test bm q ≡ test_bit (get_or bm w 0) (q - w * 64)
bm_test-page bm w q lo hi =
    ap (bm_test bm) (let e : q ≡ w * 64 + (q - w * 64) = omega arith in e)
    ∙ bm_test-word bm w (q - w * 64) (omega arith)

pub find_word-IsFirstFree :
    (bm : List ℕ) (total w rounds : ℕ)
    → Words bm
    → total ≤ (w + rounds) * 64
    → IsFirstFree bm (w * 64) total (find_word bm total w rounds)
unfolding find_word
find_word-IsFirstFree bm total w zero words h = λ q lo hi. absurd (omega arith)
find_word-IsFirstFree bm total w (suc rounds) words h =
    let rest = find_word bm total (w + 1) rounds in
    let ih : IsFirstFree bm ((w + 1) * 64) total rest =
      find_word-IsFirstFree bm total (w + 1) rounds words (omega arith) in
    let word = get_or bm w 0 in
    let bit = lowest_zero 64 word in
    let below : (q : ℕ) → w * 64 ≤ q → q < w * 64 + bit → bm_test bm q ≡ true = λ q lo hi.
      bm_test-page bm w q lo (omega (arith, lowest_zero-le 64 word))
      ∙ lowest_zero_below 64 word (q - w * 64) (omega arith) in
    elim (Bool-cases (word == uint64_max)) [
      | inl e ↦ rw e (
          IsFirstFree-extend bm (w * 64) ((w + 1) * 64) total rest (omega arith)
            (λ q lo hi _.
              bm_test-page bm w q lo (omega arith)
              ∙ test_bit_ones 64 word (q - w * 64) (ground arith) (omega arith))
            ih)
      | inr e ↦
          let small : bit < 64 = lowest_zero-lt 64 word (ground (arith, words w)) in
          elim (Bool-cases (ltb (w * 64 + bit) total)) [
            | inl t ↦
                rw (e, t)
                  (
                    omega arith,
                    ground arith,
                    bm_test-word bm w bit small ∙ lowest_zero_at 64 word small,
                    below,
                  )
            | inr t ↦
                rw (e, t)
                  (IsFirstFree-extend bm (w * 64) ((w + 1) * 64) total rest (omega arith)
                    (λ q lo hi top. below q lo (ground arith)) ih)
          ]
    ]

-- `bm_find_first_free`, which skips whole words, finds the first free page of all, and finds none
-- exactly if all pages are in use.
pub bm_find_first_free-IsFirstFree :
    (p : Pmm) → Words p.bitmap → IsFirstFree p.bitmap 0 p.total_pages (bm_find_first_free p)
unfolding bm_find_first_free
bm_find_first_free-IsFirstFree p words =
    find_word-IsFirstFree p.bitmap p.total_pages 0 _ words (omega arith)

abbrev pub AllFree : List ℕ → ℕ → ℕ → Type 0
AllFree bm s n = (q : ℕ) → s ≤ q → q < s + n → bm_test bm q ≡ false

-- `r` is the start of the first run of `count` free pages in `from .. total - 1`.
abbrev pub IsFirstRun : List ℕ → ℕ → ℕ → ℕ → Option ℕ → Type 0
IsFirstRun bm count from total none = (s : ℕ) → from ≤ s → s + count ≤ total → ¬ AllFree bm s count
IsFirstRun bm count from total (some s) =
    (from ≤ s)
    × (s + count ≤ total)
    × AllFree bm s count
    × ((s' : ℕ) → from ≤ s' → s' < s → ¬ AllFree bm s' count)

find_run-IsFirstRun :
    (bm : List ℕ) (count from total run start i rounds : ℕ)
    → from ≤ start
    → start + run ≡ i
    → run < count
    → i + rounds ≡ total
    → AllFree bm start run
    → ((s : ℕ) → from ≤ s → s < start → ¬ AllFree bm s count)
    → IsFirstRun bm count from total (find_run bm count run start i rounds)
unfolding find_run
find_run-IsFirstRun bm count from total run start i zero lo at short end free before =
    λ s ls hs. elim (dec_lt s start) [ yes h ↦ before s ls h | no h ↦ absurd (omega arith) ]
find_run-IsFirstRun bm count from total run start i (suc rounds) lo at short end free before =
    elim (Bool-cases (bm_test bm i)) [
      | inl e ↦ rw e (
          find_run-IsFirstRun bm count from total 0 (i + 1) (i + 1) rounds (omega arith)
            (omega arith) (omega arith) (omega arith) (λ q l h. absurd (omega arith))
            (λ s ls hs all. elim (dec_lt s start) [
              | yes h ↦ before s ls h all
              | no h ↦ true≢false (sym e ∙ all i (omega arith) (omega arith))
            ]))
      | inr e ↦
          let longer : AllFree bm start (run + 1) = λ q l h. elim (dec_lt q i) [
            | yes b ↦ free q l (omega arith)
            | no b ↦ rw (let z : q ≡ i = omega arith in z) e
          ] in
          elim (Bool-cases (run + 1 == count)) [
            | inl t ↦
                let full : run + 1 ≡ count = ground arith in
                rw (e, t) (lo, omega arith, subst (AllFree bm start) full longer, before)
            | inr t ↦
                rw (e, t)
                  (find_run-IsFirstRun bm count from total (run + 1) start (i + 1) rounds lo
                    (omega arith) (ground arith) (omega arith) longer before)
          ]
    ]

-- `bm_find_free` finds the first run of `count` free pages at or behind `from`, and finds none
-- exactly if there is no such run.
pub bm_find_free-IsFirstRun :
    (p : Pmm) (from count : ℕ)
    → from ≤ p.total_pages
    → 0 < count
    → IsFirstRun p.bitmap count from p.total_pages (bm_find_free p from count)
unfolding bm_find_free
bm_find_free-IsFirstRun p from count le pos =
    find_run-IsFirstRun p.bitmap count from p.total_pages 0 from from _ (omega arith) (omega arith)
      pos (omega arith) (λ q l h. absurd (omega arith)) (λ s l h. absurd (omega arith))
