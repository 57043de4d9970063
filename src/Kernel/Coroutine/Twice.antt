-- ===== src/Kernel/Coroutine/Twice.antt =====
-- What becomes of a run queue when a coroutine is put into it twice.
use aev_os.Common.{
  ℕ, zero, suc, ◌+◌, ◌<◌, ◌≡◌, ◌≢◌, refl, subst, ◌∙◌, Option, none, some, List, [], ◌∷◌, ◌++◌,
  arith, length,
}
use aev_os.Kernel.Coroutine.{upd, Links, last_from, link, enqueue}
use aev_os.Kernel.Coroutine.Chain.{IsChain, NotIn, upd_self, upd_ne}
use aev_os.Kernel.Coroutine.Queue.{Holds, Gives, enqueue-Holds}

-- The pointers lead from `y` through `xs` to `c`.
abbrev Leads : (ℕ → Option ℕ) → ℕ → List ℕ → ℕ → Type 0
Leads next y [] c = next y ≡ some c
Leads next y (x ∷ xs) c = (next y ≡ some x) × Leads next x xs c

IsChain-Leads :
    (next : ℕ → Option ℕ) (y : ℕ) (xs : List ℕ) (c : ℕ)
    → IsChain next (next y) (xs ++ (c ∷ []))
    → Leads next y xs c × (next c ≡ none)
IsChain-Leads next y [] c (e, end) = (e, end)
IsChain-Leads next y (x ∷ xs) c (e, chain) =
    let (leads, end) = IsChain-Leads next x xs c chain in ((e, leads), end)

Leads-upd :
    (next : ℕ → Option ℕ) (y : ℕ) (xs : List ℕ) (c a : ℕ) (v : Option ℕ)
    → NotIn a (y ∷ xs)
    → Leads next y xs c
    → Leads (upd next a v) y xs c
Leads-upd next y [] c a v (ne, out) e = upd_ne next a y v ne ∙ e
Leads-upd next y (x ∷ xs) c a v (ne, out) (e, leads) =
    (upd_ne next a y v ne ∙ e, Leads-upd next x xs c a v out leads)

-- The walk reaches `c`, where it ends,
last_from-Leads :
    (next : ℕ → Option ℕ) (fuel y : ℕ) (xs : List ℕ) (c : ℕ)
    → Leads next y xs c
    → next c ≡ none
    → suc (length xs) < fuel
    → last_from next fuel y ≡ some c
unfolding last_from
last_from-Leads next zero y xs c leads end h = absurd (omega arith)
last_from-Leads next (suc zero) y xs c leads end h = absurd (omega arith)
last_from-Leads next (suc (suc fuel)) y [] c leads end h =
    rw (last_from, leads, last_from, end) refl
last_from-Leads next (suc (suc fuel)) y (x ∷ xs) c (e, leads) end h =
    rw (last_from, e) (last_from-Leads next (suc fuel) x xs c leads end (omega arith))

last_from_end :
    (next : ℕ → Option ℕ) (fuel c : ℕ) → next c ≡ none → 0 < fuel → last_from next fuel c ≡ some c
unfolding last_from
last_from_end next zero c e h = absurd (omega arith)
last_from_end next (suc fuel) c e h = rw (last_from, e) refl

last_from_loop : (next : ℕ → Option ℕ) (fuel c : ℕ) → next c ≡ some c → last_from next fuel c ≡ none
unfolding last_from
last_from_loop next zero c e = refl
last_from_loop next (suc fuel) c e = rw (last_from, e) (last_from_loop next fuel c e)

-- or goes round for ever.
last_from-Leads_loop :
    (next : ℕ → Option ℕ) (fuel y : ℕ) (xs : List ℕ) (c : ℕ)
    → Leads next y xs c
    → next c ≡ some c
    → last_from next fuel y ≡ none
unfolding last_from
last_from-Leads_loop next zero y xs c leads e = refl
last_from-Leads_loop next (suc fuel) y [] c leads e =
    rw (last_from, leads) (last_from_loop next fuel c e)
last_from-Leads_loop next (suc fuel) y (x ∷ xs) c (e', leads) e =
    rw (last_from, e') (last_from-Leads_loop next fuel x xs c leads e)

-- `enqueue(c)` again, where the first call has ended
pub again : ℕ → ℕ → ℕ → Option Links → Option Links
again fuel p c none = none
again fuel p c (some q) = enqueue fuel q p c

-- With any fuel, `enqueue` of a coroutine in none of the lists does not end.
abbrev pub Hangs : ℕ → ℕ → (ℕ → List ℕ) → Option Links → Type 0
Hangs p c l none = ⊥
Hangs p c l (some q) =
    (fuel d : ℕ) → d ≢ c → ((p' : ℕ) → NotIn d (l p')) → enqueue fuel q p d ≡ none

again-Hangs :
    (fuel : ℕ) (q : Links) (l : ℕ → List ℕ) (p c : ℕ) (xs : List ℕ)
    → NotIn c xs
    → l p ≡ xs
    → suc (length xs) < fuel
    → IsChain q.next (q.heads p) (xs ++ (c ∷ []))
    → Hangs p c l (enqueue fuel q p c)
unfolding enqueue link
again-Hangs fuel q l p c [] out e h (head, end) =
    let next = upd q.next c none in
    rw (enqueue, head, last_from_end next fuel c (upd_self q.next c none) (omega arith))
      (λ fuel' d ne d_out.
        let loop : upd (upd next c (some c)) d none c ≡ some c =
          upd_ne (upd next c (some c)) d c none ne ∙ upd_self next c (some c) in
        rw (enqueue, head, last_from_loop (upd (upd next c (some c)) d none) fuel' c loop) refl)
again-Hangs fuel q l p c (x ∷ xs) out e h (head, chain) =
    let next = upd q.next c none in
    let leads : Leads next x xs c =
      Leads-upd q.next x xs c c none out (IsChain-Leads q.next x xs c chain).0 in
    rw
      (enqueue, head, last_from-Leads next fuel x xs c leads (upd_self q.next c none) (omega arith))
      (λ fuel' d ne d_out.
        let next' = upd (upd next c (some c)) d none in
        let loop : next' c ≡ some c =
          upd_ne (upd next c (some c)) d c none ne ∙ upd_self next c (some c) in
        let path : Leads next' x xs c =
          Leads-upd (upd next c (some c)) x xs c d none (subst (NotIn d) e (d_out p))
            (Leads-upd next x xs c c (some c) out leads) in
        rw (enqueue, head, last_from-Leads_loop next' fuel' x xs c path loop) refl)

-- A coroutine in no queue that is put twice into the queue of a priority makes a loop there: both
-- calls end, and then enqueue of any other coroutine that was in no queue, at that priority, does
-- not end.
pub enqueue-again-Hangs :
    (fuel : ℕ) (q : Links) (l : ℕ → List ℕ) (p c : ℕ)
    → Holds q l
    → ((p' : ℕ) → NotIn c (l p'))
    → length (l p) + 1 < fuel
    → Hangs p c l (again fuel p c (enqueue fuel q p c))
unfolding again
enqueue-again-Hangs fuel q l p c v out h =
    go (enqueue fuel q p c) (enqueue-Holds fuel q l p c v out (omega arith))
  where
    go : (r : Option Links) → Gives r (upd l p (l p ++ (c ∷ []))) → Hangs p c l (again fuel p c r)
    go none g = absurd g
    go (some q') g =
        again-Hangs fuel q' l p c (l p) (out p) refl (omega arith)
          (subst (IsChain q'.next (q'.heads p)) (upd_self l p (l p ++ (c ∷ []))) (g.chain p))
