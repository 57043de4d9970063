-- ===== src/Kernel/Coroutine/Chain.antt =====
-- A run queue as a list: the coroutines that its chain of `next` pointers visits.
use aev_os.Common.{
  ℕ, zero, suc, ◌<◌, ◌≡◌, ◌≢◌, refl, sym, subst, ◌∙◌, true, false, Option, none, some, List, [],
  ◌∷◌, ◌++◌, ◌==◌, arith, length,
}
use aev_os.Kernel.Coroutine.{upd, last_from}

-- `xs` are the coroutines from the pointer `h` on.
abbrev pub IsChain : (ℕ → Option ℕ) → Option ℕ → List ℕ → Type 0
IsChain next h [] = h ≡ none
IsChain next h (x ∷ xs) = (h ≡ some x) × IsChain next (next x) xs

abbrev pub NotIn : ℕ → List ℕ → Type 0
NotIn c [] = Unit
NotIn c (x ∷ xs) = (c ≢ x) × NotIn c xs

-- no coroutine twice
abbrev pub Once : List ℕ → Type 0
Once [] = Unit
Once (x ∷ xs) = NotIn x xs × Once xs

pub upd_self : {A : Type 0} (f : ℕ → A) (i : ℕ) (v : A) → upd f i v i ≡ v
upd_self f i v = let e : (i == i) ≡ true = ground arith in rw e refl

pub upd_ne : {A : Type 0} (f : ℕ → A) (i j : ℕ) (v : A) → i ≢ j → upd f i v j ≡ f j
upd_ne f i j v ne = let e : (i == j) ≡ false = ground arith in rw e refl

-- A write to the pointer of a coroutine outside does not change a chain.
pub IsChain-upd :
    (next : ℕ → Option ℕ) (h : Option ℕ) (xs : List ℕ) (c : ℕ) (v : Option ℕ)
    → NotIn c xs
    → IsChain next h xs
    → IsChain (upd next c v) h xs
IsChain-upd next h [] c v out chain = chain
IsChain-upd next h (x ∷ xs) c v (ne, out) (e, chain) = (
  e,
  subst (λ h'. IsChain (upd next c v) h' xs) (sym (upd_ne next c x v ne))
      (IsChain-upd next (next x) xs c v out chain),
)

-- the last of a list that begins with `x`
abbrev pub last : ℕ → List ℕ → ℕ
last x [] = x
last x (y ∷ ys) = last y ys

-- The walk ends at the last coroutine, if the fuel exceeds the number of steps.
pub last_from-last :
    (next : ℕ → Option ℕ) (fuel x : ℕ) (xs : List ℕ)
    → IsChain next (next x) xs
    → length xs < fuel
    → last_from next fuel x ≡ some (last x xs)
unfolding last_from
last_from-last next zero x xs chain h = absurd (omega arith)
last_from-last next (suc fuel) x [] chain h = rw (last_from, chain) refl
last_from-last next (suc fuel) x (y ∷ ys) (e, chain) h =
    rw (last_from, e) (last_from-last next fuel y ys chain (omega arith))

pub last_ne : (c x : ℕ) (xs : List ℕ) → NotIn c (x ∷ xs) → last x xs ≢ c
last_ne c x [] (ne, out) e = ne (sym e)
last_ne c x (y ∷ ys) (ne, out) e = last_ne c y ys out e

-- Linking a coroutine behind the last one appends it.
pub IsChain-link :
    (next : ℕ → Option ℕ) (x : ℕ) (xs : List ℕ) (c : ℕ)
    → IsChain next (next x) xs
    → Once (x ∷ xs)
    → NotIn c (x ∷ xs)
    → next c ≡ none
    → IsChain (upd next (last x xs) (some c)) (upd next (last x xs) (some c) x) (xs ++ (c ∷ []))
IsChain-link next x [] c chain once (ne, out) end =
    (upd_self next x (some c), upd_ne next x c (some c) (λ e. ne (sym e)) ∙ end)
IsChain-link next x (y ∷ ys) c (e, chain) (first, once) (ne, out) end = (
  upd_ne next (last y ys) x (some c) (last_ne x y ys first) ∙ e,
  IsChain-link next y ys c chain once out end,
)

pub NotIn-append : (c : ℕ) (xs ys : List ℕ) → NotIn c xs → NotIn c ys → NotIn c (xs ++ ys)
NotIn-append c [] ys h h' = h'
NotIn-append c (x ∷ xs) ys (ne, h) h' = (ne, NotIn-append c xs ys h h')

pub Once-append : (xs : List ℕ) (c : ℕ) → Once xs → NotIn c xs → Once (xs ++ (c ∷ []))
Once-append [] c once out = (tt, tt)
Once-append (x ∷ xs) c (first, once) (ne, out) =
    (NotIn-append x xs (c ∷ []) first (λ e. ne (sym e), tt), Once-append xs c once out)
