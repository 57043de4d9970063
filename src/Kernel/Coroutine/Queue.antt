-- ===== src/Kernel/Coroutine/Queue.antt =====
-- The run queues as lists, one for each priority.
use aev_os.Common.{
  ℕ, zero, suc, ◌<◌, ◌≤◌, ◌≡◌, ◌≢◌, refl, ap, sym, subst, Option, none, some, List, [], ◌∷◌, ◌++◌,
  arith, length, ℕ_discrete,
}
use aev_os.Kernel.Coroutine.{
  idle, priority_levels, upd, Links, link, enqueue, pick_from, pick_next_coro,
}
use aev_os.Kernel.Coroutine.Chain.{
  IsChain, NotIn, Once, upd_self, upd_ne, IsChain-upd, last, last_from-last, IsChain-link,
  NotIn-append, Once-append,
}

-- no coroutine is in both lists
abbrev pub Apart : List ℕ → List ℕ → Type 0
Apart [] ys = Unit
Apart (x ∷ xs) ys = NotIn x ys × Apart xs ys

-- The queues hold the lists `l`, and no coroutine stands in them twice.
pub record Holds (q : Links) (l : ℕ → List ℕ) : Type 0 where
  pub chain : (p : ℕ) → IsChain q.next (q.heads p) (l p)
  pub once : (p : ℕ) → Once (l p)
  pub apart : (p p' : ℕ) → p ≢ p' → Apart (l p) (l p')

last-NotIn : (x : ℕ) (xs ys : List ℕ) → Apart (x ∷ xs) ys → NotIn (last x xs) ys
last-NotIn x [] ys (h, hs) = h
last-NotIn x (y ∷ xs) ys (h, hs) = last-NotIn y xs ys hs

Apart-append_left : (xs ys : List ℕ) (c : ℕ) → NotIn c ys → Apart xs ys → Apart (xs ++ (c ∷ [])) ys
Apart-append_left [] ys c out h = (out, tt)
Apart-append_left (x ∷ xs) ys c out (h, hs) = (h, Apart-append_left xs ys c out hs)

Apart-append_right : (xs ys : List ℕ) (c : ℕ) → NotIn c xs → Apart xs ys → Apart xs (ys ++ (c ∷ []))
Apart-append_right [] ys c out h = tt
Apart-append_right (x ∷ xs) ys c (ne, out) (h, hs) =
    (NotIn-append x ys (c ∷ []) h (λ e. ne (sym e), tt), Apart-append_right xs ys c out hs)

Apart-tail : (xs : List ℕ) (y : ℕ) (ys : List ℕ) → Apart xs (y ∷ ys) → Apart xs ys
Apart-tail [] y ys h = tt
Apart-tail (x ∷ xs) y ys (h, hs) = (h.1, Apart-tail xs y ys hs)

-- A property of every list holds of the lists with a changed one, if it holds of that one.
upd_all :
    (P : ℕ → List ℕ → Type 0) (l : ℕ → List ℕ) (p : ℕ) (xs : List ℕ)
    → P p xs
    → ((p' : ℕ) → p ≢ p' → P p' (l p'))
    → (p' : ℕ) → P p' (upd l p xs p')
upd_all P l p xs h others p' = elim (ℕ_discrete p p') [
  | yes e ↦ subst (λ k. P k (upd l p xs k)) e (subst (P p) (sym (upd_self l p xs)) h)
  | no ne ↦ subst (P p') (sym (upd_ne l p p' xs ne)) (others p' ne)
]

-- what is left of the chains of the other priorities
record Others (q q' : Links) (l : ℕ → List ℕ) (p : ℕ) (xs : List ℕ) : Type 0 where
  here : IsChain q'.next (q'.heads p) xs
  there : (p' : ℕ) → p ≢ p' → IsChain q'.next (q'.heads p') (l p')
  once : Once xs
  left : (p' : ℕ) → p ≢ p' → Apart xs (l p')
  right : (p' : ℕ) → p ≢ p' → Apart (l p') xs

Holds-upd :
    (q q' : Links) (l : ℕ → List ℕ) (p : ℕ) (xs : List ℕ)
    → Holds q l
    → Others q q' l p xs
    → Holds q' (upd l p xs)
Holds-upd q q' l p xs v o = record {
  chain = upd_all (λ k ys. IsChain q'.next (q'.heads k) ys) l p xs o.here o.there;
  once = upd_all (λ k ys. Once ys) l p xs o.once (λ p' ne. v.once p');
  apart = λ a b ne. apart a b ne;
}
  where
    apart : (a b : ℕ) → a ≢ b → Apart (upd l p xs a) (upd l p xs b)
    apart a b ne =
        upd_all (λ a' ys. a' ≢ b → Apart ys (upd l p xs b)) l p xs
          (λ pb. subst (Apart xs) (sym (upd_ne l p b xs pb)) (o.left b pb))
          (λ a' pa ab.
            upd_all (λ b' ys. a' ≢ b' → Apart (l a') ys) l p xs (λ _. o.right a' pa)
              (λ b' pb ab'. v.apart a' b' ab') b ab)
          a ne

-- The call ends, and its queues hold the lists.
abbrev pub Gives : Option Links → (ℕ → List ℕ) → Type 0
Gives none l = ⊥
Gives (some q) l = Holds q l

enqueue_empty :
    (fuel : ℕ) (q : Links) (l : ℕ → List ℕ) (p c : ℕ)
    → Holds q l
    → ((p' : ℕ) → NotIn c (l p'))
    → l p ≡ []
    → Gives (enqueue fuel q p c) (upd l p (l p ++ (c ∷ [])))
unfolding enqueue
enqueue_empty fuel q l p c v out e =
    let head : q.heads p ≡ none = subst (IsChain q.next (q.heads p)) e (v.chain p) in
    rw (enqueue, head, e)
      (Holds-upd q _ l p (c ∷ []) v (record {
        here = (upd_self q.heads p (some c), upd_self q.next c none);
        there = λ p' ne.
            subst (λ h. IsChain (upd q.next c none) h (l p'))
              (sym (upd_ne q.heads p p' (some c) ne))
              (IsChain-upd q.next (q.heads p') (l p') c none (out p') (v.chain p'));
        once = (tt, tt);
        left = λ p' ne. (out p', tt);
        right = λ p' ne.
            Apart-append_right (l p') [] c (out p')
              (subst (Apart (l p')) e (v.apart p' p (λ z. ne (sym z))));
      }))

enqueue_more :
    (fuel : ℕ) (q : Links) (l : ℕ → List ℕ) (p c x : ℕ) (xs : List ℕ)
    → Holds q l
    → ((p' : ℕ) → NotIn c (l p'))
    → l p ≡ x ∷ xs
    → length xs < fuel
    → Gives (enqueue fuel q p c) (upd l p (l p ++ (c ∷ [])))
unfolding enqueue link
enqueue_more fuel q l p c x xs v out e h =
    let next = upd q.next c none in
    let end = last x xs in
    let outside : NotIn c (x ∷ xs) = subst (NotIn c) e (out p) in
    let once : Once (x ∷ xs) = subst Once e (v.once p) in
    let chain : IsChain next (q.heads p) (x ∷ xs) =
      IsChain-upd q.next (q.heads p) (x ∷ xs) c none outside
        (subst (IsChain q.next (q.heads p)) e (v.chain p)) in
    rw (enqueue, chain.0, last_from-last next fuel x xs chain.1 h, e)
      (Holds-upd q _ l p (x ∷ (xs ++ (c ∷ []))) v (record {
        here = (chain.0, IsChain-link next x xs c chain.1 once outside (upd_self q.next c none));
        there = λ p' ne.
            IsChain-upd next (q.heads p') (l p') end (some c)
              (last-NotIn x xs (l p') (subst (λ t. Apart t (l p')) e (v.apart p p' ne)))
              (IsChain-upd q.next (q.heads p') (l p') c none (out p') (v.chain p'));
        once = Once-append (x ∷ xs) c once outside;
        left = λ p' ne.
            Apart-append_left (x ∷ xs) (l p') c (out p')
              (subst (λ t. Apart t (l p')) e (v.apart p p' ne));
        right = λ p' ne.
            Apart-append_right (l p') (x ∷ xs) c (out p')
              (subst (Apart (l p')) e (v.apart p' p (λ z. ne (sym z))));
      }))

-- enqueue of a coroutine that is in no queue ends, and appends it to the list of its priority, if
-- the fuel is at least the length of that list.
pub enqueue-Holds :
    (fuel : ℕ) (q : Links) (l : ℕ → List ℕ) (p c : ℕ)
    → Holds q l
    → ((p' : ℕ) → NotIn c (l p'))
    → length (l p) ≤ fuel
    → Gives (enqueue fuel q p c) (upd l p (l p ++ (c ∷ [])))
enqueue-Holds fuel q l p c v out h = go (l p) refl
  where
    go : (xs : List ℕ) → l p ≡ xs → Gives (enqueue fuel q p c) (upd l p (l p ++ (c ∷ [])))
    go [] e = enqueue_empty fuel q l p c v out e
    go (x ∷ xs) e = enqueue_more fuel q l p c x xs v out e (omega (arith, ap length e))

-- The lists with the first coroutine of the highest priority below `p` taken off.
pub pick_list : (ℕ → List ℕ) → ℕ → ℕ × (ℕ → List ℕ)
pick_list l zero = (idle, l)
pick_list l (suc p) = elim (l p) [ [] ↦ pick_list l p | x ∷ xs ↦ (x, upd l p xs) ]

pick_from-Holds :
    (q : Links) (l : ℕ → List ℕ) (p : ℕ)
    → Holds q l
    → ((pick_from q p).0 ≡ (pick_list l p).0) × Holds (pick_from q p).1 (pick_list l p).1
unfolding pick_from pick_list
pick_from-Holds q l zero v = (refl, v)
pick_from-Holds q l (suc p) v = go (pick_from-Holds q l p v) (l p) refl
  where
    go :
        ((pick_from q p).0 ≡ (pick_list l p).0) × Holds (pick_from q p).1 (pick_list l p).1
        → (xs : List ℕ) → l p ≡ xs
        → ((pick_from q (suc p)).0 ≡ (pick_list l (suc p)).0)
          × Holds (pick_from q (suc p)).1 (pick_list l (suc p)).1
    go ih [] e =
        let head : q.heads p ≡ none = subst (IsChain q.next (q.heads p)) e (v.chain p) in
        rw (pick_from, pick_list, head, e) ih
    go ih (x ∷ xs) e =
        let chain : IsChain q.next (q.heads p) (x ∷ xs) =
          subst (IsChain q.next (q.heads p)) e (v.chain p) in
        let once : Once (x ∷ xs) = subst Once e (v.once p) in
        rw (pick_from, pick_list, chain.0, e)
          (
            refl,
            Holds-upd q _ l p xs v (record {
              here =
                  subst (λ h. IsChain (upd q.next x none) h xs)
                    (sym (upd_self q.heads p (q.next x)))
                    (IsChain-upd q.next (q.next x) xs x none once.0 chain.1);
              there = λ p' ne.
                  subst (λ h. IsChain (upd q.next x none) h (l p'))
                    (sym (upd_ne q.heads p p' (q.next x) ne))
                    (IsChain-upd q.next (q.heads p') (l p') x none
                      (subst (λ t. Apart t (l p')) e (v.apart p p' ne)).0 (v.chain p'));
              once = once.1;
              left = λ p' ne. (subst (λ t. Apart t (l p')) e (v.apart p p' ne)).1;
              right = λ p' ne.
                  Apart-tail (l p') x xs (subst (Apart (l p')) e (v.apart p' p (λ z. ne (sym z))));
            }),
          )

-- pick_next_coro takes the first coroutine of the highest priority that has one, or gives the idle
-- coroutine, and leaves the other lists as they are.
pub pick_next_coro-Holds :
    (q : Links) (l : ℕ → List ℕ)
    → Holds q l
    → ((pick_next_coro q).0 ≡ (pick_list l priority_levels).0)
      × Holds (pick_next_coro q).1 (pick_list l priority_levels).1
unfolding pick_next_coro
pick_next_coro-Holds q l v = pick_from-Holds q l priority_levels v
