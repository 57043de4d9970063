-- ===== src/Kernel/CapIpc/Inv.antt =====
-- The invariant of the table: the tokens are below the counter and differ.
use aev_os.Common.{
  ℕ, zero, suc, ◌+◌, ◌<◌, ◌^◌, ◌%◌, ◌≡◌, refl, ap, sym, subst, ◌∙◌, true, Option, none, some, List,
  [], ◌∷◌, ◌==◌, arith, Bool-cases, inl, inr, replicate, length, length-replicate,
}
use aev_os.Kernel.CapIpc.{
  EpClass, Endpoint, CapIpc, Op, op_init, op_grant, op_revoke, max_endpoints, zero_endpoint, init,
  fresh, behind, grant_slot, granted, grant, revoke_slot, revoke, apply,
}

-- `P` of every slot
abbrev pub All : (Endpoint → Type 0) → List Endpoint → Type 0
All P [] = Unit
All P (e ∷ es) = P e × All P es

-- no two slots share a token other than 0
abbrev pub Distinct : List Endpoint → Type 0
Distinct [] = Unit
Distinct (e ∷ es) = All (λ e'. e'.token ≡ e.token → e.token ≡ 0) es × Distinct es

abbrev pub Below : ℕ → List Endpoint → Type 0
Below n = All (λ e. e.token < n)

pub record IsValid (s : CapIpc) : Type 0 where
  pub size : length s.eps ≡ max_endpoints
  pub positive : 0 < s.next_tok
  pub below : Below s.next_tok s.eps
  pub distinct : Distinct s.eps

pub All-replicate : (P : Endpoint → Type 0) (n : ℕ) (e : Endpoint) → P e → All P (replicate n e)
unfolding replicate
All-replicate P zero e p = tt
All-replicate P (suc n) e p = (p, All-replicate P n e p)

pub All-map :
    (P Q : Endpoint → Type 0) (es : List Endpoint)
    → ((e : Endpoint) → P e → Q e)
    → All P es
    → All Q es
All-map P Q [] f p = tt
All-map P Q (e ∷ es) f (p, ps) = (f e p, All-map P Q es f ps)

pub Distinct-replicate : (n : ℕ) → Distinct (replicate n zero_endpoint)
unfolding replicate
Distinct-replicate zero = tt
Distinct-replicate (suc n) = (All-replicate _ n zero_endpoint (λ h. refl), Distinct-replicate n)

-- `P` of every slot, if there is a table
abbrev pub AllSome : (List Endpoint → Type 0) → Option (List Endpoint) → Type 0
AllSome P none = Unit
AllSome P (some es) = P es

behind-AllSome :
    (P Q : List Endpoint → Type 0) (e : Endpoint) (r : Option (List Endpoint))
    → ((es : List Endpoint) → P es → Q (e ∷ es))
    → AllSome P r
    → AllSome Q (behind e r)
unfolding behind
behind-AllSome P Q e none f h = tt
behind-AllSome P Q e (some es) f h = f es h

-- The new endpoint has `P`, and so have the slots that are left.
pub grant_slot-All :
    (P : Endpoint → Type 0) (tok : ℕ) (ep : EpClass) (owner : ℕ) (es : List Endpoint)
    → P (fresh tok ep owner)
    → All P es
    → AllSome (All P) (grant_slot tok ep owner es)
unfolding grant_slot
grant_slot-All P tok ep owner [] f h = tt
grant_slot-All P tok ep owner (e ∷ es) f (h, hs) = elim (Bool-cases (e.magic == 0)) [
  | inl z ↦ rw z (f, hs)
  | inr z ↦ rw z (
      behind-AllSome (All P) (All P) e _ (λ es' h'. (h, h'))
        (grant_slot-All P tok ep owner es f hs))
]

grant_slot-Distinct :
    (tok : ℕ) (ep : EpClass) (owner : ℕ) (es : List Endpoint)
    → Below tok es
    → Distinct es
    → AllSome Distinct (grant_slot tok ep owner es)
unfolding grant_slot behind
grant_slot-Distinct tok ep owner [] b d = tt
grant_slot-Distinct tok ep owner (e ∷ es) (b, bs) (d, ds) = elim (Bool-cases (e.magic == 0)) [
  | inl z ↦
      rw z (All-map _ (λ e'. e'.token ≡ tok → tok ≡ 0) es (λ e' lt h. absurd (omega arith)) bs, ds)
  | inr z ↦ rw z (
      both (grant_slot tok ep owner es)
        (grant_slot-All (λ e'. e'.token ≡ e.token → e.token ≡ 0) tok ep owner es
          (λ h. absurd (omega arith)) d)
        (grant_slot-Distinct tok ep owner es bs ds))
]
  where
    both :
        (r : Option (List Endpoint))
        → AllSome (All (λ e'. e'.token ≡ e.token → e.token ≡ 0)) r
        → AllSome Distinct r
        → AllSome Distinct (behind e r)
    both none h h' = tt
    both (some es') h h' = (h, h')

grant_slot-length :
    (tok : ℕ) (ep : EpClass) (owner : ℕ) (es : List Endpoint)
    → AllSome (λ es'. length es' ≡ length es) (grant_slot tok ep owner es)
unfolding grant_slot
grant_slot-length tok ep owner [] = tt
grant_slot-length tok ep owner (e ∷ es) = elim (Bool-cases (e.magic == 0)) [
  | inl z ↦ rw z refl
  | inr z ↦ rw z (
      behind-AllSome (λ es'. length es' ≡ length es) (λ es'. length es' ≡ suc (length es)) e _
        (λ es' h. ap suc h) (grant_slot-length tok ep owner es))
]

pub revoke_slot-All :
    (P : Endpoint → Type 0) (tok : ℕ) (es : List Endpoint)
    → ((e : Endpoint) → P e → P (record e { revoked = true }))
    → All P es
    → All P (revoke_slot tok es)
unfolding revoke_slot
revoke_slot-All P tok [] f h = tt
revoke_slot-All P tok (e ∷ es) f (h, hs) = elim (Bool-cases (e.token == tok)) [
  | inl z ↦ rw z (f e h, hs)
  | inr z ↦ rw z (h, revoke_slot-All P tok es f hs)
]

revoke_slot-Distinct : (tok : ℕ) (es : List Endpoint) → Distinct es → Distinct (revoke_slot tok es)
unfolding revoke_slot
revoke_slot-Distinct tok [] d = tt
revoke_slot-Distinct tok (e ∷ es) (d, ds) = elim (Bool-cases (e.token == tok)) [
  | inl z ↦ rw z (d, ds)
  | inr z ↦ rw z (revoke_slot-All _ tok es (λ e' h. h) d, revoke_slot-Distinct tok es ds)
]

length-revoke_slot : (tok : ℕ) (es : List Endpoint) → length (revoke_slot tok es) ≡ length es
unfolding revoke_slot
length-revoke_slot tok [] = refl
length-revoke_slot tok (e ∷ es) = elim (Bool-cases (e.token == tok)) [
  | inl z ↦ rw z refl
  | inr z ↦ rw z (ap suc (length-revoke_slot tok es))
]

pub grant-IsValid :
    (s : CapIpc) (ep : EpClass) (owner : ℕ)
    → s.next_tok + 1 < 2 ^ 64
    → IsValid s
    → IsValid (grant s ep owner).1
unfolding grant granted
grant-IsValid s ep owner room v =
    go (grant_slot s.next_tok ep owner s.eps) (grant_slot-length s.next_tok ep owner s.eps)
      (grant_slot-All (λ e. e.token < s.next_tok + 1) s.next_tok ep owner s.eps (omega arith)
        (All-map _ _ s.eps (λ e lt. omega arith) v.below))
      (grant_slot-Distinct s.next_tok ep owner s.eps v.below v.distinct)
  where
    go :
        (r : Option (List Endpoint))
        → AllSome (λ es'. length es' ≡ length s.eps) r
        → AllSome (Below (s.next_tok + 1)) r
        → AllSome Distinct r
        → IsValid (granted s r).1
    go none h h' h'' = v
    go (some es) h h' h'' =
        let e : (s.next_tok + 1) % 2 ^ 64 ≡ s.next_tok + 1 = omega arith in
        record {
          size = h ∙ v.size;
          positive = omega arith;
          below = subst (λ n. Below n es) (sym e) h';
          distinct = h'';
        }

-- Every call keeps the invariant of the table (32 slots, tokens below the counter and different from
-- each other), until the 64-bit counter is used up.
pub apply-IsValid :
    (s : CapIpc) (op : Op) → s.next_tok + 1 < 2 ^ 64 → IsValid s → IsValid (apply s op)
unfolding apply init revoke
apply-IsValid s op_init room v = record {
  size = length-replicate max_endpoints zero_endpoint;
  positive = v.positive;
  below = All-replicate _ max_endpoints zero_endpoint v.positive;
  distinct = Distinct-replicate max_endpoints;
}
apply-IsValid s (op_grant ep owner) room v = grant-IsValid s ep owner room v
apply-IsValid s (op_revoke tok) room v = record {
  size = length-revoke_slot tok s.eps ∙ v.size;
  positive = v.positive;
  below = revoke_slot-All _ tok s.eps (λ e h. h) v.below;
  distinct = revoke_slot-Distinct tok s.eps v.distinct;
}
