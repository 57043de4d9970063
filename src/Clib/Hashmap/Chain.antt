-- ===== src/Clib/Hashmap/Chain.antt =====
-- Walks along a chain: what finding, updating and unlinking an entry do to the numbers of entries.
use aev_os.Common.{
  ℕ, ◌+◌, ◌≤◌, ◌≡◌, ◌≢◌, refl, Bool, true, ◌&&◌, Option, none, some, List, [], ◌∷◌, ◌==◌, arith,
  Bool-cases, Option-cases, inl, inr,
}
use aev_os.Clib.Hashmap.{Entry, same_key, find, update, entry_behind, unlink, behind_removed}
use aev_os.Clib.Hashmap.Count.{one_if, number}

some-none : {A : Type 0} {a : A} → some a ≢ none
some-none h = absurd (ground arith)

none-some : {A : Type 0} {a : A} → none ≢ some a
none-some h = absurd (ground arith)

-- an entry with the key and the value
abbrev pub is : ℕ → List ℕ → ℕ → Entry → Bool
is h key v e = same_key h key e && e.value == v

pub number-is_le :
    (h : ℕ) (key : List ℕ) (v : ℕ) (es : List Entry)
    → number (is h key v) es ≤ number (same_key h key) es
unfolding number
number-is_le h key v [] = omega arith
number-is_le h key v (e ∷ es) = ground (arith, number-is_le h key v es)

pub number-is_two :
    (h : ℕ) (key : List ℕ) (v w : ℕ) (es : List Entry)
    → v ≢ w
    → number (is h key v) es + number (is h key w) es ≤ number (same_key h key) es
unfolding number
number-is_two h key v w [] ne = omega arith
number-is_two h key v w (e ∷ es) ne = ground (arith, number-is_two h key v w es ne)

-- What `find` says of the numbers.
pub find-none :
    (h : ℕ) (key : List ℕ) (es : List Entry) → find h key es ≡ none → number (same_key h key) es ≡ 0
unfolding find number
find-none h key [] n = refl
find-none h key (e ∷ es) n = ground (arith, find-none h key es)

pub find-some :
    (h : ℕ) (key : List ℕ) (es : List Entry) (v : ℕ)
    → find h key es ≡ some v
    → 1 ≤ number (is h key v) es
unfolding find number
find-some h key [] v s = absurd (ground arith)
find-some h key (e ∷ es) v s = ground (arith, find-some h key es v)

-- `update` of a chain: an entry with the key gets the value.
pub record Updates (h : ℕ) (key : List ℕ) (v : ℕ) (es es' : List Entry) : Type 0 where
  pub entry : Entry
  pub has : same_key h key entry ≡ true
  pub among : (p : Entry → Bool) → one_if (p entry) ≤ number p es
  pub changed :
      (p : Entry → Bool)
      → number p es' + one_if (p entry) ≡ number p es + one_if (p (record entry { value = v }))

pub update-none :
    (h : ℕ) (key : List ℕ) (v : ℕ) (es : List Entry)
    → update h key v es ≡ none
    → number (same_key h key) es ≡ 0
unfolding update number entry_behind
update-none h key v [] n = refl
update-none h key v (e ∷ es) n = elim (Bool-cases (same_key h key e)) [
  | inl y ↦ absurd (ground (arith, y))
  | inr a ↦ elim (Option-cases (update h key v es)) [
    | inl q ↦ ground (arith, update-none h key v es q, a)
    | inr (rest, q) ↦ absurd (some-none (rw (a, q) at n))
  ]
]

pub update-Updates :
    (h : ℕ) (key : List ℕ) (v : ℕ) (es es' : List Entry)
    → update h key v es ≡ some es'
    → Updates h key v es es'
unfolding update number entry_behind
update-Updates h key v [] es' s = absurd (ground arith)
update-Updates h key v (e ∷ es) es' s = elim (Bool-cases (same_key h key e)) [
  | inl y ↦
      let at : record e { value = v } ∷ es ≡ es' = ground (arith, rw y at s) in
      rw (← at)
        (record { entry = e; has = y; among = λ p. omega arith; changed = λ p. omega arith })
  | inr a ↦ elim (Option-cases (update h key v es)) [
    | inl q ↦ absurd (none-some (rw (a, q) at s))
    | inr (rest, q) ↦
        let u = update-Updates h key v es rest q in
        let at : e ∷ rest ≡ es' = ground (arith, rw (a, q) at s) in
        rw (← at) (record {
          entry = u.entry;
          has = u.has;
          among = λ p. omega (arith, u.among p);
          changed = λ p. omega (arith, u.changed p);
        })
  ]
]

-- `unlink` of a chain: an entry with the key is given up, and its value returned.
pub record Unlinks (h : ℕ) (key : List ℕ) (v : ℕ) (es es' : List Entry) : Type 0 where
  pub entry : Entry
  pub has : same_key h key entry ≡ true
  pub holds : entry.value ≡ v
  pub fewer : (p : Entry → Bool) → number p es' + one_if (p entry) ≡ number p es

pub unlink-none :
    (h : ℕ) (key : List ℕ) (es : List Entry)
    → unlink h key es ≡ none
    → number (same_key h key) es ≡ 0
unfolding unlink number behind_removed
unlink-none h key [] n = refl
unlink-none h key (e ∷ es) n = elim (Bool-cases (same_key h key e)) [
  | inl y ↦ absurd (ground (arith, y))
  | inr a ↦ elim (Option-cases (unlink h key es)) [
    | inl q ↦ ground (arith, unlink-none h key es q, a)
    | inr (rest, q) ↦ absurd (some-none (rw (a, q) at n))
  ]
]

pub unlink-Unlinks :
    (h : ℕ) (key : List ℕ) (v : ℕ) (es es' : List Entry)
    → unlink h key es ≡ some (v, es')
    → Unlinks h key v es es'
unfolding unlink number behind_removed
unlink-Unlinks h key v [] es' s = absurd (ground arith)
unlink-Unlinks h key v (e ∷ es) es' s = elim (Bool-cases (same_key h key e)) [
  | inl y ↦
      let at : ◌≡◌ {A = Option (ℕ × List Entry)} (some (e.value, es)) (some (v, es')) = rw y at s in
      let value : e.value ≡ v = ground arith in
      let rest : es ≡ es' = ground arith in
      rw (← rest) (record { entry = e; has = y; holds = value; fewer = λ p. omega arith })
  | inr a ↦ elim (Option-cases (unlink h key es)) [
    | inl q ↦ absurd (none-some (rw (a, q) at s))
    | inr ((w, rest), q) ↦
        let at : ◌≡◌ {A = Option (ℕ × List Entry)} (some (w, e ∷ rest)) (some (v, es')) =
          rw (a, q) at s in
        let value : w ≡ v = ground arith in
        let behind : e ∷ rest ≡ es' = ground arith in
        let u = unlink-Unlinks h key w es rest q in
        rw (← behind, ← value)
          (record {
            entry = u.entry;
            has = u.has;
            holds = u.holds;
            fewer = λ p. omega (arith, u.fewer p);
          })
  ]
]
