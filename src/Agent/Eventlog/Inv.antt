-- ===== src/Agent/Eventlog/Inv.antt =====
-- The invariant of the event log, and the log that it holds.
use aev_os.Common.{
  ℕ, zero, suc, ◌+◌, ◌-◌, ◌%◌, ◌^◌, ◌≤◌, ◌<◌, ◌≡◌, ◌∙◌, sym, subst, subst₂, length-drop, Option,
  List, [], ◌∷◌, ◌++◌, arith, length, get_or, drop, length-set, length-replicate, ltb, ltb→lt,
  Bool-cases, inl, inr, if◌then◌else◌,
}
use aev_os.Common.Ring.{slot, span, length-span, span-set_past, span-set_full}
use aev_os.Agent.Eventlog.{
  EventType, Record, Eventlog, eventlog_capacity, zero_record, init, write_payload, append,
}
use native.Mathlib.Numerals.{add-one}

-- the records of the log, oldest first
abbrev pub records : Eventlog → List Record
records g = span zero_record eventlog_capacity g.ring g.head 0 g.count

-- Consecutive numbers, from `k` on.
abbrev pub Numbered : ℕ → List Record → Type 0
Numbered k [] = Unit
Numbered k (r ∷ rs) = (r.seq ≡ k) × Numbered (k + 1) rs

-- The newest record has the number `g_seq`, and each older one the number before.
pub record IsValid (g : Eventlog) : Type 0 where
  pub cells : length g.ring ≡ eventlog_capacity
  pub head_in : g.head < eventlog_capacity
  pub count_in : g.count ≤ eventlog_capacity
  pub counted : g.count ≤ g.seq
  pub numbered : Numbered (g.seq + 1 - g.count) (records g)

pub length-records : (g : Eventlog) → length (records g) ≡ g.count
length-records g = length-span zero_record eventlog_capacity g.ring g.head 0 g.count

pub Numbered-snoc :
    (k : ℕ) (rs : List Record) (r : Record)
    → Numbered k rs
    → r.seq ≡ k + length rs
    → Numbered k (rs ++ (r ∷ []))
Numbered-snoc k [] r n e = (omega arith, tt)
Numbered-snoc k (x ∷ rs) r n e = (n.0, Numbered-snoc (k + 1) rs r n.1 (omega arith))

pub Numbered-drop : (k m : ℕ) (rs : List Record) → Numbered k rs → Numbered (k + m) (drop m rs)
Numbered-drop k zero rs n = subst (λ j. Numbered j rs) (omega arith) n
Numbered-drop k (suc m) [] n = tt
Numbered-drop k (suc m) (x ∷ rs) n =
    subst (λ j. Numbered j (drop m rs)) (omega arith) (Numbered-drop (k + 1) m rs n.1)

-- `eventlog_init` gives a valid log.
pub init-IsValid : IsValid init
unfolding init
init-IsValid = record {
  cells = length-replicate eventlog_capacity zero_record;
  head_in = omega arith;
  count_in = omega arith;
  counted = omega arith;
  numbered = tt;
}

-- the record that an append writes
pub record_of : Eventlog → ℕ → EventType → ℕ → Option (List ℕ) → Record
record_of g now type agent_id payload = record {
  seq = (g.seq + 1) % 2 ^ 64;
  ts_ms = now;
  type = type;
  agent_id = agent_id;
  payload =
      write_payload (get_or g.ring (slot eventlog_capacity g.head g.count) zero_record).payload
        payload;
}

module _ (g : Eventlog) (now : ℕ) (type : EventType) (agent_id : ℕ) (payload : Option (List ℕ))
    (v : IsValid g) where
  -- On a valid log, eventlog_append adds its record behind the others; a log of 4096 records gives up
  -- the oldest.
  pub records-append :
      records (append g now type agent_id payload)
      ≡ (if ltb g.count eventlog_capacity then records g else drop 1 (records g))
        ++ (record_of g now type agent_id payload ∷ [])
  unfolding append record_of
  records-append = elim (Bool-cases (ltb g.count eventlog_capacity)) [
    | inl e ↦
        rw (e, add-one g.count)
          (span-set_past zero_record eventlog_capacity g.ring g.head v.head_in
            (omega (arith, v.cells)) g.count _ (ltb→lt _ _ e))
    | inr e ↦
        let full : g.count ≡ eventlog_capacity = ground (arith, v.count_in) in
        rw (e, full)
          (span-set_full zero_record eventlog_capacity g.ring g.head _ v.head_in
            (omega (arith, v.cells)))
  ]

  Numbered-append :
      g.seq + 1 < 2 ^ 64
      → Numbered (g.seq + 2 - (if ltb g.count eventlog_capacity then g.count + 1 else g.count)) (
          (if ltb g.count eventlog_capacity then records g else drop 1 (records g))
          ++ (record_of g now type agent_id payload ∷ []))
  unfolding record_of
  Numbered-append room = elim (Bool-cases (ltb g.count eventlog_capacity)) [
    | inl e ↦ rw e (
        subst (λ k. Numbered k (records g ++ (record_of g now type agent_id payload ∷ [])))
          (omega (arith, v.counted))
          (Numbered-snoc (g.seq + 1 - g.count) (records g) _ v.numbered
            (omega (arith, length-records g, v.counted))))
    | inr e ↦ rw e (
        subst (λ k. Numbered k (drop 1 (records g) ++ (record_of g now type agent_id payload ∷ [])))
          (omega (arith, v.counted))
          (Numbered-snoc (g.seq + 1 - g.count + 1) (drop 1 (records g)) _
            (Numbered-drop (g.seq + 1 - g.count) 1 (records g) v.numbered)
            (ground (arith, length-records g, length-drop 1 (records g), v.counted))))
  ]

  first_number :
      g.seq + 1 < 2 ^ 64
      → g.seq + 2 - (if ltb g.count eventlog_capacity then g.count + 1 else g.count)
        ≡ (append g now type agent_id payload).seq + 1 - (append g now type agent_id payload).count
  unfolding append
  first_number room = ground (arith, v.counted)

  -- eventlog_append keeps the invariant of a valid log (indices in range, consecutive sequence numbers
  -- that end at the counter) until the 64-bit counter is used up.
  pub append-IsValid : g.seq + 1 < 2 ^ 64 → IsValid (append g now type agent_id payload)
  append-IsValid room =
      let numbers : Numbered
          ((append g now type agent_id payload).seq
            + 1
            - (append g now type agent_id payload).count)
          (records (append g now type agent_id payload)) =
        subst₂ Numbered (first_number room) (sym records-append) (Numbered-append room) in
      unfold append in
      record {
        cells = length-set g.ring _ _ ∙ v.cells;
        head_in = ground (arith, v.head_in);
        count_in = ground (arith, v.count_in);
        counted = ground (arith, v.counted);
        numbered = numbers;
      }
