-- ===== src/Agent/Eventlog/Log.antt =====
-- What the log keeps of the events, and what a snapshot shows of them.
use aev_os.Common.{
  ℕ, ◌+◌, ◌-◌, ◌%◌, ◌≤◌, ◌≡◌, ap, ◌∙◌, sym, subst, true, List, arith, length, drop, length-drop,
  drop_all, ltb, ◌==◌, Bool-cases, inl, inr,
}
use aev_os.Common.Ring.{span, span-slot, span-drop}
use aev_os.Agent.Eventlog.{Eventlog, eventlog_capacity, zero_record, copy_out, snapshot}
use aev_os.Agent.Eventlog.Inv.{IsValid, records, length-records, Numbered, Numbered-drop}

-- the newest `n` of a list
abbrev pub newest {ℓ} : {A : Type ℓ} → ℕ → List A → List A
newest n xs = drop (length xs - n) xs

copy_out-drop :
    (g : Eventlog) (n : ℕ)
    → IsValid g
    → n ≤ g.count
    → copy_out g.ring ((g.head + g.count - n) % eventlog_capacity) 0 n
      ≡ drop (g.count - n) (records g)
unfolding copy_out
copy_out-drop g n v h =
    ap (λ (k : ℕ). span zero_record eventlog_capacity g.ring (k % eventlog_capacity) 0 n) start
    ∙ span-slot zero_record eventlog_capacity g.ring g.head (g.count - n) 0 n
    ∙ ap (λ (k : ℕ). span zero_record eventlog_capacity g.ring g.head k n) offset
    ∙ sym (
        span-drop zero_record eventlog_capacity g.ring g.head 0 (g.count - n) n g.count
          (omega arith))
  where
    start : g.head + g.count - n ≡ g.head + (g.count - n)
    start = omega arith

    offset : g.count - n + 0 ≡ 0 + (g.count - n)
    offset = omega arith

-- On a valid log, eventlog_snapshot writes the newest records of the log, oldest first: as many as
-- are asked for, or all that there are.
pub snapshot-newest :
    {g : Eventlog} (max_records : ℕ)
    → IsValid g
    → snapshot g true max_records ≡ newest max_records (records g)
unfolding snapshot
snapshot-newest {g} max_records v = elim (Bool-cases (max_records == 0)) [
  | inl e ↦ rw e (sym (drop_all _ (records g) (ground arith)))
  | inr e ↦ elim (Bool-cases (ltb g.count max_records)) [
    | inl l ↦
        rw (e, l, length-records g)
          (copy_out-drop g g.count v (omega arith)
            ∙ ap (λ (k : ℕ). drop k (records g))
                (let z : g.count - g.count ≡ g.count - max_records = ground arith in z))
    | inr l ↦ rw (e, l, length-records g) (copy_out-drop g max_records v (ground arith))
  ]
]

-- The records of a snapshot of a valid log carry consecutive numbers, and the last of them is the
-- number that eventlog_seq returns.
pub snapshot-Numbered :
    {g : Eventlog} (max_records : ℕ)
    → IsValid g
    → Numbered (g.seq + 1 - length (snapshot g true max_records)) (snapshot g true max_records)
snapshot-Numbered {g} max_records v =
    let m = length (records g) - max_records in
    rw (snapshot-newest max_records v) (
      subst (λ k. Numbered k (drop m (records g)))
        (omega (arith, length-drop m (records g), length-records g, v.counted))
        (Numbered-drop (g.seq + 1 - g.count) m (records g) v.numbered))
