-- ===== src/Agent/Mailbox/Refine.antt =====
-- A valid mailbox behaves as the queue of the letters that it holds.
use mathlib.Core.Option
use mathlib.Core.List.{map-append}
use native.Mathlib.Numerals.{add-one}
use aev_os.Common.{
  ltb→lt, Option-cases, min, ℕ_discrete, ℕ, zero, suc, ◌+◌, ◌-◌, ◌≤◌, ◌<◌, ◌≡◌, refl, sym, ap, ap₂,
  ◌∙◌, ◌≢◌, true, Option, none, some, List, [], ◌∷◌, ◌++◌, map, arith, length, get_or, take, drop,
  erase_idx, ltb, ◌==◌, Bool-cases, inl, inr, take-append-take, length-map, map-drop, length-set,
}
use aev_os.Common.Errno.{Status, ok, enoent}
use aev_os.Common.Ring.{
  slot, cell, span, length-span, span_pos, span-slot, span-set_past, span-set_full, span-erase_idx,
  cell-set_self, cell-set_ne,
}
use aev_os.Agent.Mailbox.{
  Message, Mailbox, mailbox_cap, zero_message, copy_body, clamp_len, put, send, try_recv, is_for,
  find_off, move_up, shift, take_at, try_recv_for,
}
use aev_os.Agent.Mailbox.Inv.{IsValid, send-IsValid, try_recv-IsValid, try_recv_for-IsValid}
use aev_os.Agent.Mailbox.Queue
use aev_os.Agent.Mailbox.Queue.{
  Letter, letter_of, Queue, is_addressed, Op, send_op, recv_op, recv_for_op, Reply,
}

abbrev pub messages : Mailbox → List Message
messages mb = span zero_message mailbox_cap mb.ring mb.head 0 mb.count

-- the letters in the ring, oldest first
abbrev pub contents : Mailbox → Queue
contents mb = map letter_of (messages mb)

length-contents : (mb : Mailbox) → length (contents mb) ≡ mb.count
length-contents mb =
    length-map (messages mb) letter_of
    ∙ length-span zero_message mailbox_cap mb.ring mb.head 0 mb.count

map-snoc :
    (ms : List Message) (m : Message)
    → map letter_of (ms ++ (m ∷ [])) ≡ map letter_of ms ++ (letter_of m ∷ [])
map-snoc ms m = map-append letter_of ms (m ∷ [])

abbrev letter : ℕ → ℕ → List ℕ → Letter
letter from to text = record { from_agent = from; to_agent = to; text = text }

letter_of-put :
    (from to len : ℕ) (src body : List ℕ)
    → len ≤ length src
    → letter_of
        (record { body = copy_body src len body; len = len; from_agent = from; to_agent = to })
      ≡ letter from to (take len src)
unfolding letter_of copy_body
letter_of-put from to len src body h =
    ap (letter from to) (take-append-take len src (0 ∷ drop (len + 1) body) h)

put_refines :
    (mb : Mailbox) (from to : ℕ) (src : List ℕ) (len : ℕ)
    → IsValid mb
    → len ≤ length src
    → contents (put mb from to src len) ≡ Queue.push (contents mb) (letter from to (take len src))
unfolding put Queue.push
put_refines mb from to src len v hs =
    let i = slot mailbox_cap mb.head mb.count in
    let old = get_or mb.ring i zero_message in
    let m : Message = record {
      body = copy_body src len old.body;
      len = len;
      from_agent = from;
      to_agent = to;
    } in
    let sent = letter_of-put from to len src old.body hs in
    elim (Bool-cases (ltb mb.count mailbox_cap)) [
      | inl e ↦
          rw (length-contents mb, e, add-one mb.count)
            (ap (map letter_of) (
                span-set_past zero_message mailbox_cap mb.ring mb.head v.head_in
                  (omega (arith, v.cells)) mb.count m (ltb→lt _ _ e))
              ∙ map-snoc (messages mb) m
              ∙ ap (λ x. contents mb ++ (x ∷ [])) sent)
      | inr e ↦
          let full : mb.count ≡ mailbox_cap = ground (arith, v.count_in) in
          let old' = get_or mb.ring (slot mailbox_cap mb.head mailbox_cap) zero_message in
          let m' : Message = record {
            body = copy_body src len old'.body;
            len = len;
            from_agent = from;
            to_agent = to;
          } in
          let all = span zero_message mailbox_cap mb.ring mb.head 0 mailbox_cap in
          rw (length-contents mb, e, full)
            (ap (map letter_of) (
                span-set_full zero_message mailbox_cap mb.ring mb.head m' v.head_in
                  (omega (arith, v.cells)))
              ∙ map-snoc (drop 1 all) m'
              ∙ ap₂ (λ r x. r ++ (x ∷ [])) (map-drop 1 all letter_of)
                  (letter_of-put from to len src old'.body hs))
    ]

-- mailbox_send of a non-empty message to a valid mailbox returns 0 and appends the message, cut to
-- 511 bytes, to the queue of letters, which gives up its oldest letter if it holds 256.
pub send_refines :
    {mb : Mailbox} (from to : ℕ) (src : List ℕ) (len : ℕ)
    → IsValid mb
    → 0 < len
    → len ≤ length src
    → let (s, mb') = send mb from to (some src) len in
      (s ≡ ok) × (contents mb' ≡ Queue.push (contents mb) (letter from to (take (min len 511) src)))
unfolding send clamp_len
send_refines {mb} from to src len v pos hs = elim (Bool-cases (len == 0)) [
  | inl e ↦ absurd (ground arith)
  | inr e ↦
      let cut : clamp_len len ≡ min len 511 = ground arith in
      rw e (
        refl,
        put_refines mb from to src (clamp_len len) v (omega arith)
            ∙ ap (λ k. Queue.push (contents mb) (letter from to (take k src))) cut,
      )
]

-- `mailbox_try_recv` returns the status and the letter of `Queue.pop`, and leaves the rest.
pub try_recv_refines :
    {mb : Mailbox}
    → IsValid mb
    → let (s, m, mb') = try_recv mb true in
      (s, Option.map letter_of m, contents mb') ≡ Queue.pop (contents mb)
unfolding try_recv Queue.pop
try_recv_refines {mb} v = elim (Bool-cases (mb.count == 0)) [
  | inl e ↦ let empty : mb.count ≡ 0 = ground arith in rw (e, empty)
  | inr e ↦
      rw (e, span_pos zero_message mailbox_cap mb.ring mb.head 0 mb.count (ground arith))
        (ap₂ (λ i q. (ok, some (letter_of (get_or mb.ring i zero_message)), map letter_of q))
          (omega (arith, v.head_in))
          (span-slot zero_message mailbox_cap mb.ring mb.head 1 0 (mb.count - 1)))
]

module _ (h : ℕ) (hh : h < mailbox_cap) where
  at : List Message → ℕ → Message
  at buf i = cell zero_message mailbox_cap buf h i

  move_up-at :
      (buf : List Message) (k i : ℕ)
      → length buf ≡ mailbox_cap
      → k < mailbox_cap
      → i < mailbox_cap
      → i ≢ k
      → at (move_up h buf k) i ≡ at buf i
  unfolding at
  move_up-at buf k i e hk hi ne =
      cell-set_ne zero_message mailbox_cap buf h hh (omega (arith, e)) k i _ hk hi (λ p. ne (sym p))

  -- Offsets below the loop's start stay, ...
  shift_below :
      (buf : List Message) (k n i : ℕ)
      → length buf ≡ mailbox_cap
      → k + n < mailbox_cap
      → i < k
      → at (shift h buf k n) i ≡ at buf i
  unfolding shift
  shift_below buf k zero i e hn hi = refl
  shift_below buf k (suc n) i e hn hi =
      shift_below (move_up h buf k) (k + 1) n i (length-set buf _ _ ∙ e) (omega arith) (omega arith)
      ∙ move_up-at buf k i e (omega arith) (omega arith) (omega arith)

  -- ... and the others take the message of the next offset.
  shift_from :
      (buf : List Message) (k n i : ℕ)
      → length buf ≡ mailbox_cap
      → k + n < mailbox_cap
      → k ≤ i
      → i < k + n
      → at (shift h buf k n) i ≡ at buf (i + 1)
  unfolding shift at
  shift_from buf k zero i e hn lo hi = absurd (omega arith)
  shift_from buf k (suc n) i e hn lo hi = elim (ℕ_discrete i k) [
    | yes same ↦
        shift_below (move_up h buf k) (k + 1) n i (length-set buf _ _ ∙ e) (omega arith)
          (omega arith)
        ∙ rw same
            (cell-set_self zero_message mailbox_cap buf h hh (omega (arith, e)) k (at buf (k + 1)))
    | no ne ↦
        shift_from (move_up h buf k) (k + 1) n i (length-set buf _ _ ∙ e) (omega arith)
          (omega arith) (omega arith)
        ∙ move_up-at buf k (i + 1) e (omega arith) (omega arith) (omega arith)
  ]

abbrev rest : Mailbox → ℕ → ℕ → List Message
rest mb i n = span zero_message mailbox_cap mb.ring mb.head i n

-- what the queue gives at an offset, in the rest of it from offset `i` on
found : Mailbox → ℕ → ℕ → Option ℕ → Status × Option Letter × Queue
found mb i n none = (enoent, none, map letter_of (rest mb i n))
found mb i n (some f) = (
  ok,
  some (letter_of (cell zero_message mailbox_cap mb.ring mb.head f)),
  map letter_of (erase_idx (rest mb i n) (f - i)),
)

find_off_bounds :
    (mb : Mailbox) (agent i n f : ℕ) → find_off mb agent i n ≡ some f → (i ≤ f) × (f < i + n)
unfolding find_off
find_off_bounds mb agent i zero f e = cc
find_off_bounds mb agent i (suc n) f e = ground (arith, find_off_bounds mb agent (i + 1) n f)

pop_for-rest :
    (mb : Mailbox) (agent i n : ℕ)
    → Queue.pop_for agent (map letter_of (rest mb i n)) ≡ found mb i n (find_off mb agent i n)
unfolding find_off found Queue.pop_for is_for is_addressed letter_of
pop_for-rest mb agent i zero = refl
pop_for-rest mb agent i (suc n) =
    let first = cell zero_message mailbox_cap mb.ring mb.head i in
    elim (Bool-cases (is_for agent first)) [
      | inl e ↦ rw e (
          ap (λ k. (ok, some (letter_of first), map letter_of (erase_idx (rest mb i (suc n)) k)))
            (let z : 0 ≡ i - i = omega arith in z))
      | inr e ↦ elim (Option-cases (find_off mb agent (i + 1) n)) [
        | inl o ↦ rw (e, pop_for-rest mb agent (i + 1) n, o)
        | inr (f, o) ↦
            rw (e, pop_for-rest mb agent (i + 1) n, o)
              (ap
                (λ k. (
                  ok,
                  some (letter_of (cell zero_message mailbox_cap mb.ring mb.head f)),
                  map letter_of (erase_idx (rest mb i (suc n)) k),
                ))
                (let z : suc (f - (i + 1)) ≡ f - i =
                    omega (arith, find_off_bounds mb agent (i + 1) n f o) in
                  z))
      ]
    ]

-- The shift takes the message at `f` out of the ring.
shift-rest :
    (mb : Mailbox) (f : ℕ)
    → IsValid mb
    → f < mb.count
    → span zero_message mailbox_cap
        (shift mb.head mb.ring f (mb.count - 1 - f))
        mb.head
        0
        (mb.count - 1)
      ≡ erase_idx (rest mb 0 mb.count) (f - 0)
unfolding at
shift-rest mb f v hf =
    let n = mb.count - 1 - f in
    let inside : f + n < mailbox_cap = omega (arith, v.count_in) in
    span-erase_idx zero_message mailbox_cap mb.ring (shift mb.head mb.ring f n) mb.head 0 f
      (mb.count - 1) (omega arith)
      (λ i hi. shift_below mb.head v.head_in mb.ring f n (0 + i) v.cells inside (omega arith))
      (λ i lo hi.
        shift_from mb.head v.head_in mb.ring f n (0 + i) v.cells inside (omega arith) (omega arith)
        ∙ ap (cell zero_message mailbox_cap mb.ring mb.head) (omega arith))
    ∙ ap₂ (λ (n i : ℕ). erase_idx (rest mb 0 n) i) whole start
  where
    whole : suc (mb.count - 1) ≡ mb.count
    whole = omega arith

    start : f ≡ f - 0
    start = omega arith

-- On a valid mailbox, mailbox_try_recv_for returns the status and the letter of Queue.pop_for,
-- which is the oldest letter that the agent may take, and leaves the other letters in their order.
pub try_recv_for_refines :
    {mb : Mailbox} (agent : ℕ)
    → IsValid mb
    → let (s, m, mb') = try_recv_for mb agent true in
      (s, Option.map letter_of m, contents mb') ≡ Queue.pop_for agent (contents mb)
unfolding try_recv_for take_at found Queue.pop_for
try_recv_for_refines {mb} agent v = elim (Bool-cases (mb.count == 0)) [
  | inl e ↦ let empty : mb.count ≡ 0 = ground arith in rw (e, empty)
  | inr e ↦ elim (Option-cases (find_off mb agent 0 mb.count)) [
    | inl o ↦ rw (e, pop_for-rest mb agent 0 mb.count, o)
    | inr (f, o) ↦
        rw (e, pop_for-rest mb agent 0 mb.count, o)
          (ap
            (λ q. (
              ok,
              some (letter_of (cell zero_message mailbox_cap mb.ring mb.head f)),
              map letter_of q,
            ))
            (shift-rest mb f v (omega (arith, find_off_bounds mb agent 0 mb.count f o))))
  ]
]

-- a client's calls on the mailbox, with what each returns
pub run : Mailbox → List Op → List Reply
run mb [] = []
run mb (send_op from to src ∷ ops) =
    let (s, mb') = send mb from to (some src) (length src) in (s, none) ∷ run mb' ops
run mb (recv_op ∷ ops) =
    let (s, m, mb') = try_recv mb true in (s, Option.map letter_of m) ∷ run mb' ops
run mb (recv_for_op agent ∷ ops) =
    let (s, m, mb') = try_recv_for mb agent true in (s, Option.map letter_of m) ∷ run mb' ops

send-accept :
    {mb : Mailbox} (from to : ℕ) (src : List ℕ)
    → IsValid mb
    → let (s, mb') = send mb from to (some src) (length src) in
      (s, contents mb') ≡ Queue.accept (contents mb) from to src
unfolding send Queue.accept
send-accept from to [] v = refl
send-accept from to (c ∷ src) v =
    let r = send_refines from to (c ∷ src) (length (c ∷ src)) v (omega arith) (omega arith) in
    ap₂ (λ s q. (s, q)) r.0 r.1

-- No sequence of sends and receives tells a valid mailbox from the queue of its letters: both give
-- the same statuses and letters.
pub run_refines :
    (ops : List Op) {mb : Mailbox} → IsValid mb → run mb ops ≡ Queue.run (contents mb) ops
unfolding run Queue.run
run_refines [] v = refl
run_refines (send_op from to src ∷ ops) v = rw (
  run_refines ops (send-IsValid from to src (length src) v (omega arith)),
  ← send-accept from to src v,
)
run_refines (recv_op ∷ ops) v = rw (run_refines ops (try_recv-IsValid true v), ← try_recv_refines v)
run_refines (recv_for_op agent ∷ ops) v =
    rw (run_refines ops (try_recv_for-IsValid agent true v), ← try_recv_for_refines agent v)
