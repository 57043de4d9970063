-- ===== src/Agent/Mailbox/Inv.antt =====
-- The invariant of a mailbox.
use aev_os.Common.{
  ℕ, zero, suc, ◌+◌, ◌≤◌, ◌<◌, ◌≡◌, refl, Bool, Option, none, some, List, arith, length, get_or,
  set, take, drop, length-set, length-replicate, get_or-replicate, get_or-set_self, get_or-set_ne,
  length-append, length-take, length-drop, ◌==◌, true, false, ◌∷◌, Bool-cases, inl, inr, ℕ_discrete,
  ◌∙◌,
}
use aev_os.Common.Ring.{slot, slot-lt}
use aev_os.Agent.Mailbox.{
  Message, Mailbox, mailbox_cap, mailbox_msg_max, zero_message, init, copy_body, clamp_len, put,
  send, try_recv, find_off, move_up, shift, take_at, try_recv_for,
}

-- Every `body` of the ring has its 512 bytes: no write has left its array.
abbrev pub Bodies : List Message → Type 0
Bodies ring = (i : ℕ) → length (get_or ring i zero_message).body ≡ mailbox_msg_max

pub record IsValid (mb : Mailbox) : Type 0 where
  pub cells : length mb.ring ≡ mailbox_cap
  pub head_in : mb.head < mailbox_cap
  pub count_in : mb.count ≤ mailbox_cap
  pub bodies : Bodies mb.ring

length-zero_message : length zero_message.body ≡ mailbox_msg_max
unfolding zero_message
length-zero_message = length-replicate mailbox_msg_max 0

pub init-IsValid : IsValid init
unfolding init
init-IsValid = record {
  cells = length-replicate mailbox_cap zero_message;
  head_in = omega arith;
  count_in = omega arith;
  bodies = λ i. rw get_or-replicate length-zero_message;
}

Bodies-set :
    (ring : List Message) (i : ℕ) (m : Message)
    → i < length ring
    → Bodies ring
    → length m.body ≡ mailbox_msg_max
    → Bodies (set ring i m)
Bodies-set ring i m hi h hm j = elim (ℕ_discrete i j) [
  | yes e ↦ rw (← e, get_or-set_self ring i m zero_message hi) hm
  | no ne ↦ rw (get_or-set_ne ring i j m zero_message ne) (h j)
]

-- A copy fits the body, terminator included.
length-copy_body :
    (src body : List ℕ) (len : ℕ)
    → len < mailbox_msg_max
    → len ≤ length src
    → length body ≡ mailbox_msg_max
    → length (copy_body src len body) ≡ mailbox_msg_max
unfolding copy_body
length-copy_body src body len h hs e =
    rw (length-append (take len src) (0 ∷ drop (len + 1) body))
      (omega (arith, length-take len src, length-drop (len + 1) body))

pub clamp_len-lt : (len : ℕ) → clamp_len len < mailbox_msg_max
unfolding clamp_len
clamp_len-lt len = ground arith

pub clamp_len-le : (len : ℕ) → clamp_len len ≤ len
unfolding clamp_len
clamp_len-le len = ground arith

put-IsValid :
    (mb : Mailbox) (from to : ℕ) (src : List ℕ) (len : ℕ)
    → IsValid mb
    → len < mailbox_msg_max
    → len ≤ length src
    → IsValid (put mb from to src len)
unfolding put
put-IsValid mb from to src len v h hs = record {
  cells = length-set mb.ring _ _ ∙ v.cells;
  head_in = ground arith;
  count_in = ground arith;
  bodies =
      Bodies-set mb.ring _ _ (omega (arith, v.cells)) v.bodies
        (length-copy_body src _ len h hs (v.bodies (slot mailbox_cap mb.head mb.count)));
}

-- mailbox_send keeps the invariant of a valid mailbox, whatever the length, if data holds len
-- bytes: the head and the count stay in range and every body keeps its 512 bytes, so no write
-- leaves its array.
pub send-IsValid :
    {mb : Mailbox} (from to : ℕ) (src : List ℕ) (len : ℕ)
    → IsValid mb
    → len ≤ length src
    → IsValid (send mb from to (some src) len).1
unfolding send
send-IsValid {mb} from to src len v hs = elim (Bool-cases (len == 0)) [
  | inl e ↦ rw e v
  | inr e ↦ rw e (
      put-IsValid mb from to src (clamp_len len) v (clamp_len-lt len)
        (omega (arith, clamp_len-le len)))
]

pub try_recv-IsValid : {mb : Mailbox} (out : Bool) → IsValid mb → IsValid (try_recv mb out).2
unfolding try_recv
try_recv-IsValid {mb} false v = v
try_recv-IsValid {mb} true v = elim (Bool-cases (mb.count == 0)) [
  | inl e ↦ rw e v
  | inr e ↦ rw e (record {
    cells = v.cells;
    head_in = omega (arith, slot-lt mailbox_cap mb.head 1 v.head_in);
    count_in = omega (arith, v.count_in);
    bodies = v.bodies;
  })
]

length-shift : (h : ℕ) (buf : List Message) (k n : ℕ) → length (shift h buf k n) ≡ length buf
unfolding shift
length-shift h buf k zero = refl
length-shift h buf k (suc n) = length-shift h (move_up h buf k) (k + 1) n ∙ length-set buf _ _

shift-Bodies :
    (h : ℕ) (buf : List Message) (k n : ℕ)
    → length buf ≡ mailbox_cap
    → Bodies buf
    → Bodies (shift h buf k n)
unfolding shift
shift-Bodies h buf k zero e b = b
shift-Bodies h buf k (suc n) e b =
    shift-Bodies h (move_up h buf k) (k + 1) n (length-set buf _ _ ∙ e)
      (Bodies-set buf _ _ (omega arith) b (b (slot mailbox_cap h (k + 1))))

take_at-IsValid : {mb : Mailbox} (f : Option ℕ) → IsValid mb → IsValid (take_at mb f).2
unfolding take_at
take_at-IsValid none v = v
take_at-IsValid {mb} (some f) v = record {
  cells = length-shift mb.head mb.ring f _ ∙ v.cells;
  head_in = v.head_in;
  count_in = omega (arith, v.count_in);
  bodies = shift-Bodies mb.head mb.ring f _ v.cells v.bodies;
}

pub try_recv_for-IsValid :
    {mb : Mailbox} (agent : ℕ) (out : Bool) → IsValid mb → IsValid (try_recv_for mb agent out).2
unfolding try_recv_for
try_recv_for-IsValid agent false v = v
try_recv_for-IsValid {mb} agent true v = elim (Bool-cases (mb.count == 0)) [
  | inl e ↦ rw e v
  | inr e ↦ rw e (take_at-IsValid (find_off mb agent 0 mb.count) v)
]
