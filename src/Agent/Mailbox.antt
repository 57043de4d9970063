-- ===== src/Agent/Mailbox.antt =====
-- src/agent/mailbox.c: the message ring that agents share.
-- Each function runs under `mb->lock`, so a call is one step on the mailbox. A mailbox is passed by
-- value: a null `mb` has no counterpart. A null `data` is `none`; `out` says whether `out` is given.
pub mod Queue
pub mod Inv
pub mod Refine
mod Tests
use aev_os.Common.{
  ℕ, zero, suc, ◌+◌, ◌-◌, ◌%◌, ◌^◌, Bool, true, false, not, ◌||◌, Option, none, some, List, [], ◌∷◌,
  ◌++◌, ltb, leb, ◌==◌, if◌then◌else◌, get_or, set, take, drop, replicate, length, min,
}
use aev_os.Common.Errno.{Status, ok, einval, enoent}
use aev_os.Common.Ring.{slot}

-- `mailbox_msg_t`; `body` is the whole `char[MAILBOX_MSG_MAX]`.
pub record Message : Type 0 where
  pub body : List ℕ
  pub len : ℕ
  pub from_agent : ℕ
  pub to_agent : ℕ

-- `mailbox_t`, without its lock
pub record Mailbox : Type 0 where
  pub ring : List Message
  pub head : ℕ
  pub count : ℕ

abbrev pub mailbox_cap : ℕ
mailbox_cap = 256

abbrev pub mailbox_msg_max : ℕ
mailbox_msg_max = 512

abbrev pub mailbox_to_any : ℕ
mailbox_to_any = 0

-- a message of zero bytes
pub zero_message : Message
zero_message = record { body = replicate mailbox_msg_max 0; len = 0; from_agent = 0; to_agent = 0 }

pub init : Mailbox
init = record { ring = replicate mailbox_cap zero_message; head = 0; count = 0 }

-- `memcpy(body, src, len); body[len] = 0`: the bytes behind the terminator stay.
pub copy_body : List ℕ → ℕ → List ℕ → List ℕ
copy_body src len body = take len src ++ (0 ∷ drop (len + 1) body)

-- `len` is cut so that the terminator fits.
pub clamp_len : ℕ → ℕ
clamp_len len = if ltb (mailbox_msg_max - 1) len then mailbox_msg_max - 1 else len

-- The write of one message into the next slot; a full ring gives up its oldest message.
pub put : Mailbox → ℕ → ℕ → List ℕ → ℕ → Mailbox
unfolding copy_body
put mb from to src len =
    let i = slot mailbox_cap mb.head mb.count in
    let full = not (ltb mb.count mailbox_cap) in
    let old = get_or mb.ring i zero_message in
    record {
      ring = set mb.ring i (record {
        body = copy_body src len old.body;
        len = len;
        from_agent = from;
        to_agent = to;
      });
      head = if full then slot mailbox_cap mb.head 1 else mb.head;
      count = if full then mb.count else mb.count + 1;
    }

pub send : Mailbox → ℕ → ℕ → Option (List ℕ) → ℕ → Status × Mailbox
send mb from to none len = (einval, mb)
send mb from to (some src) len =
    if len == 0 then (einval, mb) else (ok, put mb from to src (clamp_len len))

pub broadcast : Mailbox → ℕ → Option (List ℕ) → ℕ → Status × Mailbox
broadcast mb from src len = send mb from mailbox_to_any src len

pub try_recv : Mailbox → Bool → Status × Option Message × Mailbox
try_recv mb out =
    if not out then (einval, none, mb) else if mb.count == 0 then (enoent, none, mb) else (
      ok,
      some (get_or mb.ring mb.head zero_message),
      record mb { head = slot mailbox_cap mb.head 1; count = mb.count - 1 },
    )

-- the test of the search loop
pub is_for : ℕ → Message → Bool
is_for agent m = m.to_agent == mailbox_to_any || m.to_agent == agent

-- `for (i = 0; i < n; i++)`: offset `i`, with `rounds` left
pub find_off : Mailbox → ℕ → ℕ → ℕ → Option ℕ
find_off mb agent i zero = none
find_off mb agent i (suc rounds) =
    if is_for agent (get_or mb.ring (slot mailbox_cap mb.head i) zero_message)
    then some i
    else find_off mb agent (i + 1) rounds

-- `ring[dst] = ring[src]`
abbrev pub move_up : ℕ → List Message → ℕ → List Message
move_up h buf k =
    set buf (slot mailbox_cap h k) (get_or buf (slot mailbox_cap h (k + 1)) zero_message)

-- `for (k = found_off; k + 1 < n; k++)`, with `rounds` left
pub shift : ℕ → List Message → ℕ → ℕ → List Message
shift h buf k zero = buf
shift h buf k (suc rounds) = shift h (move_up h buf k) (k + 1) rounds

-- what `mailbox_try_recv_for` does with the offset that the search found
pub take_at : Mailbox → Option ℕ → Status × Option Message × Mailbox
take_at mb none = (enoent, none, mb)
take_at mb (some f) = (
  ok,
  some (get_or mb.ring (slot mailbox_cap mb.head f) zero_message),
  record mb { ring = shift mb.head mb.ring f (mb.count - 1 - f); count = mb.count - 1 },
)

pub try_recv_for : Mailbox → ℕ → Bool → Status × Option Message × Mailbox
try_recv_for mb agent out =
    if not out
    then (einval, none, mb)
    else if mb.count == 0
    then (enoent, none, mb)
    else take_at mb (find_off mb agent 0 mb.count)
