-- ===== src/Agent/Mailbox/Queue.antt =====
-- What a mailbox promises: a queue of at most 256 letters, oldest first, that gives up its oldest
-- letter when it is full.
use aev_os.Common.{
  ℕ, Bool, ◌||◌, Option, none, some, List, [], ◌∷◌, ◌++◌, ltb, ◌==◌, if◌then◌else◌, length, drop,
  take, min,
}
use aev_os.Common.Errno.{Status, ok, einval, enoent}
use aev_os.Agent.Mailbox.{Message, mailbox_cap, mailbox_to_any}

-- A message as its receiver reads it: the bytes up to `len`.
pub record Letter : Type 0 where
  pub from_agent : ℕ
  pub to_agent : ℕ
  pub text : List ℕ

unfoldable pub letter_of : Message → Letter
letter_of m = record { from_agent = m.from_agent; to_agent = m.to_agent; text = take m.len m.body }

abbrev pub Queue : Type 0
Queue = List Letter

unfoldable pub push : Queue → Letter → Queue
push q x = (if ltb (length q) mailbox_cap then q else drop 1 q) ++ (x ∷ [])

unfoldable pub pop : Queue → Status × Option Letter × Queue
pop [] = (enoent, none, [])
pop (x ∷ q) = (ok, some x, q)

-- for the agent itself, or for any agent
unfoldable pub is_addressed : ℕ → Letter → Bool
is_addressed agent x = x.to_agent == mailbox_to_any || x.to_agent == agent

-- the oldest letter that the agent may take, and the others in their order
unfoldable pub pop_for : ℕ → Queue → Status × Option Letter × Queue
pop_for agent [] = (enoent, none, [])
pop_for agent (x ∷ q) =
    let (s, found, rest) = pop_for agent q in
    if is_addressed agent x then (ok, some x, q) else (s, found, x ∷ rest)

-- a client's calls: the receive functions are given an `out`
pub data Op : Type 0 where
  send_op : ℕ → ℕ → List ℕ → Op
  recv_op : Op
  recv_for_op : ℕ → Op

-- what a client sees of a call
abbrev pub Reply : Type 0
Reply = Status × Option Letter

-- `mailbox_send`: an empty message is refused, a long one is cut.
unfoldable pub accept : Queue → ℕ → ℕ → List ℕ → Status × Queue
accept q from to [] = (einval, q)
accept q from to (c ∷ src) = (
  ok,
  push q (record {
    from_agent = from;
    to_agent = to;
    text = take (min (length (c ∷ src)) 511) (c ∷ src);
  }),
)

unfoldable pub run : Queue → List Op → List Reply
run q [] = []
run q (send_op from to src ∷ ops) = let (s, q') = accept q from to src in (s, none) ∷ run q' ops
run q (recv_op ∷ ops) = let (s, x, q') = pop q in (s, x) ∷ run q' ops
run q (recv_for_op agent ∷ ops) = let (s, x, q') = pop_for agent q in (s, x) ∷ run q' ops
