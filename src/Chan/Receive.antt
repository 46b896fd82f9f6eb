-- ===== src/Chan/Receive.antt =====
-- `Chan::try_recv`: what a receiver is given.
use mathlib.Core.List.{not-mem-nil}
use xtra.Prelude.{
  ℕ, suc, ◌≡◌, ◌≢◌, refl, inl, inr, Ordering, true, none, some, [], ◌∷◌, ◌++◌, arith, Perm, ◌==◌,
  update, Bool-cases,
}
use xtra.Priority.{ByPriority, by_priority_has_priority, priority, cmp}
use xtra.Priority.Order.{le_refl, lt-le, not_lt-ge}
use xtra.BinaryHeap
use xtra.BinaryHeap.{BinaryHeap}
use xtra.BinaryHeap.Laws.{Tops, Within, Pops, pop-Pops, peek-pop, popped-Within}
use xtra.Envelope.{MessageToOne, MessageToAll, to_one_has_priority, to_all_has_priority}
use xtra.Chan.State.{Deps, Chan, to_one_actor, to_all_actors}
use xtra.Chan.State
use xtra.Chan.Inner.{
  refill_unicast, pop_unicast, refill_broadcast, pop_broadcast, popped_broadcast,
  longest_broadcast_queue,
}
use xtra.Chan.Methods.{
  Received, received, waiting, shared_priority, broadcast_priority, choose, unwrap_unicast,
  unwrap_broadcast, wait_or_exit, try_recv,
}

module _ {M : Type 0} {D : Deps M} (c : Chan D) (b : ℕ) where
  -- The two mailboxes that a receiver takes its messages from.
  abbrev unicasts : BinaryHeap (ByPriority (MessageToOne M))
  unicasts = c.unicast_queue

  abbrev broadcasts : BinaryHeap (ByPriority (MessageToAll M))
  broadcasts = (c.mailboxes b).queue

  pub data Gives (r : Received M × Chan D) : Type 0 where
    -- a message for one actor, which nothing in either mailbox outranks
    gives_unicast :
        (msg : ByPriority (MessageToOne M)) (rest : BinaryHeap (ByPriority (MessageToOne M)))
        → Perm (BinaryHeap.to_list unicasts) (msg ∷ BinaryHeap.to_list rest)
        → Within (priority msg) (BinaryHeap.to_list unicasts)
        → Within (priority msg) (BinaryHeap.to_list broadcasts)
        → r ≡ (
          received (to_one_actor msg.content),
          refill_unicast (record c { unicast_queue = rest }),
        )
        → Gives r
    -- a broadcast message, likewise
    gives_broadcast :
        (msg : ByPriority (MessageToAll M)) (rest : BinaryHeap (ByPriority (MessageToAll M)))
        → Perm (BinaryHeap.to_list broadcasts) (msg ∷ BinaryHeap.to_list rest)
        → Within (priority msg) (BinaryHeap.to_list unicasts)
        → Within (priority msg) (BinaryHeap.to_list broadcasts)
        → r ≡ (
          received (to_all_actors msg.content),
          refill_broadcast (record (popped_broadcast c b rest) {
            broadcast_tail = longest_broadcast_queue (popped_broadcast c b rest);
          }),
        )
        → Gives r
    -- both are empty and there are no senders: the receiver is to stop
    gives_shutdown :
        BinaryHeap.to_list unicasts ≡ []
        → BinaryHeap.to_list broadcasts ≡ []
        → c.sender_count ≡ 0
        → r ≡ (received State.shutdown, c)
        → Gives r
    -- both are empty, and the receiver is the last in the line of those that wait
    gives_wait :
        BinaryHeap.to_list unicasts ≡ []
        → BinaryHeap.to_list broadcasts ≡ []
        → c.sender_count ≢ 0
        → r ≡ (
          waiting c.next_slot,
          record c {
            slots = update c.slots c.next_slot D.oneshot.fresh;
            next_slot = suc c.next_slot;
            waiting_receivers_handles = c.waiting_receivers_handles ++ c.next_slot ∷ [];
          },
        )
        → Gives r

  wait_or_exit-Gives :
      BinaryHeap.to_list unicasts ≡ [] → BinaryHeap.to_list broadcasts ≡ [] → Gives (wait_or_exit c)
  unfolding wait_or_exit
  wait_or_exit-Gives e f = elim (Bool-cases (c.sender_count == 0)) [
    | inl z ↦ gives_shutdown e f (ground arith) (rw z)
    | inr z ↦ gives_wait e f (ground arith) (rw z)
  ]

  shared-none : BinaryHeap.pop unicasts ≡ none → shared_priority c ≡ none
  unfolding shared_priority
  shared-none e = rw (peek-pop unicasts, e)

  shared-some :
      (m : ByPriority (MessageToOne M)) (rest : BinaryHeap (ByPriority (MessageToOne M)))
      → BinaryHeap.pop unicasts ≡ some (m, rest)
      → shared_priority c ≡ some (priority m)
  unfolding shared_priority
  shared-some m rest e = rw (peek-pop unicasts, e)

  broadcast-none : BinaryHeap.pop broadcasts ≡ none → broadcast_priority c b ≡ none
  unfolding broadcast_priority
  broadcast-none e = rw (peek-pop broadcasts, e)

  broadcast-some :
      (m : ByPriority (MessageToAll M)) (rest : BinaryHeap (ByPriority (MessageToAll M)))
      → BinaryHeap.pop broadcasts ≡ some (m, rest)
      → broadcast_priority c b ≡ some (priority m)
  unfolding broadcast_priority
  broadcast-some m rest e = rw (peek-pop broadcasts, e)

  unicast-Gives :
      (m : ByPriority (MessageToOne M)) (rest : BinaryHeap (ByPriority (MessageToOne M)))
      → BinaryHeap.pop unicasts ≡ some (m, rest)
      → Perm (BinaryHeap.to_list unicasts) (m ∷ BinaryHeap.to_list rest)
      → Tops m (BinaryHeap.to_list rest)
      → Within (priority m) (BinaryHeap.to_list broadcasts)
      → Gives (unwrap_unicast (pop_unicast c))
  unfolding unwrap_unicast pop_unicast
  unicast-Gives m rest s perm tops others =
      gives_unicast m rest perm
        (popped-Within (BinaryHeap.to_list unicasts) m (BinaryHeap.to_list rest) (priority m) perm
          tops (le_refl (priority m)))
        others (rw (s, pop_unicast))

  broadcast-Gives :
      (m : ByPriority (MessageToAll M)) (rest : BinaryHeap (ByPriority (MessageToAll M)))
      → BinaryHeap.pop broadcasts ≡ some (m, rest)
      → Perm (BinaryHeap.to_list broadcasts) (m ∷ BinaryHeap.to_list rest)
      → Tops m (BinaryHeap.to_list rest)
      → Within (priority m) (BinaryHeap.to_list unicasts)
      → Gives (unwrap_broadcast (pop_broadcast c b))
  unfolding unwrap_broadcast pop_broadcast
  broadcast-Gives m rest s perm tops others =
      gives_broadcast m rest perm others
        (popped-Within (BinaryHeap.to_list broadcasts) m (BinaryHeap.to_list rest) (priority m) perm
          tops (le_refl (priority m)))
        (rw (s, pop_broadcast))

  -- Both mailboxes have a message: the order of the greatest ones decides.
  both-Gives :
      (m : ByPriority (MessageToOne M)) (rest : BinaryHeap (ByPriority (MessageToOne M)))
      (m' : ByPriority (MessageToAll M)) (rest' : BinaryHeap (ByPriority (MessageToAll M)))
      → BinaryHeap.pop unicasts ≡ some (m, rest)
      → Perm (BinaryHeap.to_list unicasts) (m ∷ BinaryHeap.to_list rest)
      → Tops m (BinaryHeap.to_list rest)
      → BinaryHeap.pop broadcasts ≡ some (m', rest')
      → Perm (BinaryHeap.to_list broadcasts) (m' ∷ BinaryHeap.to_list rest')
      → Tops m' (BinaryHeap.to_list rest')
      → (o : Ordering) → cmp (priority m) (priority m') ≡ o
      → Gives (choose o true c b)
  unfolding choose
  both-Gives m rest m' rest' s perm tops s' perm' tops' Ordering.lt e =
      broadcast-Gives m' rest' s' perm' tops' (
        popped-Within _ m (BinaryHeap.to_list rest) (priority m') perm tops
          (lt-le (priority m) (priority m') e))
  both-Gives m rest m' rest' s perm tops s' perm' tops' Ordering.eq e =
      unicast-Gives m rest s perm tops (
        popped-Within _ m' (BinaryHeap.to_list rest') (priority m) perm' tops'
          (not_lt-ge (priority m) (priority m') (λ f. cc)))
  both-Gives m rest m' rest' s perm tops s' perm' tops' Ordering.gt e =
      unicast-Gives m rest s perm tops (
        popped-Within _ m' (BinaryHeap.to_list rest') (priority m) perm' tops'
          (not_lt-ge (priority m) (priority m') (λ f. cc)))

  Gives-of :
      Pops (BinaryHeap.to_list unicasts) (BinaryHeap.pop unicasts)
      → Pops (BinaryHeap.to_list broadcasts) (BinaryHeap.pop broadcasts)
      → Gives (try_recv c b)
  unfolding try_recv choose
  Gives-of (inl (e, n)) (inl (e', n')) =
      rw (shared-none n, broadcast-none n') (wait_or_exit-Gives e e')
  Gives-of (inr (m, rest, s, perm, tops, l)) (inl (e', n')) =
      rw (shared-some m rest s, broadcast-none n')
        (unicast-Gives m rest s perm tops (rw e' (λ x mem. absurd (not-mem-nil mem))))
  Gives-of (inl (e, n)) (inr (m', rest', s', perm', tops', l')) =
      rw (shared-none n, broadcast-some m' rest' s')
        (broadcast-Gives m' rest' s' perm' tops' (rw e (λ x mem. absurd (not-mem-nil mem))))
  Gives-of (inr (m, rest, s, perm, tops, l)) (inr (m', rest', s', perm', tops', l')) =
      rw (shared-some m rest s, broadcast-some m' rest' s')
        (both-Gives m rest m' rest' s perm tops s' perm' tops' (cmp (priority m) (priority m'))
          refl)

  -- A receiver is given a message that none in its two mailboxes outranks, and that message leaves
  -- them; it is told to stop only when both are empty and there are no senders, and it waits, as the
  -- last in the line, only when both are empty and there are senders. No `unwrap` fails.
  pub try_recv-Gives : Gives (try_recv c b)
  try_recv-Gives = Gives-of (pop-Pops unicasts) (pop-Pops broadcasts)
