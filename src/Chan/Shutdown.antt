-- ===== src/Chan/Shutdown.antt =====
-- How a channel of xtra/src/chan.rs ends: the last receiver or the last sender is dropped.
use xtra.Prelude.{
  ℕ, ◌≡◌, refl, ◌⊎◌, inl, inr, true, false, [], arith, All, ◌==◌, ==_iff, Bool-cases,
}
use xtra.Std.{wrapping_dec}
use xtra.BinaryHeap
use xtra.BinaryHeap.{BinaryHeap}
use xtra.BinaryHeap.Laws.{to_list-empty}
use xtra.Deps.{after_send}
use xtra.WaitingReceiver.{shutdown, notify_channel_shutdown}
use xtra.WaitingQueue.Invariant.{IsWellFormed}
use xtra.WaitingQueue.Close.{IsPending, IsClosed, clear-IsClosed, clear-IsPending}
use xtra.Chan.State.{Deps, Chan}
use xtra.Chan.Notify.{notify_each-All, notify_channel_shutdown-look}
use xtra.Chan.Methods.{
  on_receiver_dropped, on_sender_dropped, shutdown_waiting_receivers, shutdown_waiting_senders,
  is_connected,
}

module _ {M : Type 0} {D : Deps M} where
  open D use {oneshot, events}

  -- What is left of `c` when its last receiver is gone.
  pub record IsAbandoned (c d : Chan D) : Type 0 where
    pub disconnected : is_connected d ≡ false
    pub senders : d.sender_count ≡ c.sender_count
    pub unicasts : BinaryHeap.to_list d.unicast_queue ≡ []
    pub broadcasts : d.broadcast_queues ≡ []
    pub to_one : d.waiting_send_to_one.handles ≡ []
    pub to_one_closed :
        (h : ℕ)
        → IsPending (c.waiting_send_to_one.cells h)
        → IsClosed (d.waiting_send_to_one.cells h)
    pub to_all : d.waiting_send_to_all.handles ≡ []
    pub to_all_closed :
        (h : ℕ)
        → IsPending (c.waiting_send_to_all.cells h)
        → IsClosed (d.waiting_send_to_all.cells h)
    pub notified :
        (i : ℕ) → events.listening c.on_shutdown i ≡ true → events.notified d.on_shutdown i ≡ true

  -- What is left of `c` when its last sender is gone.
  pub record IsOrphaned (c d : Chan D) : Type 0 where
    pub disconnected : is_connected d ≡ false
    pub receivers : d.receiver_count ≡ c.receiver_count
    pub none_waits : d.waiting_receivers_handles ≡ []
    pub told :
        All
          (λ rx. oneshot.look (d.slots rx) ≡ after_send (oneshot.look (c.slots rx)) shutdown)
          c.waiting_receivers_handles
    pub unicasts : d.unicast_queue ≡ c.unicast_queue
    pub mailboxes : d.mailboxes ≡ c.mailboxes
    pub unnotified : d.on_shutdown ≡ c.on_shutdown

  no_senders-is_connected : (c : Chan D) → c.sender_count ≡ 0 → is_connected c ≡ false
  unfolding is_connected
  no_senders-is_connected c e = ground (arith, e)

  -- When the last receiver is dropped, the channel is not connected any more, its mailboxes are empty,
  -- every sender that is pending and every listener learns that it is disconnected. When any other
  -- receiver is dropped, nothing but the count changes.
  pub on_receiver_dropped-IsAbandoned :
      (c : Chan D)
      → IsWellFormed c.waiting_send_to_one
      → IsWellFormed c.waiting_send_to_all
      → ((c.receiver_count ≡ 1) × IsAbandoned c (on_receiver_dropped c))
        ⊎ (((c.receiver_count == 1) ≡ false)
            × (on_receiver_dropped c ≡ record c { receiver_count = wrapping_dec c.receiver_count }))
  unfolding on_receiver_dropped shutdown_waiting_senders is_connected
  on_receiver_dropped-IsAbandoned c w w' = elim (Bool-cases (c.receiver_count == 1)) [
    | inl e ↦
        let last : c.receiver_count ≡ 1 = (==_iff c.receiver_count 1).0 e in
        inl (
          last,
          rw e (record {
            disconnected = rw last refl;
            senders = refl;
            unicasts = to_list-empty _;
            broadcasts = refl;
            to_one = (clear-IsClosed c.waiting_send_to_one w).0;
            to_one_closed = λ h k. clear-IsPending c.waiting_send_to_one h w k;
            to_all = (clear-IsClosed c.waiting_send_to_all w').0;
            to_all_closed = λ h k. clear-IsPending c.waiting_send_to_all h w' k;
            notified = λ i l. (events.notify_all-notified c.on_shutdown i l).1;
          }),
        )
    | inr e ↦ inr (e, rw e refl)
  ]

  -- When the last sender is dropped, the channel is not connected any more, and every receiver that
  -- waited is told to shut down; the messages in the mailboxes stay, and no listener is notified. When
  -- any other sender is dropped, nothing but the count changes.
  pub on_sender_dropped-IsOrphaned :
      (c : Chan D)
      → ((c.sender_count ≡ 1) × IsOrphaned c (on_sender_dropped c))
        ⊎ (((c.sender_count == 1) ≡ false)
            × (on_sender_dropped c ≡ record c { sender_count = wrapping_dec c.sender_count }))
  unfolding on_sender_dropped shutdown_waiting_receivers is_connected
  on_sender_dropped-IsOrphaned c = elim (Bool-cases (c.sender_count == 1)) [
    | inl e ↦
        let fewer : Chan D = record c { sender_count = wrapping_dec c.sender_count } in
        let last : c.sender_count ≡ 1 = (==_iff c.sender_count 1).0 e in
        inl (
          last,
          rw e (record {
            disconnected =
                no_senders-is_connected (shutdown_waiting_receivers fewer) (rw last refl);
            receivers = refl;
            none_waits = refl;
            told =
                notify_each-All D (notify_channel_shutdown oneshot) shutdown
                  (notify_channel_shutdown-look oneshot) c.waiting_receivers_handles c.slots;
            unicasts = refl;
            mailboxes = refl;
            unnotified = refl;
          }),
        )
    | inr e ↦ inr (e, rw e refl)
  ]
