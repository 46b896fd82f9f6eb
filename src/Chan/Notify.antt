-- ===== src/Chan/Notify.antt =====
-- The loops of xtra/src/chan.rs that notify every waiting receiver.
use xtra.Prelude.{
  ℕ, ◌≡◌, refl, ap, ◌∙◌, ◌⊎◌, inl, inr, false, List, [], ◌∷◌, All, All-mono, ◌==◌, ==_iff, update,
  Bool-cases,
}
use xtra.Deps.{Oneshot, Look, open_look, holding, closed, hung_up, after_send}
use xtra.WaitingReceiver.{
  CtrlMsg, shutdown, new_broadcast, notify_channel_shutdown, notify_new_broadcast,
}
use xtra.Chan.State.{Deps}
use xtra.Chan.Inner.{notify_each}

after_send-twice :
    {T : Type 0} (l : Look T) (t : T) → after_send (after_send l t) t ≡ after_send l t
after_send-twice open_look t = refl
after_send-twice (holding u) t = refl
after_send-twice closed t = refl
after_send-twice hung_up t = refl

module _ {M : Type 0} (O : Oneshot (CtrlMsg M)) where
  pub notify_channel_shutdown-look :
      (s : O.State) → O.look (notify_channel_shutdown O s) ≡ after_send (O.look s) shutdown
  unfolding notify_channel_shutdown
  notify_channel_shutdown-look s = O.send-look s shutdown

  pub notify_new_broadcast-look :
      (s : O.State) → O.look (notify_new_broadcast O s) ≡ after_send (O.look s) new_broadcast
  unfolding notify_new_broadcast
  notify_new_broadcast-look s = O.send-look s new_broadcast

module _ {M : Type 0} (D : Deps M) (f : D.oneshot.State → D.oneshot.State) (t : CtrlMsg M)
    (sends : (s : D.oneshot.State) → D.oneshot.look (f s) ≡ after_send (D.oneshot.look s) t) where
  open D use {oneshot}

  after_one :
      (slots : ℕ → oneshot.State) (rx i : ℕ)
      → (oneshot.look (update slots rx (f (slots rx)) i) ≡ oneshot.look (slots i))
        ⊎ (oneshot.look (update slots rx (f (slots rx)) i) ≡ after_send (oneshot.look (slots i)) t)
  after_one slots rx i = elim (Bool-cases (rx == i)) [
    | inl e ↦ inr (
        rw e
          (sends (slots rx) ∙ ap (λ x. after_send (oneshot.look (slots x)) t) ((==_iff rx i).0 e)))
    | inr e ↦ inl (rw e)
  ]

  notify_each-keeps :
      (handles : List ℕ) (slots : ℕ → oneshot.State) (i : ℕ) (l : Look (CtrlMsg M))
      → after_send l t ≡ l
      → oneshot.look (slots i) ≡ l
      → oneshot.look (notify_each D f handles slots i) ≡ l
  unfolding notify_each
  notify_each-keeps [] slots i l stays e = e
  notify_each-keeps (rx ∷ rest) slots i l stays e =
      notify_each-keeps rest _ i l stays (elim (after_one slots rx i) [
        | inl same ↦ same ∙ e
        | inr sent ↦ sent ∙ ap (λ x. after_send x t) e ∙ stays
      ])

  -- Each receiver in the line has been sent `t`.
  pub notify_each-All :
      (handles : List ℕ) (slots : ℕ → oneshot.State)
      → All
          (λ rx.
            oneshot.look (notify_each D f handles slots rx)
            ≡ after_send (oneshot.look (slots rx)) t)
          handles
  unfolding notify_each
  notify_each-All [] slots = tt
  notify_each-All (rx ∷ rest) slots = (
    notify_each-keeps rest _ rx (after_send (oneshot.look (slots rx)) t)
        (after_send-twice (oneshot.look (slots rx)) t)
        (rw ((==_iff rx rx).1 refl) (sends (slots rx))),
    All-mono _ _ rest
        (λ y e. elim (after_one slots rx y) [
          | inl same ↦ e ∙ ap (λ x. after_send x t) same
          | inr sent ↦
              e ∙ ap (λ x. after_send x t) sent ∙ after_send-twice (oneshot.look (slots y)) t
        ])
        (notify_each-All rest (update slots rx (f (slots rx)))),
  )

  -- The receivers that are not in the line are left alone.
  pub notify_each-apart :
      (handles : List ℕ) (slots : ℕ → oneshot.State) (i : ℕ)
      → All (λ rx. (rx == i) ≡ false) handles
      → notify_each D f handles slots i ≡ slots i
  unfolding notify_each
  notify_each-apart [] slots i apart = refl
  notify_each-apart (rx ∷ rest) slots i apart = notify_each-apart rest _ i apart.1 ∙ rw (apart.0)
