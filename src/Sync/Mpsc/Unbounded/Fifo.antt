-- ===== src/Sync/Mpsc/Unbounded/Fifo.antt =====
-- What the unbounded channel hands over, and whom it wakes (aquic-core/src/sync/mpsc/unbounded/st.rs).
use aquic.Base.{
  ℕ, zero, suc, ◌≡◌, refl, sym, ap, ◌∙◌, subst, ◌≢◌, Bool, true, false, Option, none, some, List,
  [], ◌∷◌, ◌++◌, arith, ◌==◌, if◌then◌else◌,
}
use aquic.Sync.Event.{is_linked}
use aquic.Sync.Event.Links.{is_linked-append, is_linked-single}
use aquic.Sync.Mpsc.Unbounded.{
  Shared, Received, ok, empty, closed, wake, send, drop_sender, try_recv, poll_recv, drop_receiver,
}

-- The waker that a send or the end of the senders wakes, if there is one, is appended.
abbrev woken_by : Option ℕ → List ℕ → List ℕ
woken_by none woken = woken
woken_by (some k) woken = woken ++ k ∷ []

woken_waker : (k : ℕ) (woken : List ℕ) → is_linked k (woken_by (some k) woken) ≡ true
woken_waker k woken = is_linked-append k woken (k ∷ []) ∙ rw (is_linked-single k k) (ground arith)

module _ {ℓ} {T : Type ℓ} where
  abbrev shared : List T → Option ℕ → Bool → ℕ → List ℕ → Shared T
  shared deque waker exists senders woken = record {
    deque = deque;
    receiver_waker = waker;
    receiver_exists = exists;
    senders = senders;
    woken = woken;
  }

  wake-fields :
      (deque : List T) (waker : Option ℕ) (exists : Bool) (senders : ℕ) (woken : List ℕ)
      → wake (shared deque waker exists senders woken)
        ≡ shared deque none exists senders (woken_by waker woken)
  unfolding wake
  wake-fields deque none exists senders woken = refl
  wake-fields deque (some k) exists senders woken = refl

  abbrev sent_to : Shared T → T → Shared T
  sent_to s value =
      shared (s.deque ++ value ∷ []) none s.receiver_exists s.senders
        (woken_by s.receiver_waker s.woken)

  send-fields :
      (deque : List T) (waker : Option ℕ) (exists : Bool) (senders : ℕ) (woken : List ℕ) (value : T)
      → exists ≡ true
      → send (shared deque waker exists senders woken) value
        ≡ (sent_to (shared deque waker exists senders woken) value, true)
  unfolding send
  send-fields deque waker exists senders woken value h =
      simp (h, wake-fields (deque ++ value ∷ []) waker exists senders woken) refl

  pub send-queued :
      (s : Shared T) (value : T)
      → s.receiver_exists ≡ true
      → (s' : Shared T) × (send s value ≡ (s', true))
        × (s'.deque ≡ s.deque ++ value ∷ [])
        × (s'.receiver_exists ≡ true)
  send-queued s value h = (
    sent_to s value,
    send-fields s.deque s.receiver_waker s.receiver_exists s.senders s.woken value h,
    refl,
    h,
  )

  first-fields :
      (deque : List T) (waker : Option ℕ) (exists : Bool) (senders : ℕ) (woken : List ℕ) (value : T)
      (rest : List T) (cx : ℕ)
      → deque ≡ value ∷ rest
      → (try_recv (shared deque waker exists senders woken)
          ≡ (shared rest waker exists senders woken, ok value))
        × (poll_recv (shared deque waker exists senders woken) cx
            ≡ (shared rest waker exists senders woken, ok value))
  unfolding try_recv poll_recv
  first-fields [] waker exists senders woken value rest cx e = absurd (absurd_nil e)
    where
      absurd_nil : [] ≢ value ∷ rest
      absurd_nil p = absurd cc
  first-fields (x ∷ deque) waker exists senders woken value rest cx e =
      let same : x ≡ value = cc in
      let same_rest : deque ≡ rest = cc in (rw (same, same_rest) refl, rw (same, same_rest) refl)

  none-fields :
      (deque : List T) (waker : Option ℕ) (exists : Bool) (senders : ℕ) (woken : List ℕ)
      → exists ≡ true
      → deque ≡ []
      → try_recv (shared deque waker exists senders woken)
        ≡ (shared deque waker exists senders woken, if senders == 0 then closed else empty)
  unfolding try_recv
  none-fields [] waker true senders woken h e = ground arith
  none-fields (x ∷ deque) waker exists senders woken h e = absurd (cons_nil e)
    where
      cons_nil : x ∷ deque ≢ []
      cons_nil p = absurd cc
  none-fields [] waker false senders woken h e = absurd (false_true h)
    where
      false_true : false ≢ true
      false_true p = absurd cc

  pending-none :
      (waker : Option ℕ) (senders : ℕ) (woken : List ℕ) (cx : ℕ)
      → poll_recv (shared [] waker true (suc senders) woken) cx
        ≡ (shared [] (some cx) true (suc senders) woken, empty)
  unfolding poll_recv
  pending-none waker senders woken cx = ground arith

  pending-fields :
      (deque : List T) (waker : Option ℕ) (exists : Bool) (senders : ℕ) (woken : List ℕ) (cx : ℕ)
      (s' : Shared T)
      → exists ≡ true
      → poll_recv (shared deque waker exists senders woken) cx ≡ (s', empty)
      → shared [] (some cx) true senders woken ≡ s'
  unfolding poll_recv
  pending-fields [] waker true zero woken cx s' h e = absurd cc
  pending-fields [] waker true (suc senders) woken cx s' h e =
      ap (λ (r : Shared T × Received T). r.0) (sym (pending-none waker senders woken cx) ∙ e)
  pending-fields [] waker false senders woken cx s' h e = absurd cc
  pending-fields (x ∷ deque) waker exists senders woken cx s' h e = absurd cc

  -- The channel hands over its items in the order in which they were sent: what is received is the
  -- first queued item. An empty channel is closed exactly if it has no sender.
  pub fifo_lem :
      (s : Shared T)
      → s.receiver_exists ≡ true
      → ((value : T)
          → (s' : Shared T) × (send s value ≡ (s', true)) × (s'.deque ≡ s.deque ++ value ∷ []))
        × ((value : T) (rest : List T)
            → s.deque ≡ value ∷ rest
            → (cx : ℕ)
            → (try_recv s ≡ (record s { deque = rest }, ok value))
              × (poll_recv s cx ≡ (record s { deque = rest }, ok value)))
        × (s.deque ≡ [] → try_recv s ≡ (s, if s.senders == 0 then closed else empty))
        × ((value : T) → send (drop_receiver s) value ≡ (drop_receiver s, false))
  unfolding send
  fifo_lem s h = (
    λ value. let (s', e, queued, exists) = send-queued s value h in (s', e, queued),
    λ value rest e cx.
        first-fields s.deque s.receiver_waker s.receiver_exists s.senders s.woken value rest cx e,
    λ e. none-fields s.deque s.receiver_waker s.receiver_exists s.senders s.woken h e,
    λ value. refl,
  )

  drop-fields :
      (waker : ℕ) (woken : List ℕ)
      → drop_sender (shared [] (some waker) true 1 woken)
        ≡ shared [] none true 0 (woken ++ waker ∷ [])
  unfolding drop_sender wake
  drop-fields waker woken = refl

  end-fields :
      (waker senders : ℕ) (woken : List ℕ)
      → senders ≡ 1
      → let t = drop_sender (shared [] (some waker) true senders woken) in
        (is_linked waker t.woken ≡ true) × ((try_recv t).1 ≡ closed)
  unfolding try_recv
  end-fields waker senders woken e =
      subst
        (λ n.
          let t = drop_sender (shared [] (some waker) true n woken) in
          (is_linked waker t.woken ≡ true) × ((try_recv t).1 ≡ closed))
        (sym e) (rw (drop-fields waker woken) (woken_waker waker woken, refl))

  -- A receiver that found nothing, with the waker `cx`, is woken by the next item, which it then
  -- receives, and by the end of the last sender, after which the channel is closed.
  pub pending_lem :
      (s s' : Shared T) (cx : ℕ)
      → s.receiver_exists ≡ true
      → poll_recv s cx ≡ (s', empty)
      → ((value : T)
          → (t : Shared T) × (send s' value ≡ (t, true))
            × (is_linked cx t.woken ≡ true)
            × ((try_recv t).1 ≡ ok value))
        × (s.senders ≡ 1
            → (is_linked cx (drop_sender s').woken ≡ true)
              × ((try_recv (drop_sender s')).1 ≡ closed))
  pending_lem s s' cx h e =
      let same =
        pending-fields s.deque s.receiver_waker s.receiver_exists s.senders s.woken cx s' h e in
      subst
        (λ (u : Shared T).
          ((value : T)
            → (t : Shared T) × (send u value ≡ (t, true))
              × (is_linked cx t.woken ≡ true)
              × ((try_recv t).1 ≡ ok value))
          × (s.senders ≡ 1
              → (is_linked cx (drop_sender u).woken ≡ true)
                × ((try_recv (drop_sender u)).1 ≡ closed)))
        same
        (
          λ value. (
            sent_to (shared [] (some cx) true s.senders s.woken) value,
            send-fields [] (some cx) true s.senders s.woken value refl,
            woken_waker cx s.woken,
            ap (λ (r : Shared T × Received T). r.1)
                (first-fields (value ∷ []) none true s.senders (woken_by (some cx) s.woken) value []
                  0 refl).0,
          ),
          λ one. end-fields cx s.senders s.woken one,
        )
