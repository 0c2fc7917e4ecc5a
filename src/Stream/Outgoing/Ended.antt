-- ===== src/Stream/Outgoing/Ended.antt =====
-- `recv_from_app` of aquic-core/src/stream/outgoing.rs, once the application has finished the direction.
use aquic.Base.{
  ℕ, suc, ◌<◌, ◌≡◌, refl, ap, ◌∙◌, Bool, true, false, Option, none, some, List, ◌∷◌, if◌then◌else◌,
  length, Outcome, done, panic, ◌>>=◌,
}
use aquic.Stream.Types.{Spec, Error, finish, hang_up, Payload, is_fin}
use aquic.Stream.Bridge.{unexpected_error}
use aquic.Sync.Mpsc.Weighted.Flow.{IsChannel}
use aquic.Sync.Stream.{Channel, Answer, ready, failed, recv, try_recv}
use aquic.Sync.Stream.Closing.{IsClosed}
use aquic.Sync.Stream.Draining.{drain_lem}
use aquic.Stream.Outgoing.{
  EncoderApi, Outgoing, recv_error, encode_payload, after_receive, recv_item, continue, recv_more,
  recv_from_app,
}
use aquic.Stream.Outgoing.Items.{more_goes, app_goes}

module _ {S : Spec} {C : EncoderApi S} where
  first-item :
      (debug : Bool) (s : Outgoing S C) (enc : C.Encoder) (c' : Channel S)
      (payload : Payload S.StreamItem)
      → s.stream_finished ≡ false
      → s.encoder ≡ some enc
      → recv debug s.items ≡ done (c', ready payload)
      → recv_item debug true s
        ≡ done (encode_payload (record s { items = c' }) (C.encode enc payload) (is_fin payload))
  unfolding recv_item after_receive
  first-item debug s enc c' payload running there e = simp (running, there, e) refl

  second-item :
      (debug : Bool) (s : Outgoing S C) (enc : C.Encoder) (c' : Channel S) (e : Error S)
      → s.stream_finished ≡ false
      → s.encoder ≡ some enc
      → try_recv debug s.items ≡ done (c', failed e)
      → recv_item debug false s
        ≡ (recv_error debug e >>= (λ e'. done (record s { items = c' }, failed e')))
  unfolding recv_item after_receive
  second-item debug s enc c' e running there tried =
      cut s.stream_finished running s.encoder there tried
    where
      cut :
          (b : Bool)
          → b ≡ false
          → (o : Option C.Encoder) → o ≡ some enc
          → try_recv debug s.items ≡ done (c', failed e)
          → (let keep : Outcome (Outgoing S C × Answer S Bool) = done (s, ready false) in
              if b then keep else elim o [
                | none ↦ keep
                | some enc' ↦
                    (if false then recv debug s.items else try_recv debug s.items)
                    >>= after_receive debug false s enc'
              ])
            ≡ (recv_error debug e >>= (λ e'. done (record s { items = c' }, failed e')))
      cut b eb o eo et = rw (eb, eo, et) refl

  -- The two rounds: what is left of them is the error of the second one.
  two_rounds :
      (debug : Bool) (s : Outgoing S C) (enc : C.Encoder) (payload : Payload S.StreamItem)
      (weight : ℕ) (rest : List (Payload S.StreamItem × ℕ))
      → IsClosed finish s.items
      → 0 < s.items.errors.receiver_count
      → IsChannel s.items.items
      → s.stream_finished ≡ false
      → s.encoder ≡ some enc
      → s.items.items.queue.deque ≡ (payload, weight) ∷ rest
      → is_fin payload ≡ false
      → (C.encode enc payload).1 ≡ none
      → C.should_flush (C.encode enc payload).0 ≡ false
      → (s' : Outgoing S C) × (recv_from_app debug s ≡ (
          recv_error debug finish
          >>= (λ e'. done (s', failed e'))
          >>= continue (recv_more (length s.items.items.queue.deque) debug)))
        × (s'.items.items.queue.deque ≡ rest)
  unfolding encode_payload
  two_rounds debug s enc payload weight rest shut some_receiver v running there first more_to_come
        fine no_flush =
      let (items, e, r) =
        (drain_lem debug s.items shut some_receiver v).0 payload weight rest first in
      let c1 : Channel S = record s.items { items = items } in
      let next = record s { items = c1 } in
      let enc' = (C.encode enc payload).0 in
      let s1 : Outgoing S C = record s {
        encoder = some enc';
        items = c1;
        stream_finished = false;
      } in
      let n = length s.items.items.queue.deque in
      let encoded : encode_payload next (C.encode enc payload) (is_fin payload) ≡ (s1, ready true) =
        ap (λ fin. encode_payload next (C.encode enc payload) fin) more_to_come
        ∙ ap (λ answer. encode_payload next (enc', answer) false) fine in
      let second =
        second-item debug s1 enc' c1 finish refl refl
          (drain_lem debug c1 shut some_receiver r.sound).2 in
      (
        s1,
        app_goes debug s running
            ∙ ap (λ o. o >>= continue (recv_more (suc n) debug))
                (first-item debug s enc c1 payload running there e ∙ ap (λ x. done x) encoded)
            ∙ more_goes n debug s1 enc' refl refl no_flush
            ∙ ap (λ o. o >>= continue (recv_more n debug)) second,
        r.queued,
      )

  -- The application has queued some items, of which the first is not the end, and has finished the
  -- direction. The task takes the first item; if the encoder encodes it and does not want to be flushed,
  -- the next round hits the end of the channel, although the rest is queued: a debug build panics, and
  -- in a release build `recv_from_app` fails with a hang-up, with the rest still in the queue.
  pub finished_early_lem :
      (s : Outgoing S C) (enc : C.Encoder) (payload : Payload S.StreamItem) (weight : ℕ)
      (rest : List (Payload S.StreamItem × ℕ))
      → IsClosed finish s.items
      → 0 < s.items.errors.receiver_count
      → IsChannel s.items.items
      → s.stream_finished ≡ false
      → s.encoder ≡ some enc
      → s.items.items.queue.deque ≡ (payload, weight) ∷ rest
      → is_fin payload ≡ false
      → (C.encode enc payload).1 ≡ none
      → C.should_flush (C.encode enc payload).0 ≡ false
      → (recv_from_app true s ≡ panic)
        × ((s' : Outgoing S C) × (recv_from_app false s
              ≡ done (s', failed (hang_up unexpected_error)))
            × (s'.items.items.queue.deque ≡ rest))
  unfolding recv_error
  finished_early_lem s enc payload weight rest shut some_receiver v running there first more_to_come
        fine no_flush =
      let rounds = λ (debug : Bool).
        two_rounds debug s enc payload weight rest shut some_receiver v running there first
          more_to_come fine no_flush in
      let (s', e, q) = rounds false in ((rounds true).1, (s', e, q))
