-- ===== src/Sync/Dgram/Tests.antt =====
-- Tests of the datagram channel.
use aquic.Base.{ℕ, ◌≡◌, true, false, arith, done}
use aquic.Sync.Mpsc.Unbounded
use aquic.Sync.Mpsc.Weighted
use aquic.Sync.Mpmc.Oneshot
use aquic.Sync.Dgram.{
  end, Channel, failed, channel, send, try_send, recv, drop_sender, drop_receiver,
}
use aquic.Sync.Dgram.Ending.{ending_lem}

-- An item is queued.
abbrev one_queued : Channel ℕ
one_queued = (send (λ item. item) (channel 10) 4).0

ending_lem_example :
    (recv true (drop_sender false one_queued) ≡ done (drop_sender false one_queued, failed end))
    × (send (λ item. item) (drop_receiver false one_queued) 5
        ≡ (drop_receiver false one_queued, failed end))
    × (try_send (λ item. item) (drop_receiver false one_queued) 5
        ≡ (drop_receiver false one_queued, failed end))
unfolding send Oneshot.try_recv Weighted.send_round Unbounded.send
ending_lem_example = ending_lem true false (λ item. item) one_queued 5 (omega arith)
