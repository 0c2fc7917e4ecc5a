-- ===== src/Sync/Mpsc/Rpc/Tests.antt =====
-- Tests of the calls.
use aquic.Base.{ℕ, ◌≡◌, refl, true, none, some, [], ◌∷◌, done, panic}
use aquic.Sync.Mpsc.Rpc.{pending, ready, hang_up, Remote, poll, on_result, drop_callback, send, new}
use aquic.Sync.Mpsc.Rpc.Responses.{send_panics}
use aquic.Sync.Mpsc.Unbounded

abbrev fresh : Remote ℕ ℕ
fresh = new Unbounded.channel

-- Two calls wait for their responses.
abbrev waiting : Remote ℕ ℕ
waiting = record fresh { storage = some (pending none) ∷ some (pending (some 3)) ∷ [] }

send_panics_example : send fresh 5 1 ≡ panic
send_panics_example = send_panics fresh 5 1 refl

-- Outside a call the storage is free: the result is stored, and the waker is called.
on_result_run :
    on_result waiting 1 42
    ≡ done (record waiting { storage = some (pending none) ∷ some (ready 42) ∷ []; woken = 3 ∷ [] })
unfolding on_result
on_result_run = refl

drop_callback_run :
    drop_callback waiting 0
    ≡ record waiting { storage = some hang_up ∷ some (pending (some 3)) ∷ [] }
unfolding drop_callback
drop_callback_run = refl

-- The first poll of a call finds the storage borrowed.
poll_run : poll (record waiting { borrowed = true }) 1 8 ≡ panic
unfolding poll
poll_run = refl
