-- ===== src/Stream/Types.antt =====
-- aquic-core/src/stream/types/{error,payload}.rs: what a stream carries, and how it ends.
--
-- `Spec` is the part of the trait of aquic-core/src/lib.rs that streams use: their types, and the weight
-- that `Estimate` gives an item. A text of a hang-up is told by where it is written.
use aquic.Base.{ℕ, Bool, true, false, Option, none, some}

pub record Spec : Type 1 where
  pub StreamItem : Type 0
  pub StreamCode : Type 0
  pub StreamEncoderError : Type 0
  pub StreamDecoderError : Type 0
  pub estimate : StreamItem → ℕ

pub data Message : Type 0 where
  error_receiver_unavailable item_sender_unavailable item_receiver_unavailable : Message
  dropped_by_panic dropped_open : Message
  other : ℕ → Message

pub data Error (S : Spec) : Type 0 where
  finish : Error S
  stop reset : S.StreamCode → Error S
  decoder : S.StreamDecoderError → Error S
  encoder : S.StreamEncoderError → Error S
  connection : Error S
  hang_up : Message → Error S

pub data Payload (T : Type 0) : Type 0 where
  item last : T → Payload T
  fin_only : Payload T

abbrev pub is_fin : {T : Type 0} → Payload T → Bool
is_fin (item t) = false
is_fin (last t) = true
is_fin fin_only = true

abbrev pub into_inner : {T : Type 0} → Payload T → Option T
into_inner (item t) = some t
into_inner (last t) = some t
into_inner fin_only = none

-- `Estimate for Payload`
abbrev pub estimate : (S : Spec) → Payload S.StreamItem → ℕ
estimate S (item t) = S.estimate t
estimate S (last t) = S.estimate t
estimate S fin_only = 0

-- `matches!(err, Error::Finish)`
abbrev pub is_finish : {S : Spec} → Error S → Bool
is_finish finish = true
is_finish (stop c) = false
is_finish (reset c) = false
is_finish (decoder e) = false
is_finish (encoder e) = false
is_finish connection = false
is_finish (hang_up m) = false
