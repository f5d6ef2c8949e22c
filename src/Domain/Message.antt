-- ===== src/Domain/Message.antt =====
-- server/include/bcmd/server/domain/model/message.hpp: an immutable message.
use monash_fit1045_hd_projec.Base.{ℕ, Text}
use monash_fit1045_hd_projec.Shared.Ids.{ChannelId, ClientId, MessageId}

pub record Message : Type 0 where
  pub id : MessageId
  pub sender_id : ClientId
  pub channel_id : ChannelId
  pub content : Text
  pub sent_at : ℕ
