-- ===== src/Usecase/SendMessage.antt =====
-- server/src/application/usecase/send_message.cpp: a member sends a message to a channel. `drawn`
-- and `now` are what MessageId::generate and the system clock return.
pub mod Effect
use monash_fit1045_hd_projec.Base.{ℕ, Text, List, [], ◌∷◌}
use monash_fit1045_hd_projec.Shared.Outcome.{
  Exec, ◌>>=◌, ◌>>◌, pure, lift, modify, require, not_a_member, continue, ok, err,
}
use monash_fit1045_hd_projec.Shared.Ids.{ChannelId, ClientId, MessageId}
use monash_fit1045_hd_projec.Domain.MessageContent
use monash_fit1045_hd_projec.Domain.Channel.{Channel, has_member}
use monash_fit1045_hd_projec.Domain.Message.{Message}
use monash_fit1045_hd_projec.Domain.MessageRouter.{EchoPolicy, recipients_for}
use monash_fit1045_hd_projec.Usecase.Ports.{
  Server, find_client, find_channel, save_message, publish_message,
}

-- for (recipient : recipients) publisher_->publish(recipient, message)
unfoldable pub publish_each : List ClientId → Message → Server → Server
publish_each [] message s = s
publish_each (recipient ∷ rest) message s =
    publish_each rest message (publish_message recipient message s)

unfoldable pub execute :
    ClientId → ChannelId → Text → EchoPolicy → MessageId → ℕ → Exec Server MessageId
execute sender_id channel_id content echo_policy drawn now = do
  sender ← find_client sender_id
  channel ← find_channel channel_id
  lift (require (has_member sender_id channel) not_a_member)
  validated_content ← lift (MessageContent.create content)
  let message : Message = record {
    id = drawn;
    sender_id = sender_id;
    channel_id = channel_id;
    content = validated_content;
    sent_at = now;
  }
  save_message message
  modify (publish_each (recipients_for channel message echo_policy) message)
  pure drawn
