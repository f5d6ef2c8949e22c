-- ===== src/Usecase/Listing.antt =====
-- server/src/application/usecase/list_channels.cpp and list_messages.cpp: what a client may read.
pub mod Pages
use monash_fit1045_hd_projec.Base.{
  is_empty, ℕ, min, Bool, true, false, not, Option, none, some, List, [], ◌∷◌, ◌&&◌,
}
use monash_fit1045_hd_projec.Shared.Outcome.{
  Result, Exec, ◌>>=◌, ◌>>◌, pure, lift, gets, require, not_a_member, continue, ok, err,
}
use monash_fit1045_hd_projec.Shared.Ids.{ChannelId, ClientId, MessageId}
use monash_fit1045_hd_projec.Domain.Channel.{Channel, has_member}
use monash_fit1045_hd_projec.Domain.Message.{Message}
use monash_fit1045_hd_projec.Persistence.ChannelRepository
use monash_fit1045_hd_projec.Persistence.MessageRepository
use monash_fit1045_hd_projec.Persistence.MessageRepository.{MessageRepository}
use monash_fit1045_hd_projec.Usecase.Ports.{Server, find_channel}

-- ListChannels::execute
unfoldable pub list_channels : Server → List Channel
list_channels s = ChannelRepository.list_all s.channels

abbrev pub server_max_limit : ℕ
server_max_limit = 200

-- ListMessages::Result
pub record Page : Type 0 where
  pub messages : List Message
  pub has_more : Bool

-- !page.empty() && !listBefore(channel_id, page.front().id(), 1).empty()
unfoldable pub is_older_left : ChannelId → List Message → MessageRepository → Bool
is_older_left channel_id [] r = false
is_older_left channel_id (m ∷ ms) r =
    not (is_empty (MessageRepository.list_before channel_id m.id 1 r))

unfoldable pub fetch : ChannelId → Option MessageId → ℕ → MessageRepository → List Message
fetch channel_id none count r = MessageRepository.recent channel_id count r
fetch channel_id (some before) count r = MessageRepository.list_before channel_id before count r

unfoldable pub list_messages : ClientId → ChannelId → Option MessageId → ℕ → Exec Server Page
unfolding is_older_left fetch
list_messages client_id channel_id before_message_id limit = do
  channel ← find_channel channel_id
  lift (require (has_member client_id channel) not_a_member)
  let capped = min limit server_max_limit
  page ← gets (λ s. fetch channel_id before_message_id capped s.messages)
  has_more ← gets (λ s. is_older_left channel_id page s.messages)
  pure (record { messages = page; has_more = has_more })
