-- ===== src/Service/Requests/Interference.antt =====
-- server/src/adapter/grpc/broadcast_service_impl.cpp: what a request of one client leaves to the others.
pub mod Moves
pub mod Reads
pub mod Others
use monash_fit1045_hd_projec.Base.{
  ◌⊎◌, ℕ, ◌≡◌, refl, sym, ap, ◌∙◌, subst, inl, inr, Bool, true, false, not, ◌&&◌, Option, none,
  some, arith, Text, ◌==◌, eq_iff, if◌then◌else◌, Option-cases, Bool-cases,
}
use monash_fit1045_hd_projec.Containers.Map
use monash_fit1045_hd_projec.Shared.Outcome.{Result, ok, err, Result-cases, pure, continue}
use monash_fit1045_hd_projec.Shared.StringUtils.{trim}
use monash_fit1045_hd_projec.Shared.Ids.{UuidLib, ChannelId, ClientId, parse}
use monash_fit1045_hd_projec.Domain.Username
use monash_fit1045_hd_projec.Domain.ChannelName
use monash_fit1045_hd_projec.Domain.ClientSession
use monash_fit1045_hd_projec.Domain.MessageRouter.{include_sender}
use monash_fit1045_hd_projec.Persistence.ChannelRepository
use monash_fit1045_hd_projec.Persistence.ChannelRepository.{is_member}
use monash_fit1045_hd_projec.Persistence.ClientRegistry
use monash_fit1045_hd_projec.Persistence.ClientRegistry.{
  ClientRegistry, register_client, touch_heartbeat,
}
use monash_fit1045_hd_projec.Persistence.ClientRegistry.Memberships.{is_connected}
use monash_fit1045_hd_projec.Usecase.Ports
use monash_fit1045_hd_projec.Usecase.Ports.{Server}
use monash_fit1045_hd_projec.Usecase.Membership.{IsSound, name_at}
use monash_fit1045_hd_projec.Usecase.JoinChannel
use monash_fit1045_hd_projec.Usecase.JoinChannel.Effect as Join
use monash_fit1045_hd_projec.Usecase.LeaveChannel
use monash_fit1045_hd_projec.Usecase.LeaveChannel.Effect.{execute_any-Loses}
use monash_fit1045_hd_projec.Usecase.CreateChannel
use monash_fit1045_hd_projec.Usecase.CreateChannel.Effect.{
  refusal, execute-Creates, create_channel_refused,
}
use monash_fit1045_hd_projec.Usecase.SendMessage
use monash_fit1045_hd_projec.Usecase.SendMessage.Effect.{execute_frame}
use monash_fit1045_hd_projec.Service.Handlers
use monash_fit1045_hd_projec.Service.Handlers.{join_target}
use monash_fit1045_hd_projec.Service.Requests.{
  Request, connect, disconnect, create_channel, join_channel, leave_channel, send_message,
  list_messages, heartbeat, subscribe, subscribe_ended, subscribe_list, subscribe_list_ended, sweep,
  serve, IsFresh,
}
use monash_fit1045_hd_projec.Service.Requests.Departure.{disconnect-Removes}
use monash_fit1045_hd_projec.Service.Requests.Calls.{list_messages_of_frame}

abbrev pub is_not : Option ClientId → ClientId → Bool
is_not none d = true
is_not (some c) d = not (c == d)

-- The request is of another client, or is one that changes neither connections nor memberships. A
-- sweep is of nobody, and may be about anybody.
abbrev pub spares : UuidLib → Request → ClientId → Bool
spares lib (connect name drawn system_now steady_now) d = not (drawn == d)
spares lib (disconnect client) d = is_not (parse lib (trim client)) d
spares lib (create_channel client name drawn now) d = is_not (parse lib (trim client)) d
spares lib (join_channel client channel) d = is_not (parse lib (trim client)) d
spares lib (leave_channel client channel) d = is_not (parse lib (trim client)) d
spares lib (send_message client channel content drawn now) d = true
spares lib (list_messages client channel before limit) d = true
spares lib (heartbeat client now) d = true
spares lib (subscribe client channel writer) d = true
spares lib (subscribe_ended client) d = true
spares lib (subscribe_list client writer) d = true
spares lib (subscribe_list_ended client) d = true
spares lib (sweep deadline) d = false

module _ (lib : UuidLib) (d : ClientId) where
  -- The client's connection and memberships are as before, and there is no new channel, or only one
  -- whose identifier parses to itself.
  pub record Spares (s s' : Server) : Type 0 where
    pub connected : is_connected s'.clients d ≡ is_connected s.clients d
    pub member : (k : ChannelId) → is_member s'.channels k d ≡ is_member s.channels k d
    pub named :
        (k : ChannelId) (n : Text)
        → name_at s'.channels k ≡ some n
        → (name_at s.channels k ≡ some n) ⊎ (parse lib (trim k) ≡ some k)

  pub nothing : (s : Server) → Spares s s
  nothing s = record { connected = refl; member = λ k. refl; named = λ k n e. inl e }

  pub same_stores :
      (s s' : Server) → s'.channels ≡ s.channels → s'.clients ≡ s.clients → Spares s s'
  same_stores s s' same_channels same_clients = record {
    connected = ap (λ r. is_connected r d) same_clients;
    member = λ k. ap (λ r. is_member r k d) same_channels;
    named = λ k n e. inl (subst (λ r. name_at r k ≡ some n) same_channels e);
  }

  pub then_pure :
      {A B : Type 0} (s : Server) (r : Result A × Server) (f : A → B)
      → Spares s r.1
      → Spares s (continue r.0 (λ a. pure (f a)) r.1).1
  then_pure s (ok a, t) f h = h
  then_pure s (err e, t) f h = h
