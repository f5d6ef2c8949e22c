-- ===== src/Service/Requests/Interference/Others.antt =====
-- server/src/adapter/grpc/broadcast_service_impl.cpp: any request of another client.
use monash_fit1045_hd_projec.Base.{◌≡◌, refl, sym, subst, true, some}
use monash_fit1045_hd_projec.Shared.StringUtils.{trim}
use monash_fit1045_hd_projec.Shared.Ids.{UuidLib, ClientId, parse}
use monash_fit1045_hd_projec.Usecase.Ports.{Server}
use monash_fit1045_hd_projec.Usecase.Membership.{IsSound}
use monash_fit1045_hd_projec.Service.Handlers
use monash_fit1045_hd_projec.Service.Handlers.{join_target}
use monash_fit1045_hd_projec.Service.Requests.{
  Request, connect, disconnect, create_channel, join_channel, leave_channel, send_message,
  list_messages, heartbeat, subscribe, subscribe_ended, subscribe_list, subscribe_list_ended, sweep,
  serve, IsFresh,
}
use monash_fit1045_hd_projec.Service.Requests.Calls.{list_messages_of_frame}
use monash_fit1045_hd_projec.Service.Requests.Interference.{spares, Spares, nothing, same_stores}
use monash_fit1045_hd_projec.Service.Requests.Interference.Moves.{
  connect-Spares, disconnect-Spares, create_channel-Spares, join_channel-Spares, leave-Spares,
}
use monash_fit1045_hd_projec.Service.Requests.Interference.Reads.{
  send_message-Spares, heartbeat-Spares, subscribe-Spares, subscribe_list-Spares,
}

module _ (lib : UuidLib) where
  -- The identifier that a request draws for a channel parses to itself.
  abbrev pub IsPrinted : Request → Type 0
  IsPrinted (create_channel client name drawn now) = parse lib (trim drawn) ≡ some drawn
  IsPrinted _ = Unit {0}

  -- A request of one client leaves the others alone: in a sound server, whatever the request is and
  -- however it ends, a client that it is not of is connected exactly if it was before, and is a member
  -- of exactly the channels it was a member of before. The sweep is no such request. The
  -- identifiers that are drawn are assumed to be fresh and to parse to themselves.
  pub serve-Spares :
      (r : Request) (d : ClientId) (s : Server)
      → IsSound s
      → IsFresh lib r s
      → IsPrinted r
      → spares lib r d ≡ true
      → Spares lib d s (serve lib r s)
  unfolding serve Handlers.subscribe_end Handlers.subscribe_list_end
  serve-Spares (connect name drawn system_now steady_now) d s v fresh printed other =
      connect-Spares lib d name drawn system_now steady_now s fresh other
  serve-Spares (disconnect client) d s v fresh printed other =
      disconnect-Spares lib d client s v other
  serve-Spares (create_channel client name drawn now) d s v fresh printed other =
      create_channel-Spares lib d client name drawn now s v fresh printed
  serve-Spares (join_channel client channel) d s v fresh printed other =
      join_channel-Spares lib d client channel s v other
  serve-Spares (leave_channel client channel) d s v fresh printed other =
      leave-Spares lib d client channel s v other
  serve-Spares (send_message client channel content drawn now) d s v fresh printed other =
      send_message-Spares lib d client channel content drawn now s
  serve-Spares (list_messages client channel before limit) d s v fresh printed other =
      subst (Spares lib d s) (sym (list_messages_of_frame lib client channel before limit s))
        (nothing lib d s)
  serve-Spares (heartbeat client now) d s v fresh printed other =
      heartbeat-Spares lib d client now s
  serve-Spares (subscribe client channel writer) d s v fresh printed other =
      subscribe-Spares lib d client channel writer s
  serve-Spares (subscribe_ended client) d s v fresh printed other = same_stores lib d s _ refl refl
  serve-Spares (subscribe_list client writer) d s v fresh printed other =
      subscribe_list-Spares lib d client writer s
  serve-Spares (subscribe_list_ended client) d s v fresh printed other =
      same_stores lib d s _ refl refl
  serve-Spares (sweep deadline) d s v fresh printed other = cc
