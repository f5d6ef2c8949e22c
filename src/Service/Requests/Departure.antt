-- ===== src/Service/Requests/Departure.antt =====
-- server/src/adapter/grpc/broadcast_service_impl.cpp: Disconnect.
use monash_fit1045_hd_projec.Base.{
  ◌≡◌, refl, ◌∙◌, inl, inr, [], ◌∷◌, List, Bool, true, false, ◌&&◌, some, arith, Text, ◌==◌, eq_iff,
  eq_refl, Option-cases,
}
use monash_fit1045_hd_projec.Containers.Map
use monash_fit1045_hd_projec.Containers.IdSet
use monash_fit1045_hd_projec.Shared.Outcome.{ok, ◌>>◌, modify}
use monash_fit1045_hd_projec.Shared.StringUtils.{trim}
use monash_fit1045_hd_projec.Shared.Ids.{UuidLib, ChannelId, ClientId, parse}
use monash_fit1045_hd_projec.Domain.ClientSession.{is_in_channel}
use monash_fit1045_hd_projec.Persistence.ChannelRepository.{is_member}
use monash_fit1045_hd_projec.Persistence.ClientRegistry
use monash_fit1045_hd_projec.Persistence.ClientRegistry.Memberships.{
  is_connected, has_joined-remove, is_connected-remove,
}
use monash_fit1045_hd_projec.Persistence.ClientRegistry.Invariant.{remove-IsConsistent}
use monash_fit1045_hd_projec.Usecase.Ports.{Server, remove_client, unregister_subscriber}
use monash_fit1045_hd_projec.Usecase.Membership.{
  IsSound, Loses, Loses-trans, Loses-IsSound, Removes,
}
use monash_fit1045_hd_projec.Usecase.LeaveChannel
use monash_fit1045_hd_projec.Usecase.LeaveChannel.Effect.{execute_any-Loses}
use monash_fit1045_hd_projec.Service.Handlers.{leave_all, disconnect}

-- The memberships of the client in the channels of the list.
abbrev in_list : ClientId → List ChannelId → ChannelId → ClientId → Bool
in_list client ks k c = IdSet.contains k ks && (client == c)

leave_all-Loses :
    (lib : UuidLib) (client : ClientId) (ks : List ChannelId) (s : Server)
    → IsSound s
    → Loses (in_list client ks) s (leave_all lib client ks s)
unfolding leave_all IdSet.contains
leave_all-Loses lib client [] s v = record {
  repository = v.repository;
  registry = v.registry;
  member = λ k c. refl;
  joined = λ k c. refl;
  named = λ k. refl;
  connected = λ c. refl;
  messages = refl;
}
leave_all-Loses lib client (k ∷ ks) s v =
    let first = execute_any-Loses lib client k s v in
    let left : Server = (LeaveChannel.execute lib client k s).1 in
    let rest = leave_all-Loses lib client ks left (Loses-IsSound _ s left first v) in
    let both = Loses-trans _ _ s left _ first rest in
    record {
      repository = both.repository;
      registry = both.registry;
      member = λ j c. ground (arith, both.member j c);
      joined = λ j c. ground (arith, both.joined j c);
      named = both.named;
      connected = both.connected;
      messages = both.messages;
    }

-- Taking a client that is in no channel out of the registry.
remove-Removes :
    (client : ClientId) (gone : ChannelId → ClientId → Bool) (s t : Server)
    → IsSound s
    → Loses gone s t
    → ((k : ChannelId) → is_member t.channels k client ≡ false)
    → ((k : ChannelId) (c : ClientId) → (client == c) ≡ false → gone k c ≡ false)
    → Removes (λ c. client == c) s (unregister_subscriber client (remove_client client t).1)
remove-Removes client gone s t v l out others =
    let w : IsSound t = Loses-IsSound gone s t l v in
    record {
      sound = record {
        repository = w.repository;
        registry = remove-IsConsistent t.clients w.registry client;
        agree = λ k c.
            ground
              (arith, w.agree k c, out k, has_joined-remove client c k t.clients, eq_iff client c);
        single = λ c j k p q. ground (
          arith,
          w.single c j k,
          has_joined-remove client c j t.clients,
          has_joined-remove client c k t.clients,
        );
      };
      member = λ k c. ground (arith, l.member k c, out k, others k c, eq_iff client c);
      connected = λ c. ground (arith, is_connected-remove client c t.clients, l.connected c);
      named = l.named;
      messages = l.messages;
    }

-- The last two calls of the handler.
unregister_all :
    (client : ClientId) (t : Server)
    → is_connected t.clients client ≡ true
    → (remove_client client >> modify (unregister_subscriber client)) t
      ≡ (ok tt, unregister_subscriber client (remove_client client t).1)
unfolding ClientRegistry.remove
unregister_all client t online = elim (Option-cases (Map.find client t.clients.clients_by_id)) [
  | inl offline ↦ absurd (ground arith)
  | inr (session, known) ↦ rw (known, ClientRegistry.remove) refl
]

-- In a sound server, a connected client that disconnects is told so, and is afterwards neither
-- connected nor a member of any channel. Nobody else's connection or membership changes, nor does
-- a channel's name or a message, and the server stays sound.
pub disconnect-Removes :
    (lib : UuidLib) (raw : Text) (client : ClientId) (s : Server)
    → IsSound s
    → parse lib (trim raw) ≡ some client
    → is_connected s.clients client ≡ true
    → ((disconnect lib raw s).0 ≡ ok tt) × Removes (λ c. client == c) s (disconnect lib raw s).1
unfolding disconnect ClientRegistry.find_by_id is_in_channel
disconnect-Removes lib raw client s v parsed online =
    elim (Option-cases (Map.find client s.clients.clients_by_id)) [
      | inl offline ↦ absurd (ground arith)
      | inr (session, known) ↦
          let ks : List ChannelId = session.joined_channels in
          let t : Server = leave_all lib client ks s in
          let l = leave_all-Loses lib client ks s v in
          let removes =
            remove-Removes client (in_list client ks) s t v l
              (λ k. ground (arith, l.member k client, v.agree k client, eq_refl client))
              (λ k c other. ground arith) in
          let e : disconnect lib raw s
              ≡ (ok tt, unregister_subscriber client (remove_client client t).1) =
            rw (parsed, disconnect)
              (rw known (unregister_all client t (l.connected client ∙ online))) in
          rw e (refl, removes)
    ]
