-- ===== src/Usecase/ExpireInactiveClients/Sessions.antt =====
-- server/src/application/usecase/expire_inactive_clients.cpp: the sessions that a sweep leaves as they
-- are.
use monash_fit1045_hd_projec.Base.{
  ℕ, ◌≡◌, refl, ap, ◌∙◌, subst, [], ◌∷◌, inl, inr, List, none, Option, arith, ◌==◌, eq_iff,
  if◌then◌else◌, Bool-cases, Option-cases,
}
use monash_fit1045_hd_projec.Containers.Map
use monash_fit1045_hd_projec.Shared.Ids.{UuidLib, ClientId}
use monash_fit1045_hd_projec.Domain.ClientSession.{ClientSession}
use monash_fit1045_hd_projec.Persistence.ChannelRepository.Invariant as Repository
use monash_fit1045_hd_projec.Persistence.ClientRegistry
use monash_fit1045_hd_projec.Persistence.ClientRegistry.{ClientRegistry}
use monash_fit1045_hd_projec.Persistence.ClientRegistry.Expiry.{
  mentions, has_expired, mentions-collect_expired,
}
use monash_fit1045_hd_projec.Usecase.Ports.{Server}
use monash_fit1045_hd_projec.Usecase.Membership.{IsSound}
use monash_fit1045_hd_projec.Usecase.ExpireInactiveClients.{
  drop_memberships, expire, expire_each, run,
}
use monash_fit1045_hd_projec.Usecase.ExpireInactiveClients.Effect.{drop_memberships-Drops}

-- The session of a client, if it is connected.
abbrev pub session_of : ClientId → Server → Option ClientSession
session_of c s = Map.find c s.clients.clients_by_id

find-remove :
    (x c : ClientId) (r : ClientRegistry)
    → Map.find c (ClientRegistry.remove x r).1.clients_by_id
      ≡ (if x == c then none else Map.find c r.clients_by_id)
unfolding ClientRegistry.remove
find-remove x c r = elim (Option-cases (Map.find x r.clients_by_id)) [
  | inl gone ↦ elim (Bool-cases (x == c)) [
    | inl same ↦
        rw (gone, ClientRegistry.remove)
          (rw same (subst (λ k. Map.find k r.clients_by_id ≡ none) ((eq_iff x c).0 same) gone))
    | inr other ↦ rw (gone, ClientRegistry.remove) (rw other refl)
  ]
  | inr (session, known) ↦ rw (known, ClientRegistry.remove) (Map.find-erase x c r.clients_by_id)
]

module _ (lib : UuidLib) where
  expire-session :
      (x : ClientSession) (c : ClientId) (s : Server)
      → Repository.IsConsistent s.channels
      → session_of c (expire lib x s) ≡ (if x.id == c then none else session_of c s)
  unfolding expire
  expire-session x c s w =
      let d = drop_memberships-Drops lib x x.joined_channels s w in
      find-remove x.id c (drop_memberships lib x x.joined_channels s).clients
      ∙ ap (λ r. if x.id == c then none else Map.find c r.clients_by_id) d.clients

  expire_each-session :
      (xs : List ClientSession) (c : ClientId) (s : Server)
      → Repository.IsConsistent s.channels
      → session_of c (expire_each lib xs s) ≡ (if mentions c xs then none else session_of c s)
  unfolding expire_each expire
  expire_each-session [] c s w = refl
  expire_each-session (x ∷ xs) c s w =
      let d = drop_memberships-Drops lib x x.joined_channels s w in
      let rest = expire_each-session xs c (expire lib x s) d.repository in
      ground (arith, rest, expire-session x c s w)

  -- In a sound server, a sweep forgets the session of a client that has expired, and leaves the session
  -- of any other client as it is.
  pub run-session :
      (deadline : ℕ) (c : ClientId) (s : Server)
      → IsSound s
      → session_of c (run lib deadline s).1
        ≡ (if has_expired deadline s.clients c then none else session_of c s)
  unfolding run
  run-session deadline c s v =
      expire_each-session (ClientRegistry.collect_expired deadline s.clients) c s v.repository
      ∙ ap (λ b. if b then none else session_of c s)
          (mentions-collect_expired deadline c s.clients v.registry)
