-- ===== src/Client/Startup/Status.antt =====
-- client-cli/src/main.cpp, run: what the screen says about the connection.
use monash_fit1045_hd_projec.Base.{
  ◌≢◌, inl, inr, [], ◌∷◌, List, Bool, true, false, Bool-cases, Option-cases,
}
use monash_fit1045_hd_projec.Client.Gateway
use monash_fit1045_hd_projec.Client.Presenter.{Presenter, connected, update_connection_state}
use monash_fit1045_hd_projec.Client.Session.{Client}
use monash_fit1045_hd_projec.Client.Startup.{
  Credentials, insecure_credentials, ssl_credentials, ChannelState, idle, connecting_to, ready,
  transient_failure, shutdown, watch_change, Watch, watch,
}

watch_change-modest :
    (state : ChannelState) (p : Presenter)
    → p.connection_state ≢ connected
    → (watch_change state p).connection_state ≢ connected
unfolding watch_change update_connection_state
watch_change-modest ready p h = h
watch_change-modest connecting_to p h = λ e. cc
watch_change-modest idle p h = λ e. cc
watch_change-modest transient_failure p h = λ e. cc
watch_change-modest shutdown p h = λ e. cc

-- The watcher never says that the client is connected: whatever states it sees, a screen that does not
-- say so does not come to say so by the watcher. Only a heartbeat that succeeds says so.
watch_modest :
    (rounds : List Watch) (p : Presenter)
    → p.connection_state ≢ connected
    → (watch rounds p).connection_state ≢ connected
unfolding watch
watch_modest [] p h = h
watch_modest (w ∷ rounds) p h = elim (Bool-cases w.stop_requested) [
  | inl stop ↦ rw stop h
  | inr go ↦ elim (Option-cases w.changed) [
    | inl same ↦ rw (go, same) (watch_modest rounds p h)
    | inr (state, changed) ↦
        rw (go, changed)
          (watch_modest rounds (watch_change state p) (watch_change-modest state p h))
  ]
]

abbrev pub is_tls : Credentials → Bool
is_tls insecure_credentials = false
is_tls (ssl_credentials pem_root_certs) = true
