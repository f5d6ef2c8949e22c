-- ===== src/Client/Presenter/Follow.antt =====
-- client-cli/src/adapter/tui/ftxui_presenter.cpp, inbox_queue.cpp: how the messages that are shown get
-- from the queue to the screen.
use monash_fit1045_hd_projec.Base.{
  ℕ, zero, suc, ◌*◌, ◌≤◌, ◌<◌, ◌≡◌, refl, sym, ap, ◌∙◌, [], ◌∷◌, ◌++◌, arith, true, List, length,
  take, drop, append_assoc, append-nil, length-append, length-drop, take-append-drop,
}
use monash_fit1045_hd_projec.Base.Int.{ℤ, pos, ◌≤ℤ◌, clamp_ℤ}
use monash_fit1045_hd_projec.Client.Inbox.{InboxMessage, push, drain_to-take}
use monash_fit1045_hd_projec.Client.MessageView.Window.{window_at_bottom}
use monash_fit1045_hd_projec.Client.MessageView.{compute_scroll_window}
use monash_fit1045_hd_projec.Client.Presenter.{
  Presenter, show_message, refresh, clamp_scroll_offset, max_drained,
}
use monash_fit1045_hd_projec.Client.Presenter.Invariant.{max_ℤ-right}

unfoldable pub draw_times : ℕ → Presenter → Presenter
draw_times zero p = p
draw_times (suc n) p = draw_times n (refresh p)

take_all : {A : Type 0} (n : ℕ) (xs : List A) → length xs ≤ n → (take n xs ≡ xs) × (drop n xs ≡ [])
take_all zero [] h = (refl, refl)
take_all zero (x ∷ xs) h = absurd (omega arith)
take_all (suc n) [] h = (refl, refl)
take_all (suc n) (x ∷ xs) h = let (e, f) = take_all n xs (omega arith) in (ap (◌∷◌ x) e, f)

refresh_lem :
    (p : Presenter)
    → ((refresh p).messages ≡ p.messages ++ take max_drained p.inbox)
      × ((refresh p).inbox ≡ drop max_drained p.inbox)
unfolding refresh clamp_scroll_offset
refresh_lem p =
    let e = drain_to-take max_drained p.messages p.inbox in (ap (λ q. q.0) e, ap (λ q. q.1) e)

-- Every message that waits in the queue comes to the screen: after as many draws as there are fifties
-- in the queue, a part of fifty counted as one, the queue is empty, and the screen has the messages
-- that it had, followed by those of the queue in their order.
pub draw_times_shows :
    (n : ℕ) (p : Presenter)
    → length p.inbox ≤ n * max_drained
    → let p' = draw_times n p in (p'.messages ≡ p.messages ++ p.inbox) × (p'.inbox ≡ [])
unfolding draw_times
draw_times_shows zero p h =
    let e : p.inbox ≡ [] = sym (take_all 0 p.inbox h).0 in (rw e (sym (append-nil p.messages)), e)
draw_times_shows (suc n) p h =
    let (e, f) = refresh_lem p in
    let (g, k) =
      draw_times_shows n (refresh p) (rw (f, length-drop max_drained p.inbox) (omega arith)) in
    (
      g
          ∙ rw (e, f, append_assoc p.messages (take max_drained p.inbox) (drop max_drained p.inbox))
              (ap (λ l. p.messages ++ l) (take-append-drop max_drained p.inbox)),
      k,
    )

clamp_ℤ-zero : (high : ℤ) → pos 0 ≤ℤ high → clamp_ℤ (pos 0) (pos 0) high ≡ pos 0
unfolding clamp_ℤ
clamp_ℤ-zero high h = ground arith

refreshed_at_bottom :
    (m : InboxMessage) (p : Presenter)
    → p.auto_scroll ≡ true
    → ((refresh (show_message m p)).scroll_offset ≡ pos 0)
      × ((refresh (show_message m p)).auto_scroll ≡ true)
unfolding refresh clamp_scroll_offset show_message
refreshed_at_bottom m p follows = rw (follows, clamp_ℤ-zero _ (max_ℤ-right _ (pos 0))) (refl, refl)

shown_messages :
    (m : InboxMessage) (p : Presenter)
    → (refresh (show_message m p)).messages ≡ p.messages ++ take max_drained (p.inbox ++ (m ∷ []))
unfolding show_message push
shown_messages m p = (refresh_lem (show_message m p)).0

-- On a screen that follows new messages, with fewer than fifty messages in the queue, a message that is shown is the
-- last one on the screen after the draw: the window ends with it, and the screen still follows.
refresh-show_message :
    (m : InboxMessage) (p : Presenter)
    → p.auto_scroll ≡ true
    → length p.inbox < max_drained
    → let p' = refresh (show_message m p) in
      let size = pos (length p'.messages) in
      (p'.messages ≡ (p.messages ++ p.inbox) ++ (m ∷ []))
      × ((compute_scroll_window size p'.scroll_offset p'.viewport_height_hint).last ≡ size)
      × (p'.auto_scroll ≡ true)
refresh-show_message m p follows room =
    let fits : length (p.inbox ++ (m ∷ [])) ≤ max_drained =
      rw (length-append p.inbox (m ∷ [])) (omega arith) in
    let o = refreshed_at_bottom m p follows in
    (
      shown_messages m p
          ∙ rw (take_all max_drained (p.inbox ++ (m ∷ [])) fits).0
              (sym (append_assoc p.messages p.inbox (m ∷ []))),
      rw o.0 (window_at_bottom (length (refresh (show_message m p)).messages) _),
      o.1,
    )
