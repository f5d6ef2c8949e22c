-- ===== src/Client/Presenter/Overflow.antt =====
-- client-cli/src/adapter/tui/ftxui_presenter.cpp: the sums of the scroll commands, which the code
-- computes with int.
use monash_fit1045_hd_projec.Base.{
  ℕ, ◌+◌, ◌≤◌, ◌<◌, ◌^◌, ◌-◌, ◌≡◌, refl, ap, ◌∙◌, arith, Bool, true, false, length, if◌then◌else◌,
  subst,
}
use monash_fit1045_hd_projec.Base.Int.{
  ℤ, pos, pos_part, neg_part, ◌+ℤ◌, ◌-ℤ◌, ◌≤ℤ◌, max_ℤ, max_ℤ-sub,
}
use monash_fit1045_hd_projec.Client.Presenter.{
  Presenter, Event, escape, question, page_up, page_down, home, end_key, arrow_up, arrow_down,
  wheel_up, wheel_down, other, show_message, show_replay_complete, show_error, show_info,
  update_connection_status, update_connection_state, show_channel_list, clear_messages,
  clamp_scroll_offset, scroll_by, scroll_to_top, scroll_to_bottom, scroll_of, handle_scroll_event,
  catch_event, refresh,
}
use monash_fit1045_hd_projec.Client.Presenter.Invariant.{
  Operation, operate, shows_message, shows_replay_complete, shows_error, shows_info, updates_status,
  updates_state, shows_channels, clears, catches, draws, selects, types, Reachable, start, step,
  Reachable-IsWellFormed,
}

-- The value of an int of 32 bits.
abbrev pub IsInt : ℤ → Type 0
IsInt a = (neg_part a ≤ 2 ^ 31) × (pos_part a < 2 ^ 31)

hint_unless :
    (b : Bool) (p q : Presenter)
    → q.viewport_height_hint ≡ p.viewport_height_hint
    → (if b then p else q).viewport_height_hint ≡ p.viewport_height_hint
hint_unless true p q h = refl
hint_unless false p q h = h

catch_event-hint :
    (event : Event) (p : Presenter)
    → (catch_event event p).1.viewport_height_hint ≡ p.viewport_height_hint
unfolding catch_event handle_scroll_event scroll_of scroll_by scroll_to_top scroll_to_bottom
catch_event-hint page_up p = hint_unless p.show_help p _ refl
catch_event-hint page_down p = hint_unless p.show_help p _ refl
catch_event-hint arrow_up p = hint_unless p.show_help p _ refl
catch_event-hint arrow_down p = hint_unless p.show_help p _ refl
catch_event-hint wheel_up p = hint_unless p.show_help p _ refl
catch_event-hint wheel_down p = hint_unless p.show_help p _ refl
catch_event-hint home p = hint_unless p.show_help p _ refl
catch_event-hint end_key p = hint_unless p.show_help p _ refl
catch_event-hint escape p = refl
catch_event-hint question p = refl
catch_event-hint other p = refl

operate-hint :
    (o : Operation) (p : Presenter) → (operate o p).viewport_height_hint ≡ p.viewport_height_hint
unfolding operate show_message show_replay_complete show_error show_info update_connection_status
    update_connection_state show_channel_list clear_messages refresh clamp_scroll_offset
operate-hint (shows_message m) p = refl
operate-hint (shows_replay_complete channel_id) p = refl
operate-hint (shows_error text) p = refl
operate-hint (shows_info text) p = refl
operate-hint (updates_status is_connected tls username) p = refl
operate-hint (updates_state state) p = refl
operate-hint (shows_channels names) p = refl
operate-hint clears p = refl
operate-hint (catches event) p = catch_event-hint event p
operate-hint draws p = refl
operate-hint (selects k) p = refl
operate-hint (types text) p = refl

Reachable-hint : (p : Presenter) → Reachable p → p.viewport_height_hint ≡ pos 20
Reachable-hint p start = refl
Reachable-hint _ (step p o reached allowed) = operate-hint o p ∙ Reachable-hint p reached

sum-IsInt :
    (a b : ℤ) (bound : ℕ)
    → pos 0 ≤ℤ a
    → a ≤ℤ pos bound
    → bound + 20 < 2 ^ 31
    → pos_part b ≤ 20
    → neg_part b ≤ 20
    → IsInt (a +ℤ b)
unfolding ◌+ℤ◌
sum-IsInt a b bound low high fits up down = (ground arith, ground arith)

difference-IsInt : (n : ℕ) → n + 20 < 2 ^ 31 → IsInt (pos n -ℤ pos 20)
unfolding ◌-ℤ◌
difference-IsInt n fits = (ground arith, ground arith)

-- No scroll command overflows: on every screen that the operations lead to, with fewer than
-- 2 ^ 31 - 20 messages, the sum of the scroll offset and a step of at most 20 rows in either direction
-- is an int, and so is the number of messages less the height of the view.
pub scroll-IsInt :
    (p : Presenter) (delta : ℤ)
    → Reachable p
    → length p.messages + 20 < 2 ^ 31
    → pos_part delta ≤ 20
    → neg_part delta ≤ 20
    → IsInt (p.scroll_offset +ℤ delta) × IsInt (pos (length p.messages) -ℤ p.viewport_height_hint)
scroll-IsInt p delta reached fits up down =
    let hint = Reachable-hint p reached in
    let (low, high, follows, selected_low, selected_high, counted) =
      Reachable-IsWellFormed p reached in
    let top : p.scroll_offset ≤ℤ pos (length p.messages - 20) =
      subst (λ (m : ℤ). p.scroll_offset ≤ℤ m)
        (ap (λ (h : ℤ). max_ℤ (pos (length p.messages) -ℤ h) (pos 0)) hint
          ∙ max_ℤ-sub (length p.messages) 20)
        high in
    (
      sum-IsInt p.scroll_offset delta (length p.messages - 20) low top (omega arith) up down,
      rw hint (difference-IsInt (length p.messages) fits),
    )
