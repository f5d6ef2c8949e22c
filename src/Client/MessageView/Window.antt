-- ===== src/Client/MessageView/Window.antt =====
-- client-cli/include/bcmd/client/adapter/tui/components/message_view.hpp: the bounds of the window of
-- messages on the screen.
use monash_fit1045_hd_projec.Base.{
  subst, inl, inr, Bool-cases, Bool, true, false, ◌&&◌, zero, ℕ, suc, min, ◌+◌, ◌-◌, ◌≤◌, ◌<◌, ◌≡◌,
  refl, ap, ◌∙◌, arith, if◌then◌else◌,
}
use monash_fit1045_hd_projec.Base.Int.{
  ℤ, pos, negsuc, pos_part, ◌-ℤ◌, ◌≤ℤ◌, ◌<ℤ◌, leb_ℤ, ltb_ℤ, max_ℤ, min_ℤ, max_ℤ-sub, max_ℤ-pos_part,
  clamp_ℤ-min, min_ℤ-min, +ℤ_pos, -ℤ_pos, pos_of_nonneg, int_laws,
}
use monash_fit1045_hd_projec.Client.MessageView.{
  should_render_live_separator, compute_scroll_window,
}

-- The first message of the window, of `count` messages in a window of `height` rows.
abbrev pub first_shown : ℕ → ℤ → ℕ → ℕ
first_shown count offset height = count - height - min (pos_part offset) (count - height)

minus_twice : (a b c : ℕ) → c ≤ a - b → max_ℤ (pos a -ℤ pos b -ℤ pos c) (pos 0) ≡ pos (a - b - c)
unfolding max_ℤ ◌-ℤ◌
minus_twice a b c h = ground arith

-- The window in natural numbers.
pub compute_scroll_window_lem :
    (count offset : ℤ) (height : ℕ)
    → compute_scroll_window count offset (pos (suc height)) ≡ record {
      first = pos (first_shown (pos_part count) offset (suc height));
      last =
          pos
            (min (first_shown (pos_part count) offset (suc height) + suc height) (pos_part count));
    }
unfolding compute_scroll_window
compute_scroll_window_lem count offset height =
    let n : ℕ = pos_part count in
    let away : ℕ = min (pos_part offset) (n - suc height) in
    let positive : leb_ℤ (pos (suc height)) (pos 0) ≡ false = ground arith in
    rw
      (
        max_ℤ-pos_part count,
        max_ℤ-sub n (suc height),
        clamp_ℤ-min offset (n - suc height),
        minus_twice n (suc height) away (omega arith),
        +ℤ_pos (n - suc height - away) (suc height),
        min_ℤ-min (n - suc height - away + suc height) n,
        positive,
      )
      refl

pub compute_scroll_window_all :
    (count offset height : ℤ)
    → leb_ℤ height (pos 0) ≡ true
    → compute_scroll_window count offset height
      ≡ record { first = pos 0; last = pos (pos_part count) }
unfolding compute_scroll_window
compute_scroll_window_all count offset height h = rw (max_ℤ-pos_part count, h) refl

-- The rows of the window: all of the messages if the height is not positive.
abbrev pub rows_shown : ℤ → ℤ → ℤ
rows_shown count height =
    let n = max_ℤ count (pos 0) in if leb_ℤ height (pos 0) then n else min_ℤ height n

-- Whatever the count, the offset and the height are, the window is a range of the messages that there
-- are, and it is as long as the height or, if there are fewer messages or the height is not positive,
-- as long as all messages.
pub compute_scroll_window_bounds :
    (count offset height : ℤ)
    → let w = compute_scroll_window count offset height in
      (pos 0 ≤ℤ w.first)
      × (w.first ≤ℤ w.last)
      × (w.last ≤ℤ max_ℤ count (pos 0))
      × (w.last -ℤ w.first ≡ rows_shown count height)
compute_scroll_window_bounds count offset (pos zero) =
    rw (compute_scroll_window_all count offset (pos zero) refl, max_ℤ-pos_part count)
      (omega arith, omega arith, omega arith, omega int_laws)
compute_scroll_window_bounds count offset (negsuc k) =
    let below : leb_ℤ (negsuc k) (pos 0) ≡ true = ground arith in
    rw (compute_scroll_window_all count offset (negsuc k) below, max_ℤ-pos_part count, below)
      (omega arith, omega arith, omega arith, omega int_laws)
compute_scroll_window_bounds count offset (pos (suc k)) =
    let n : ℕ = pos_part count in
    let first : ℕ = first_shown n offset (suc k) in
    let positive : leb_ℤ (pos (suc k)) (pos 0) ≡ false = ground arith in
    rw
      (
        compute_scroll_window_lem count offset k,
        max_ℤ-pos_part count,
        positive,
        min_ℤ-min (suc k) n,
      )
      (
        omega arith,
        omega arith,
        omega arith,
        -ℤ_pos (min (first + suc k) n) first (omega arith) ∙ ap pos (omega arith),
      )

-- Every message can be scrolled to: an offset between 0 and the largest one that the scroll commands
-- reach puts it in the window.
pub compute_scroll_window_reaches :
    (count i height : ℕ)
    → i < count
    → (offset : ℕ) × (offset ≤ count - suc height)
      × let w = compute_scroll_window (pos count) (pos offset) (pos (suc height)) in
        (w.first ≤ℤ pos i) × (pos i <ℤ w.last)
compute_scroll_window_reaches count i height h =
    let offset : ℕ = count - suc i - height in
    (
      offset,
      omega arith,
      rw (compute_scroll_window_lem (pos count) (pos offset) height) (omega arith, omega arith),
    )

-- Without a height the window is all messages, and with one it is a range of them.
pub window_is_range :
    (count : ℕ) (offset height : ℤ)
    → let w = compute_scroll_window (pos count) offset height in
      (w.first ≡ pos (pos_part w.first))
      × (w.last ≡ pos (pos_part w.last))
      × (pos_part w.first ≤ pos_part w.last)
      × (pos_part w.last ≤ count)
window_is_range count offset height =
    let (low, order, high, size) = compute_scroll_window_bounds (pos count) offset height in
    let top : max_ℤ (pos count) (pos 0) ≡ pos count = max_ℤ-pos_part (pos count) in
    let first = (compute_scroll_window (pos count) offset height).first in
    let last = (compute_scroll_window (pos count) offset height).last in
    let high' : last ≤ℤ pos count = subst (λ m. last ≤ℤ m) top high in
    let e = pos_of_nonneg first low in
    let e' = pos_of_nonneg last (omega arith) in (e, e', ground arith, ground arith)

-- The first message on the screen and the one after the last, of `count` messages in a window of
-- `height` rows that is scrolled `offset` rows away from the newest message, as far as there are
-- messages; all messages if the height is not positive.
abbrev pub top_row : ℕ → ℤ → ℤ → ℕ
top_row count offset height =
    if leb_ℤ height (pos 0) then 0 else first_shown count offset (pos_part height)

abbrev pub bottom_row : ℕ → ℤ → ℤ → ℕ
bottom_row count offset height =
    if leb_ℤ height (pos 0)
    then count
    else min (first_shown count offset (pos_part height) + pos_part height) count

pub compute_scroll_window_rows :
    (count : ℕ) (offset height : ℤ)
    → compute_scroll_window (pos count) offset height ≡ record {
      first = pos (top_row count offset height);
      last = pos (bottom_row count offset height);
    }
compute_scroll_window_rows count offset (pos zero) =
    compute_scroll_window_all (pos count) offset (pos zero) refl
compute_scroll_window_rows count offset (negsuc k) =
    let below : leb_ℤ (negsuc k) (pos 0) ≡ true = ground arith in
    rw below (compute_scroll_window_all (pos count) offset (negsuc k) below)
compute_scroll_window_rows count offset (pos (suc k)) =
    let positive : leb_ℤ (pos (suc k)) (pos 0) ≡ false = ground arith in
    rw positive (compute_scroll_window_lem (pos count) offset k)

-- Whether a separator in front of the message at `history` has a message of the screen on either side.
abbrev pub is_inside : ℕ → ℤ → ℕ → Bool
is_inside top history bottom = ltb_ℤ (pos top) history && ltb_ℤ history (pos bottom)

pub should_render_live_separator_lem :
    (count : ℕ) (history offset height : ℤ)
    → should_render_live_separator (pos count) history offset height
      ≡ is_inside (top_row count offset height) history (bottom_row count offset height)
unfolding should_render_live_separator
should_render_live_separator_lem count history offset height =
    elim (Bool-cases (leb_ℤ height (pos 0))) [
      | inl whole ↦ rw (compute_scroll_window_rows count offset height, whole) (ground arith)
      | inr part ↦ rw (compute_scroll_window_rows count offset height, part) (ground arith)
    ]

-- A separator is due only strictly inside the window.
pub separator_inside :
    (count : ℕ) (history offset height : ℤ)
    → should_render_live_separator (pos count) history offset height ≡ true
    → let w = compute_scroll_window (pos count) offset height in
      (w.first <ℤ history) × (history <ℤ w.last)
unfolding should_render_live_separator
separator_inside count history offset height h = elim (Bool-cases (leb_ℤ height (pos 0))) [
  | inl whole ↦
      rw (compute_scroll_window_all (pos count) offset height (ground arith))
        (ground arith, ground arith)
  | inr part ↦ (ground arith, ground arith)
]

-- At the offset 0 the window ends with the newest message.
pub window_at_bottom :
    (count : ℕ) (height : ℤ) → (compute_scroll_window (pos count) (pos 0) height).last ≡ pos count
window_at_bottom count (pos (suc k)) =
    rw (compute_scroll_window_lem (pos count) (pos 0) k) (ap pos (omega arith))
window_at_bottom count (pos zero) =
    rw (compute_scroll_window_all (pos count) (pos 0) (pos zero) refl) refl
window_at_bottom count (negsuc k) =
    rw (compute_scroll_window_all (pos count) (pos 0) (negsuc k) (ground arith)) refl
