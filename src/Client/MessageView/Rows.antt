-- ===== src/Client/MessageView/Rows.antt =====
-- client-cli/include/bcmd/client/adapter/tui/components/message_view.hpp: the rows on the screen.
use monash_fit1045_hd_projec.Base.{
  ℕ, zero, suc, ◌+◌, ◌-◌, ◌≤◌, ◌<◌, ◌≡◌, refl, sym, ap, ◌∙◌, inl, inr, [], ◌∷◌, ◌++◌, map, arith,
  Bool, true, false, Option, some, List, Text, take, drop, length, is_empty, if◌then◌else◌, ◌&&◌,
  subst, Bool-cases,
}
use monash_fit1045_hd_projec.Base.Int.{
  ℤ, pos, pos_part, ◌+ℤ◌, ◌-ℤ◌, ◌<ℤ◌, ltb_ℤ, leb_ℤ, eqb_ℤ, max_ℤ, max_ℤ-pos_part, +ℤ_pos, -ℤ_pos,
  pos_of_nonneg,
}
use monash_fit1045_hd_projec.Client.Inbox.{InboxMessage}
use monash_fit1045_hd_projec.Client.MessageView.{
  ◌>>=◌, ScrollWindow, Row, live_separator, no_messages, row_of, rows_from, get_elem?,
  render_message_view, compute_scroll_window, should_render_live_separator,
}
use monash_fit1045_hd_projec.Client.MessageView.Window.{
  top_row, bottom_row, is_inside, compute_scroll_window_rows, should_render_live_separator_lem,
  compute_scroll_window_all, window_is_range, separator_inside,
}

get_elem?-drop :
    {A : Type 0} (xs : List A) (i : ℕ)
    → i < length xs
    → (x : A) × (get_elem? xs i ≡ some x) × (drop i xs ≡ x ∷ drop (suc i) xs)
unfolding get_elem?
get_elem?-drop [] i h = absurd (omega arith)
get_elem?-drop (x ∷ xs) zero h = (x, refl, refl)
get_elem?-drop (x ∷ xs) (suc i) h = get_elem?-drop xs i (omega arith)

-- The rows of the messages from `i`, `n` of them.
abbrev pub shown : (ℕ → Option Text) → List InboxMessage → ℕ → ℕ → List Row
shown strftime messages i n = map (row_of strftime) (take n (drop i messages))

module _ (strftime : ℕ → Option Text) (messages : List InboxMessage) (show : Bool)
    (history : ℤ) where
  -- One round in range.
  one_row :
      (n i : ℕ)
      → i < length messages
      → (m : InboxMessage) × (drop i messages ≡ m ∷ drop (suc i) messages)
        × (rows_from strftime messages show history (suc n) (pos i) ≡ (
            rows_from strftime messages show history n (pos (suc i)) >>= λ rows. some (
              (if show && eqb_ℤ (pos i) history then live_separator ∷ [] else [])
              ++ (row_of strftime m ∷ rows))))
  unfolding rows_from
  one_row n i h =
      let (m, at, there) = get_elem?-drop messages i h in
      let next : pos i +ℤ pos 1 ≡ pos (suc i) = +ℤ_pos i 1 ∙ ap pos (omega arith) in
      (m, there, rw (at, next) refl)

  -- Rounds in which no separator is due.
  rows_from_plain :
      (n i : ℕ)
      → i + n ≤ length messages
      → ((k : ℕ) → i ≤ k → k < i + n → (show && eqb_ℤ (pos k) history) ≡ false)
      → rows_from strftime messages show history n (pos i) ≡ some (shown strftime messages i n)
  unfolding rows_from
  rows_from_plain zero i h off = refl
  rows_from_plain (suc n) i h off =
      let (m, there, e) = one_row n i (omega arith) in
      let rest =
        rows_from_plain n (suc i) (omega arith) (λ k a b. off k (omega arith) (omega arith)) in
      let here : (show && eqb_ℤ (pos i) history) ≡ false = off i (omega arith) (omega arith) in
      e ∙ rw (rest, here, there) refl

  -- Rounds that start at or before the message the separator precedes.
  rows_from_live :
      (n i before : ℕ)
      → i + n ≤ length messages
      → before < n
      → show ≡ true
      → history ≡ pos (i + before)
      → rows_from strftime messages show history n (pos i)
        ≡ some (
            shown strftime messages i before
            ++ (live_separator ∷ shown strftime messages (i + before) (n - before)))
  unfolding rows_from
  rows_from_live zero i before h b on at = absurd (omega arith)
  rows_from_live (suc n) i zero h b on at =
      let (m, there, e) = one_row n i (omega arith) in
      let rest = rows_from_plain n (suc i) (omega arith) (λ k a c. rw (on, at) (ground arith)) in
      let here : (show && eqb_ℤ (pos i) history) ≡ true = rw (on, at) (ground arith) in
      let same : i + 0 ≡ i = omega arith in
      let left : suc n - 0 ≡ suc n = omega arith in e ∙ rw (rest, here, same, left, there) refl
  rows_from_live (suc n) i (suc before) h b on at =
      let (m, there, e) = one_row n i (omega arith) in
      let rest =
        rows_from_live n (suc i) before (omega arith) (omega arith) on
          (at ∙ ap pos (omega arith)) in
      let here : (show && eqb_ℤ (pos i) history) ≡ false = rw (on, at) (ground arith) in
      let same : suc i + before ≡ i + suc before = omega arith in
      let left : suc n - suc before ≡ n - before = omega arith in
      e ∙ rw (rest, here, there, same, left) refl

-- What stands on the screen: one note if there is no row.
abbrev pub or_note : List Row → List Row
or_note rows = if is_empty rows then no_messages ∷ [] else rows

-- The rows of a range of messages, with the separator in front of one of them or without it.
abbrev pub rows_between : (ℕ → Option Text) → List InboxMessage → Bool → ℤ → ℕ → ℕ → List Row
rows_between strftime messages show history first last =
    let before = pos_part history - first in
    if show
    then shown strftime messages first before
      ++ (live_separator ∷ shown strftime messages (pos_part history) (last - first - before))
    else shown strftime messages first (last - first)

rows_from-shown :
    (strftime : ℕ → Option Text) (messages : List InboxMessage) (show : Bool) (history : ℤ)
    (first last : ℕ)
    → first ≤ last
    → last ≤ length messages
    → (show ≡ true → (pos first <ℤ history) × (history <ℤ pos last))
    → rows_from strftime messages show history (last - first) (pos first)
      ≡ some (rows_between strftime messages show history first last)
rows_from-shown strftime messages false history first last order high inside =
    rows_from_plain strftime messages false history (last - first) first (omega arith)
      (λ k a b. refl)
rows_from-shown strftime messages true history first last order high inside =
    let (after, before) = inside refl in
    let at : pos_part history ≡ first + (pos_part history - first) = ground arith in
    let h : history ≡ pos (pos_part history) = pos_of_nonneg history (omega arith) in
    rows_from_live strftime messages true history (last - first) first (pos_part history - first)
      (omega arith) (ground arith) refl (h ∙ ap pos at)
    ∙ ap
        (λ k. some (
          shown strftime messages first (pos_part history - first)
          ++ (live_separator
              ∷ shown strftime messages k (last - first - (pos_part history - first)))))
        (sym at)

use_of_window :
    (count offset height : ℤ)
    → let w = compute_scroll_window count offset height in
      ((if ltb_ℤ (pos 0) height then w.first else pos 0) ≡ w.first)
      × ((if ltb_ℤ (pos 0) height then w.last else max_ℤ count (pos 0)) ≡ w.last)
use_of_window count offset height = elim (Bool-cases (leb_ℤ height (pos 0))) [
  | inl whole ↦
      let no_window : ltb_ℤ (pos 0) height ≡ false = ground arith in
      rw (compute_scroll_window_all count offset height whole, no_window, max_ℤ-pos_part count)
        (refl, refl)
  | inr part ↦ let window : ltb_ℤ (pos 0) height ≡ true = ground arith in rw window (refl, refl)
]

-- The rows over the window and the test of the code.
render_message_view_window :
    (strftime : ℕ → Option Text) (messages : List InboxMessage) (history offset height : ℤ)
    → let size = pos (length messages) in
      let window = compute_scroll_window size offset height in
      let first = pos_part window.first in
      let show = should_render_live_separator size history offset height in
      render_message_view strftime messages history offset height
      ≡ some (or_note (rows_between strftime messages show history first (pos_part window.last)))
unfolding render_message_view
render_message_view_window strftime messages history offset height =
    let n : ℕ = length messages in
    let (e, e', order, high) = window_is_range n offset height in
    let (u, u') = use_of_window (pos n) offset height in
    let window = compute_scroll_window (pos n) offset height in
    let first : ℕ = pos_part window.first in
    let last : ℕ = pos_part window.last in
    let top : max_ℤ (pos n) (pos 0) ≡ pos n = max_ℤ-pos_part (pos n) in
    let count : pos_part (window.last -ℤ window.first) ≡ last - first =
      rw (e, e') (ap pos_part (-ℤ_pos last first order)) in
    let whole =
      subst (λ m. (if ltb_ℤ (pos 0) height then window.last else m) ≡ window.last) top u' in
    let show : Bool = should_render_live_separator (pos n) history offset height in
    let rows = rows_from-shown strftime messages show history first last order high (λ on.
      let (after, before) = separator_inside n history offset height on in
      (subst (λ f. f <ℤ history) e after, subst (λ l. history <ℤ l) e' before)) in
    let rows' =
      subst
        (λ f.
          rows_from strftime messages show history (last - first) f
          ≡ some (rows_between strftime messages show history first last))
        (sym e) rows in
    rw (u, whole, count) (ap (λ r. r >>= λ l. some (or_note l)) rows')

-- The screen shows, in their order, the messages of a window of `height` rows that is scrolled
-- `offset` rows away from the newest message, as far as there are messages, and all messages if the
-- height is not positive. The mark of live messages stands once, right before the first message that
-- is not of the history, if that message and the one before it are both on the screen, and nowhere
-- otherwise. No message is read out of range, and a screen without messages has a note.
pub render_message_view_lem :
    (strftime : ℕ → Option Text) (messages : List InboxMessage) (history offset height : ℤ)
    → let top : ℕ = top_row (length messages) offset height in
      let bottom : ℕ = bottom_row (length messages) offset height in
      render_message_view strftime messages history offset height
      ≡ some (
          or_note
            (rows_between strftime messages (is_inside top history bottom) history top bottom))
render_message_view_lem strftime messages history offset height =
    let n : ℕ = length messages in
    let top : ℕ = top_row n offset height in
    let bottom : ℕ = bottom_row n offset height in
    let rows : Bool → ScrollWindow → Option (List Row) = λ show w. some (
      or_note (rows_between strftime messages show history (pos_part w.first) (pos_part w.last))) in
    render_message_view_window strftime messages history offset height
    ∙ ap (λ show. rows show (compute_scroll_window (pos n) offset height))
        (should_render_live_separator_lem n history offset height)
    ∙ ap (rows (is_inside top history bottom)) (compute_scroll_window_rows n offset height)
