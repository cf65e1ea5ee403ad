-- ===== src/Notifications/State.antt =====
-- The answers of dunst and what the bar shows of them (modules/notifications.h).
use photonbar.Common.{
  ℕ, ◌+◌, ◌≡◌, ◌≢◌, refl, Bool, true, none, some, [], ◌∷◌, ◌++◌, arith, if◌then◌else◌, Bytes, zero,
  suc, ◌/◌, ◌%◌, ◌≤◌, ltb, not, drop, length, length-append, take_all, All, All-append,
  decimal_fuel, Bool-cases, inl, inr,
}
use photonbar.Common.Int.{ℤ, pos, negsuc, ltb_ℤ}
use photonbar.Common.Format.{format_d, store, c_string}
use photonbar.Palette.{default_color, muted_color}
use photonbar.Notifications.{
  Notifications, Dunst, Action, update, update_state, update_visuals, perform, bell, bell_off, line,
  prints_true,
}

-- What the element shows when its content is read up to the terminator.
abbrev pub shown : Notifications → Bytes
shown n = c_string n.element.content

-- The picture that goes with a state.
abbrev pub icon : Bool → ℤ → Bytes
icon paused waiting =
    if not paused
    then bell
    else if ltb_ℤ (pos 0) waiting
    then bell_off ++ (32 ∷ format_d waiting)
    else bell_off

NonZero : ℕ → Type 0
NonZero c = c ≢ 0

c_string_cut : (t rest : Bytes) → All NonZero t → c_string (t ++ (0 ∷ rest)) ≡ t
unfolding c_string NonZero
c_string_cut [] rest h = refl
c_string_cut (c ∷ t) rest h = ground (arith, c_string_cut t rest h.1)

decimal_fuel-NonZero : (f n : ℕ) → All NonZero (decimal_fuel f n)
unfolding NonZero
decimal_fuel-NonZero zero n = tt
decimal_fuel-NonZero (suc f) n = elim (Bool-cases (ltb n 10)) [
  | inl h ↦ rw h ((omega arith), tt)
  | inr h ↦ rw h (
      All-append NonZero (decimal_fuel f (n / 10)) ((48 + n % 10) ∷ [])
        (decimal_fuel-NonZero f (n / 10)) ((omega arith), tt))
]

length-decimal_fuel : (f n : ℕ) → length (decimal_fuel f n) ≤ f
length-decimal_fuel zero n = omega arith
length-decimal_fuel (suc f) n = ground (
  arith,
  length-decimal_fuel f (n / 10),
  length-append (decimal_fuel f (n / 10)) ((48 + n % 10) ∷ []),
)

format_d-NonZero : (z : ℤ) → All NonZero (format_d z)
unfolding format_d NonZero
format_d-NonZero (pos n) = decimal_fuel-NonZero 20 n
format_d-NonZero (negsuc n) = ((omega arith), decimal_fuel-NonZero 20 (suc n))

length-format_d : (z : ℤ) → length (format_d z) ≤ 21
unfolding format_d
length-format_d (pos n) = omega (arith, length-decimal_fuel 20 n)
length-format_d (negsuc n) = omega (arith, length-decimal_fuel 20 (suc n))

icon-NonZero : (paused : Bool) (waiting : ℤ) → All NonZero (icon paused waiting)
unfolding NonZero
icon-NonZero paused waiting = ground (arith, format_d-NonZero waiting)

length-icon : (paused : Bool) (waiting : ℤ) → length (icon paused waiting) ≤ 254
length-icon paused waiting = ground (arith, length-format_d waiting)

visuals_content :
    (n : Notifications)
    → (update_visuals n).element.content
      ≡ icon n.is_paused n.waiting_count
        ++ (0 ∷ drop (length (icon n.is_paused n.waiting_count) + 1) n.element.content)
unfolding update_visuals store
visuals_content n = ground (
  arith,
  length-icon n.is_paused n.waiting_count,
  take_all 254 (icon n.is_paused n.waiting_count) (length-icon n.is_paused n.waiting_count),
)

visuals_shown : (n : Notifications) → shown (update_visuals n) ≡ icon n.is_paused n.waiting_count
visuals_shown n =
    rw (visuals_content n)
      (c_string_cut (icon n.is_paused n.waiting_count) _ (icon-NonZero n.is_paused n.waiting_count))

visuals_keep :
    (n : Notifications)
    → ((update_visuals n).is_paused ≡ n.is_paused)
      × ((update_visuals n).waiting_count ≡ n.waiting_count)
      × ((update_visuals n).element.foreground_color
          ≡ (if n.is_paused then muted_color else default_color))
      × ((update_visuals n).element.dirty_content ≡ true)
unfolding update_visuals
visuals_keep n = ground arith

-- What dunst says, or the old value where it says nothing.
abbrev pub paused_by : Dunst → Notifications → Bool
paused_by answers n = elim answers.is_paused [ none ↦ n.is_paused | some s ↦ prints_true s ]

abbrev pub waiting_by : (Bytes → ℤ) → Dunst → Notifications → ℤ
waiting_by atoi answers n = elim answers.count_waiting [
  | none ↦ n.waiting_count
  | some s ↦ atoi (line 15 s)
]

-- An update takes over what dunst says, line breaks included, and keeps the old value where a
-- pipe fails. The element then reads as the bell, or as the crossed bell with the number of
-- waiting notifications if that is positive; it is muted exactly when dunst is paused.
update-agrees :
    (atoi : Bytes → ℤ) (answers : Dunst) (n : Notifications)
    → (shown (update atoi answers n) ≡ icon (paused_by answers n) (waiting_by atoi answers n))
      × ((update atoi answers n).element.foreground_color
          ≡ (if paused_by answers n then muted_color else default_color))
      × ((update atoi answers n).element.dirty_content ≡ true)
unfolding update update_state
update-agrees atoi answers n =
    let n' = update_state atoi answers n in ground (arith, visuals_keep n', visuals_shown n')

-- A click asks dunst to toggle once, and draws the bar once if it may; what it shows is what an
-- update with the same answers shows.
perform-asks :
    (atoi : Bytes → ℤ) (answers : Dunst) (n : Notifications)
    → ((perform Action.toggle_notifications atoi answers n).set_paused_calls
        ≡ n.set_paused_calls + 1)
      × ((perform Action.toggle_notifications atoi answers n).renders
          ≡ n.renders + (if n.base.render_set then 1 else 0))
      × ((perform Action.toggle_notifications atoi answers n).element
          ≡ (update atoi answers n).element)
unfolding perform update update_state update_visuals
perform-asks atoi answers n = ground arith
