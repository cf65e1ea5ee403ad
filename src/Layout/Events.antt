-- ===== src/Layout/Events.antt =====
-- bar.h, `processXEvents` as a whole: the queue of the X server, of which a press runs a handler and
-- an expose asks for a copy of the pixmaps. What a handler does to the elements is the parameter
-- `act`; the events of the queue are a list that `xcb_poll_for_event` runs through.
use photonbar.Common.{
  ℕ, ◌≡◌, ◌∙◌, sym, append-nil, append_assoc, refl, ap, Bool, true, false, not, ◌&&◌, ◌||◌, none,
  some, List, [], ◌∷◌, ◌++◌, ◌==◌, if◌then◌else◌, arith, Bool-cases, Option-cases, inl, inr,
}
use photonbar.Layout.{Sides, button_press}

pub data XEvent : Type 0 where
  expose : (count : ℕ) → XEvent
  press : (window detail x : ℕ) → XEvent
  other : XEvent

-- What a call works on: the elements, the flag `processingExpose` and the handlers that have run.
pub record Screen (A : Type 0) : Type 0 where
  pub sides : Sides A
  pub processing_expose : Bool
  pub ran : List A
  -- The monitors whose pixmaps `processXEvents` has copied to their windows.
  pub copied : List ℕ

module _ {A : Type 0} (act : A → Sides A → Sides A) where
  unfoldable pub on_press : ℕ → ℕ → ℕ → Screen A → Screen A
  on_press window detail x s = elim (button_press window detail x s.sides) [
    | none ↦ s
    | some h ↦ record s { sides = act h s.sides; ran = s.ran ++ (h ∷ []) }
  ]

  -- The loop over the queue, with the local `redraw`.
  unfoldable pub poll_events : List XEvent → Bool → Screen A → Screen A × Bool
  poll_events [] redraw s = (s, redraw)
  poll_events (XEvent.expose count ∷ es) redraw s =
      poll_events es (redraw || (count == 0 && not s.processing_expose)) s
  poll_events (XEvent.press window detail x ∷ es) redraw s =
      poll_events es redraw (on_press window detail x s)
  poll_events (XEvent.other ∷ es) redraw s = poll_events es redraw s

  -- The flag is set and cleared around the copies, between which no event is taken.
  unfoldable pub redraw_windows : List ℕ → Screen A → Screen A
  redraw_windows monitors s =
      let copying = record s { processing_expose = true } in
      let copies = record copying { copied = copying.copied ++ monitors } in
      record copies { processing_expose = false }

  unfoldable pub process_x_events : List ℕ → List XEvent → Screen A → Screen A
  process_x_events monitors es s =
      let (t, redraw) = poll_events es false s in if redraw then redraw_windows monitors t else t

  -- Calls one after another.
  abbrev pub process_all : List ℕ → List (List XEvent) → Screen A → Screen A
  process_all monitors [] s = s
  process_all monitors (es ∷ rest) s = process_all monitors rest (process_x_events monitors es s)

  abbrev pub is_last_expose : XEvent → Bool
  is_last_expose (XEvent.expose count) = count == 0
  is_last_expose (XEvent.press window detail x) = false
  is_last_expose XEvent.other = false

  -- The queue holds an expose event that no other follows.
  abbrev pub asks : List XEvent → Bool
  asks [] = false
  asks (e ∷ es) = is_last_expose e || asks es

  abbrev pub copies_for : List ℕ → List (List XEvent) → List ℕ
  copies_for monitors [] = []
  copies_for monitors (es ∷ rest) =
      let more = copies_for monitors rest in if asks es then monitors ++ more else more

  on_press_keeps :
      (window detail x : ℕ) (s : Screen A)
      → ((on_press window detail x s).processing_expose ≡ s.processing_expose)
        × ((on_press window detail x s).copied ≡ s.copied)
  unfolding on_press
  on_press_keeps window detail x s = elim (Option-cases (button_press window detail x s.sides)) [
    | inl missed ↦ rw (on_press, missed) (refl, refl)
    | inr (h, hit) ↦ rw (on_press, hit) (refl, refl)
  ]

  poll_events-asks :
      (es : List XEvent) (redraw : Bool) (s : Screen A)
      → s.processing_expose ≡ false
      → ((poll_events es redraw s).1 ≡ (redraw || asks es))
        × ((poll_events es redraw s).0.processing_expose ≡ false)
        × ((poll_events es redraw s).0.copied ≡ s.copied)
  unfolding poll_events
  poll_events-asks [] redraw s clear = (ground arith, clear, refl)
  poll_events-asks (XEvent.expose count ∷ es) redraw s clear =
      let (flag, off, same) =
        poll_events-asks es (redraw || (count == 0 && not s.processing_expose)) s clear in
      (ground (arith, flag, clear), off, same)
  poll_events-asks (XEvent.press window detail x ∷ es) redraw s clear =
      let (kept, still) = on_press_keeps window detail x s in
      let (flag, off, same) =
        poll_events-asks es redraw (on_press window detail x s) (kept ∙ clear) in
      (ground (arith, flag), off, same ∙ still)
  poll_events-asks (XEvent.other ∷ es) redraw s clear =
      let (flag, off, same) = poll_events-asks es redraw s clear in
      (ground (arith, flag), off, same)

  process_x_events-asks :
      (monitors : List ℕ) (es : List XEvent) (s : Screen A)
      → s.processing_expose ≡ false
      → ((process_x_events monitors es s).processing_expose ≡ false)
        × ((process_x_events monitors es s).copied ≡ s.copied ++ (if asks es then monitors else []))
  unfolding process_x_events redraw_windows
  process_x_events-asks monitors es s clear =
      let (flag, off, same) = poll_events-asks es false s clear in
      elim (Bool-cases (asks es)) [
        | inl asked ↦
            rw (process_x_events, flag, asked) (refl, ap (λ (c : List ℕ). c ++ monitors) same)
        | inr quiet ↦ rw (process_x_events, flag, quiet) (off, same ∙ sym (append-nil s.copied))
      ]

  -- Over any calls from a clear flag on, the flag is clear after each of them, and the windows are
  -- copied once for each call whose queue holds an expose event with the count 0, whatever the
  -- handlers do: no expose is ever skipped on account of the flag.
  pub process_all-copies :
      (monitors : List ℕ) (calls : List (List XEvent)) (s : Screen A)
      → s.processing_expose ≡ false
      → ((process_all monitors calls s).processing_expose ≡ false)
        × ((process_all monitors calls s).copied ≡ s.copied ++ copies_for monitors calls)
  process_all-copies monitors [] s clear = (clear, sym (append-nil s.copied))
  process_all-copies monitors (es ∷ rest) s clear =
      let (off, here) = process_x_events-asks monitors es s clear in
      let (last, later) = process_all-copies monitors rest (process_x_events monitors es s) off in
      (
        last,
        elim (Bool-cases (asks es)) [
          | inl asked ↦
              let here' = rw asked at here in
              rw (later, here', asked) (append_assoc s.copied monitors (copies_for monitors rest))
          | inr quiet ↦ let here' = rw (quiet, append-nil) at here in rw (later, here', quiet) refl
        ],
      )
