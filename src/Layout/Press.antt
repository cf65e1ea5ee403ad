-- ===== src/Layout/Press.antt =====
-- Which handler a button press reaches (`processXEvents` of bar.h).
use photonbar.Common.{
  ℕ, ◌+◌, ◌<◌, ◌≤◌, ◌≡◌, ◌≢◌, refl, ◌∙◌, sym, ◌-◌, none, some, List, [], ◌∷◌, ◌++◌, arith,
  append_assoc, All, All-append,
}
use photonbar.Common.Int.{ℤ, pos, ◌+ℤ◌}
use photonbar.BarElement.{BarElement}
use photonbar.Layout.{
  Panel, Sides, lookup_event, press_elements, press, button_press, set_windows, place_panels,
  place_elements, render_all_elements, Separator,
}
use photonbar.Layout.Order.{Lays, elements_of, Lays-append, Lays-weaken, span, render-Lays}

module _ {A : Type 0} where
  press_elements-append :
      (window at detail x : ℕ) (es fs : List (BarElement A))
      → press_elements window at detail x (es ++ fs) ≡ elim (press_elements window at detail x es) [
        | none ↦ press_elements window at detail x fs
        | some h ↦ some h
      ]
  unfolding press_elements
  press_elements-append window at detail x [] fs = refl
  press_elements-append window at detail x (e ∷ es) fs =
      ground (arith, press_elements-append window at detail x es fs)

  -- The elements of all modules searched in a row.
  press_row :
      (at detail x : ℕ) (ps : List (Panel A))
      → All (λ p. p.window ≡ at) ps
      → press at detail x ps ≡ press_elements at at detail x (elements_of ps)
  unfolding press
  press_row at detail x [] h = unfold press_elements in refl
  press_row at detail x (p ∷ ps) h = ground (
    arith,
    press_row at detail x ps h.1,
    press_elements-append at at detail x p.elements (elements_of ps),
  )

  -- No element of a row to the right of `x` is reached.
  press_beyond :
      (at detail x from end : ℕ) (es : List (BarElement A))
      → x < from
      → Lays from es end
      → press_elements at at detail x es ≡ none
  unfolding press_elements
  press_beyond at detail x from end [] before lays = refl
  press_beyond at detail x from end (e ∷ es) before lays =
      ground (arith, press_beyond at detail x (e.begin_x + e.width) end es (omega arith) lays.1)

  Lays-from :
      (from end : ℕ) (pre : List (BarElement A)) (e : BarElement A) (post : List (BarElement A))
      → Lays from (pre ++ (e ∷ post)) end
      → from ≤ e.begin_x
  Lays-from from end [] e post h = h.0
  Lays-from from end (p ∷ pre) e post h =
      omega (arith, Lays-from (p.begin_x + p.width) end pre e post h.1)

  press_hit :
      (at detail x from end : ℕ) (pre : List (BarElement A)) (e : BarElement A)
      (post : List (BarElement A))
      → Lays from (pre ++ (e ∷ post)) end
      → e.begin_x ≤ x
      → x < e.begin_x + e.width
      → press_elements at at detail x (pre ++ (e ∷ post)) ≡ lookup_event detail e.events
  unfolding press_elements
  press_hit at detail x from end [] e post lays h k =
      ground (arith, press_beyond at detail x (e.begin_x + e.width) end post k lays.1)
  press_hit at detail x from end (p ∷ pre) e post lays h k = ground (
    arith,
    press_hit at detail x (p.begin_x + p.width) end pre e post lays.1 h k,
    Lays-from (p.begin_x + p.width) end pre e post lays.1,
  )

  elements_of-append :
      (ps qs : List (Panel A)) → elements_of (ps ++ qs) ≡ elements_of ps ++ elements_of qs
  elements_of-append [] qs = refl
  elements_of-append (p ∷ ps) qs = rw (elements_of-append ps qs) (sym (append_assoc p.elements _ _))

  placed_windows :
      (w sep : ℕ) (ps : List (Panel A)) (x : ℤ)
      → All (λ p. p.window ≡ w) (place_panels sep x (set_windows w ps)).0
  unfolding place_panels
  placed_windows w sep [] x = tt
  placed_windows w sep (p ∷ []) x = (refl, tt)
  placed_windows w sep (p ∷ q ∷ ps) x =
      (refl, placed_windows w sep (q ∷ ps) ((place_elements x p.elements).1 +ℤ pos sep))

  rendered_windows :
      (window mon_width margin : ℕ) (sep : Separator) (s : Sides A)
      → let out = render_all_elements window mon_width margin sep s in
        All (λ p. p.window ≡ window) (out.left ++ out.right)
  unfolding render_all_elements
  rendered_windows window mon_width margin sep s =
      All-append (λ p. p.window ≡ window) _ _ (placed_windows window sep.drawn s.left _)
        (placed_windows window sep.drawn s.right _)

  -- The elements of both sides as `render_all_elements` placed them, from left to right.
  abbrev pub on_screen : ℕ → ℕ → ℕ → ℕ → Sides A → List (BarElement A)
  on_screen window mon_width margin sep s =
      let out =
        render_all_elements window mon_width margin (record { drawn = sep; counted = sep }) s in
      elements_of (out.left ++ out.right)

  -- On a monitor where both sides and the margin fit, and where the separator takes the width that
  -- was counted for it, a press on the bar's window reaches the handler that the element under the pointer has for
  -- that button, or none if it has none; no other element is asked.
  pub button_press-hit :
      (window mon_width margin sep detail x : ℕ) (s : Sides A) (pre : List (BarElement A))
      (e : BarElement A) (post : List (BarElement A))
      → span sep s.left + span sep s.right + margin ≤ mon_width
      → mon_width < 65536
      → on_screen window mon_width margin sep s ≡ pre ++ (e ∷ post)
      → e.begin_x ≤ x
      → x < e.begin_x + e.width
      → button_press window detail x
          (render_all_elements window mon_width margin (record { drawn = sep; counted = sep }) s)
        ≡ lookup_event detail e.events
  unfolding button_press
  button_press-hit window mon_width margin sep detail x s pre e post fits wide split h k =
      let out =
        render_all_elements window mon_width margin (record { drawn = sep; counted = sep }) s in
      let lays = render-Lays window mon_width margin sep s fits wide in
      let row =
        Lays-append 0 _ (mon_width - margin) (elements_of out.left) (elements_of out.right)
          (Lays-weaken 0 _ (mon_width - margin - span sep s.right) _ lays.1 lays.0) lays.2 in
      let together = rw (← elements_of-append out.left out.right) at row in
      press_row window detail x (out.left ++ out.right)
        (rendered_windows window mon_width margin (record { drawn = sep; counted = sep }) s)
      ∙ rw split
          (press_hit window detail x 0 (mon_width - margin) pre e post (rw split at together) h k)

  press_elements_elsewhere :
      (window at detail x : ℕ) (es : List (BarElement A))
      → window ≢ at
      → press_elements window at detail x es ≡ none
  unfolding press_elements
  press_elements_elsewhere window at detail x [] ne = refl
  press_elements_elsewhere window at detail x (e ∷ es) ne =
      ground (arith, press_elements_elsewhere window at detail x es ne)

  press_elsewhere :
      (window at detail x : ℕ) (ps : List (Panel A))
      → window ≢ at
      → All (λ p. p.window ≡ window) ps
      → press at detail x ps ≡ none
  unfolding press
  press_elsewhere window at detail x [] ne h = refl
  press_elsewhere window at detail x (p ∷ ps) ne h =
      let nothing =
        press_elements_elsewhere p.window at detail x p.elements (λ q. ne (sym h.0 ∙ q)) in
      rw (nothing, press) (press_elsewhere window at detail x ps ne h.1)

  -- A press on any other window, such as that of a second monitor, reaches no handler.
  button_press_elsewhere :
      (window at mon_width margin detail x : ℕ) (sep : Separator) (s : Sides A)
      → window ≢ at
      → button_press at detail x (render_all_elements window mon_width margin sep s) ≡ none
  unfolding button_press
  button_press_elsewhere window at mon_width margin detail x sep s ne =
      press_elsewhere window at detail x _ ne (rendered_windows window mon_width margin sep s)
