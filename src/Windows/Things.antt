-- ===== src/Windows/Things.antt =====
-- What the requests of `init` and `~Bar` (bar.h) make in the X server and take away, and what an
-- `Action` leaves behind.
use photonbar.Common.{
  ℕ, ◌≡◌, refl, sym, ap, ◌∙◌, Option, none, some, List, [], ◌∷◌, ◌++◌, append_assoc,
}
use photonbar.Windows.{Request, Action, ◌>>=◌, behind, Mon, each}

-- What the server keeps for a client until it is given back.
pub data Thing : Type 0 where
  window pixmap context : ℕ → Thing

abbrev pub made : Request → List Thing
made (Request.create_window id _ _ _ _ _ _) = Thing.window id ∷ []
made (Request.create_pixmap id _ _ _ _) = Thing.pixmap id ∷ []
made (Request.create_gc id _ _) = Thing.context id ∷ []
made _ = []

abbrev pub gone : Request → List Thing
gone (Request.destroy_window id) = Thing.window id ∷ []
gone (Request.free_pixmap id) = Thing.pixmap id ∷ []
gone (Request.free_gc id) = Thing.context id ∷ []
gone _ = []

abbrev pub over_all : (Request → List Thing) → List Request → List Thing
over_all f [] = []
over_all f (r ∷ rs) = f r ++ over_all f rs

over_all-append :
    (f : Request → List Thing) (rs ss : List Request)
    → over_all f (rs ++ ss) ≡ over_all f rs ++ over_all f ss
over_all-append f [] ss = refl
over_all-append f (r ∷ rs) ss =
    ap (λ l. f r ++ l) (over_all-append f rs ss)
    ∙ sym (append_assoc (f r) (over_all f rs) (over_all f ss))

-- The requests make these things, in this order, and take none away.
pub record Makes (things : List Thing) (ops : List Request) : Type 0 where
  pub makes : over_all made ops ≡ things
  pub keeps : over_all gone ops ≡ []

-- The requests take these things away, in this order, and make none.
pub record Frees (things : List Thing) (ops : List Request) : Type 0 where
  pub frees : over_all gone ops ≡ things
  pub makes_none : over_all made ops ≡ []

pub Makes-append :
    (as' bs : List Thing) (rs ss : List Request)
    → Makes as' rs
    → Makes bs ss
    → Makes (as' ++ bs) (rs ++ ss)
Makes-append as' bs rs ss h g = record {
  makes = rw (over_all-append made rs ss, h.makes, g.makes) refl;
  keeps = rw (over_all-append gone rs ss, h.keeps, g.keeps) refl;
}

pub Frees-append :
    (as' bs : List Thing) (rs ss : List Request)
    → Frees as' rs
    → Frees bs ss
    → Frees (as' ++ bs) (rs ++ ss)
Frees-append as' bs rs ss h g = record {
  frees = rw (over_all-append gone rs ss, h.frees, g.frees) refl;
  makes_none = rw (over_all-append made rs ss, h.makes_none, g.makes_none) refl;
}

-- What the monitors of a bar hold in the server.
abbrev pub held : List Mon → List Thing
held [] = []
held (m ∷ ms) = Thing.window m.window ∷ Thing.pixmap m.pixmap ∷ held ms

-- What holds of the result, the next id and the requests, unless the code exits.
abbrev pub Post :
    {A : Type 0} → (A → ℕ → List Request → Type 0) → Option (A × ℕ × List Request) → Type 0
Post P none = Unit {0}
Post P (some (a, id, ops)) = P a id ops

Post-behind :
    {A : Type 0} (P : A → ℕ → List Request → Type 0) (ops : List Request)
    (r : Option (A × ℕ × List Request))
    → Post (λ a id rest. P a id (ops ++ rest)) r
    → Post P (behind ops r)
Post-behind P ops none h = tt
Post-behind P ops (some (a, id, rest)) h = h

Post-from :
    {A B : Type 0} (P : A → ℕ → List Request → Type 0) (Q : B → ℕ → List Request → Type 0)
    (f : A → Action B) (r : Option (A × ℕ × List Request))
    → Post P r
    → ((a : A) (id : ℕ) (ops : List Request)
        → P a id ops
        → Post (λ b id' rest. Q b id' (ops ++ rest)) (f a id))
    → Post Q (elim r as (λ _. Option (B × ℕ × List Request)) [
      | none ↦ none
      | some (a, id, ops) ↦ behind ops (f a id)
    ])
Post-from P Q f none h next = tt
Post-from P Q f (some (a, id, ops)) h next = Post-behind Q ops (f a id) (next a id ops h)

pub Post-bind :
    {A B : Type 0} (P : A → ℕ → List Request → Type 0) (Q : B → ℕ → List Request → Type 0)
    (m : Action A) (f : A → Action B) (id : ℕ)
    → Post P (m id)
    → ((a : A) (id' : ℕ) (ops : List Request)
        → P a id' ops
        → Post (λ b id'' rest. Q b id'' (ops ++ rest)) (f a id'))
    → Post Q ((m >>= f) id)
Post-bind P Q m f id h next = Post-from P Q f (m id) h next

pub Post-map :
    {A : Type 0} (P Q : A → ℕ → List Request → Type 0) (r : Option (A × ℕ × List Request))
    → Post P r
    → ((a : A) (id : ℕ) (ops : List Request) → P a id ops → Q a id ops)
    → Post Q r
Post-map P Q none h next = tt
Post-map P Q (some (a, id, ops)) h next = next a id ops h

pub Post-some :
    {A : Type 0} (P : A → ℕ → List Request → Type 0) {r : Option (A × ℕ × List Request)} {a : A}
    {id : ℕ} {ops : List Request}
    → r ≡ some (a, id, ops)
    → Post P r
    → P a id ops
Post-some P e h = rw e at h

pub each-silent :
    (f : Mon → List Request) (ms : List Mon) → ((m : Mon) → Makes [] (f m)) → Makes [] (each f ms)
each-silent f [] h = record { makes = refl; keeps = refl }
each-silent f (m ∷ ms) h = Makes-append [] [] (f m) (each f ms) (h m) (each-silent f ms h)
