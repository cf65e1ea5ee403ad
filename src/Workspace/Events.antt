-- ===== src/Workspace/Events.antt =====
-- The events of i3 in modules/workspace.h, `handleI3Events`: when the names are asked for again,
-- and which descriptors are open afterwards.
use photonbar.Common.{◌≡◌, Bool, true, false, Option, List, ◌∷◌, arith}
use photonbar.Common.Int.{ℤ, negsuc, eqb_ℤ, eqb_ℤ_iff}
use photonbar.Workspace.{
  Workspace, Reply, Reads, handle_i3_events, update_elements, subscribe, initialize,
}

-- The result says whether i3 reported a change, and only then, on a readable descriptor, are the
-- elements updated. At the end of the stream the descriptor is closed and replaced, and otherwise
-- it is kept.
pub handle_i3_events_lem :
    (ready : Bool) (reads : Reads) (reopened : ℤ) (first again : Option (List Reply))
    (w : Workspace)
    → let result = handle_i3_events ready reads reopened first again w in
      (w.i3_fd ≡ negsuc 0 → result ≡ (w, false))
      × (ready ≡ false → result ≡ (w, false))
      × (result.1 ≡ true → result.0 ≡ update_elements first again w)
      × (result.1 ≡ false
          → (result.0.heap ≡ w.heap)
            × (ready ≡ true
                → eqb_ℤ w.i3_fd (negsuc 0) ≡ false
                → reads.at_end ≡ true
                → result.0.i3_fd ≡ reopened)
            × (reads.at_end ≡ false → result.0 ≡ w))
unfolding handle_i3_events subscribe
handle_i3_events_lem ready reads reopened first again w =
    ground (arith, eqb_ℤ_iff w.i3_fd (negsuc 0))

-- The second of two successful subscriptions, the one of the constructor and the one of
-- `initializeAllModules`, overwrites the descriptor of the first, which stays open.
initialize-leaks :
    (fd fd' : ℤ) (w : Workspace)
    → (initialize fd w).1 ≡ true
    → (initialize fd' (initialize fd w).0).1 ≡ true
    → ((initialize fd' (initialize fd w).0).0.i3_fd ≡ fd')
      × ((initialize fd' (initialize fd w).0).0.open_fds ≡ (fd' ∷ fd ∷ w.open_fds))
unfolding initialize subscribe
initialize-leaks fd fd' w h k = ground arith
