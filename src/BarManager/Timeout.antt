-- ===== src/BarManager/Timeout.antt =====
-- main.cpp, how long a round of `run` waits: the argument of `select`.
use photonbar.Common.{ℕ, ◌+◌, ◌-◌, ◌*◌, ◌/◌, ◌<◌, ◌≤◌, ◌≡◌, arith, false, not, if◌then◌else◌}
use photonbar.Common.Int.{ℤ, negsuc, ltb_ℤ, eqb_ℤ}

pub record Timeval : Type 0 where
  pub tv_sec : ℕ
  pub tv_usec : ℕ

-- The largest descriptor; -1 is none.
unfoldable pub max_fd : ℤ → ℤ → ℤ
max_fd xcb_fd i3_fd =
    let first = if not (eqb_ℤ xcb_fd (negsuc 0)) then xcb_fd else negsuc 0 in
    if ltb_ℤ first i3_fd then i3_fd else first

-- With the nanoseconds of the wall clock's second.
unfoldable pub select_timeout : ℤ → ℤ → ℕ → Timeval
select_timeout xcb_fd i3_fd nsec =
    if eqb_ℤ (max_fd xcb_fd i3_fd) (negsuc 0)
    then record { tv_sec = 1; tv_usec = 0 }
    else record { tv_sec = 0; tv_usec = 1000000 - nsec / 1000 + 10000 }

-- With a descriptor to wait for, a round without events ends ten milliseconds behind the next full
-- second, to the microsecond.
select_timeout-wakes :
    (xcb_fd i3_fd : ℤ) (nsec : ℕ)
    → nsec < 1000000000
    → eqb_ℤ (max_fd xcb_fd i3_fd) (negsuc 0) ≡ false
    → (1010000000 ≤ nsec + (select_timeout xcb_fd i3_fd nsec).tv_usec * 1000)
      × (nsec + (select_timeout xcb_fd i3_fd nsec).tv_usec * 1000 < 1010001000)
unfolding select_timeout
select_timeout-wakes xcb_fd i3_fd nsec h waits = rw waits (omega arith, omega arith)
