-- ===== src/Ping.antt =====
-- modules/ping.h: the traffic of the network interfaces, from /proc/net/dev, and the latency. The
-- text of the file is an argument, `none` where it cannot be read; the latency that `getLatencyMs`
-- measures is one too.
pub mod Text
pub mod Sums
use photonbar.Common.{
  ℕ, zero, suc, ◌+◌, ◌-◌, ◌*◌, ◌%◌, Bool, true, false, not, ◌&&◌, Option, none, some, List, [], ◌∷◌,
  ◌++◌, ◌==◌, if◌then◌else◌, Bytes, ascii, bytes_eq, take, length,
}
use photonbar.Common.Int.{ℤ, pos, negsuc, eqb_ℤ}
use photonbar.Common.Floats.{Floats}
use photonbar.Common.Digits.{is_digit, scan_digits}
use photonbar.BarElement.{BarElement, EventType, new_element, set_event, set_text}
use photonbar.Utf8.{encode_utf8}

pub data Action : Type 0 where
  toggle_details : Action

abbrev pub u64 : ℕ → ℕ
u64 n = n % 18446744073709551616

unfoldable pub skip_to_digit : Bytes → Bytes
skip_to_digit [] = []
skip_to_digit (c ∷ cs) = if is_digit c then c ∷ cs else skip_to_digit cs

-- The number wraps at each digit in the code, which gives the same as at the end.
unfoldable pub fast_atoull : Bytes → ℕ × Bytes
fast_atoull s = let (n, rest) = scan_digits 0 (skip_to_digit s) in (u64 n, rest)

-- Behind the first `k` of the text, or at its end.
unfoldable pub after_char : ℕ → Bytes → Bytes
after_char k [] = []
after_char k (c ∷ cs) = if c == k then cs else after_char k cs

unfoldable pub skip_blanks : Bytes → Bytes
skip_blanks [] = []
skip_blanks (c ∷ cs) = if c == 32 then skip_blanks cs else c ∷ cs

abbrev pub is_loopback : Bytes → Bool
is_loopback s = bytes_eq (ascii "lo:") (take 3 s)

-- `for (int i = 0; i < 7; ++i) fast_atoull(p);`
unfoldable pub skip_numbers : ℕ → Bytes → Bytes
skip_numbers zero s = s
skip_numbers (suc n) s = skip_numbers n (fast_atoull s).1

-- What has been sent and what has been received.
pub record Traffic : Type 0 where
  pub sent : ℕ
  pub recv : ℕ

-- One line, from its first character on: the sums, and what follows the line.
unfoldable pub net_line : Bytes → Traffic → Traffic × Bytes
net_line p t =
    let (recv, columns) = fast_atoull (after_char b':' p) in
    let (sent, rest) = fast_atoull (skip_numbers 7 columns) in
    if is_loopback p
    then (t, after_char 10 p)
    else (record { sent = u64 (t.sent + sent); recv = u64 (t.recv + recv) }, after_char 10 rest)

-- The loop over the lines, for at most `fuel` rounds; `none` is a loop that still runs.
unfoldable pub net_lines : ℕ → Bytes → Traffic → Option Traffic
net_lines zero s t = none
net_lines (suc f) s t = elim (skip_blanks s) [
  | [] ↦ some t
  | c ∷ cs ↦ net_lines f (net_line (c ∷ cs) t).1 (net_line (c ∷ cs) t).0
]

-- The numbers that it is called with stay as they are where the file cannot be read.
unfoldable pub get_network_io : Option Bytes → Traffic → Option Traffic
get_network_io none t = some t
get_network_io (some content) t =
    let text = take 4095 content in
    let body = after_char 10 (after_char 10 text) in
    if length text == 0
    then some t
    else net_lines (suc (length body)) body (record { sent = 0; recv = 0 })

-- The subtraction of two unsigned long long.
abbrev pub sub_u64 : ℕ → ℕ → ℕ
sub_u64 a b = (a + 18446744073709551616 - b) % 18446744073709551616

-- What the calls of one attempt to connect answer: the socket, `connect` (done or in progress),
-- `poll`, the error of the socket, and the differences of the two readings of the clock.
pub record Attempt : Type 0 where
  pub has_socket : Bool
  pub connecting : Bool
  pub ready : Bool
  pub has_error : Bool
  pub seconds : ℤ
  pub nanoseconds : ℤ

pub record Ping (W : Type 0) : Type 0 where
  pub element : BarElement Action
  pub show_details : Bool
  pub last : Traffic
  pub last_up : W
  pub last_down : W
  pub cached_latency : W
  pub last_latency_check : ℤ
  pub last_update : ℤ

abbrev pub icon_net : Bytes
icon_net = encode_utf8 0xef09

module _ {W : Type 0} (f : Floats W) where
  -- The constructor, with what `getNetworkIo` made of the two zeros.
  unfoldable pub new_ping : Traffic → Ping W
  new_ping t = record {
    element = set_event EventType.click_left Action.toggle_details new_element;
    show_details = true;
    last = t;
    last_up = f.of_int (pos 0);
    last_down = f.of_int (pos 0);
    cached_latency = f.of_int (negsuc 0);
    last_latency_check = pos 0;
    last_update = pos 0;
  }

  -- `getLatencyMs`: -1 where one of the calls fails, else the time of the connection.
  unfoldable pub get_latency_ms : Attempt → W
  get_latency_ms a =
      let took =
        f.add (f.mul (f.of_int a.seconds) (f.of_int (pos 1000)))
          (f.div (f.of_int a.nanoseconds) (f.of_int (pos 1000000))) in
      if not a.has_socket
      then f.of_int (negsuc 0)
      else if not a.connecting
      then f.of_int (negsuc 0)
      else if not a.ready
      then f.of_int (negsuc 0)
      else if a.has_error
      then f.of_int (negsuc 0)
      else took

  -- The rate in kilobytes, which the code clamps to 0, and its mean with the last one.
  unfoldable pub rate : ℕ → ℕ → W
  rate now last =
      let kilobytes = f.mul (f.of_int (pos (sub_u64 now last))) (f.decimal 9765625 10) in
      if f.less kilobytes (f.of_int (pos 0)) then f.of_int (pos 0) else kilobytes

  unfoldable pub smooth : W → W → W
  smooth now last = f.add (f.mul now (f.decimal 7 1)) (f.mul last (f.decimal 3 1))

  unfoldable pub ping_text : W → W → Ping W → Bytes
  ping_text up down p =
      let rates =
        32
        ∷ (encode_utf8 0xeaa0
            ++ (f.fixed 1 up
                ++ (ascii "K " ++ (encode_utf8 0xea9d ++ (f.fixed 1 down ++ ascii "K"))))) in
      if not p.show_details
      then icon_net
      else if not (f.less p.cached_latency (f.of_int (pos 0)))
      then icon_net ++ (32 ∷ (f.fixed 1 p.cached_latency ++ (ascii "ms" ++ rates)))
      else icon_net ++ (ascii " Off" ++ rates)

  -- `cur` is what `getNetworkIo` left in the two locals, `latency` what a measurement would give.
  unfoldable pub update : Traffic → W → ℤ → Ping W → Ping W
  update cur latency now p =
      let up = smooth (rate cur.sent p.last.sent) p.last_up in
      let down = smooth (rate cur.recv p.last.recv) p.last_down in
      let known = eqb_ℤ now p.last_latency_check in
      let next = record p {
        last_up = up;
        last_down = down;
        last = cur;
        cached_latency = if known then p.cached_latency else latency;
        last_latency_check = now;
        last_update = now;
      } in
      record next { element = set_text (ping_text up down next) next.element }

  -- The left click, before the drawing.
  unfoldable pub click : Traffic → W → ℤ → Ping W → Ping W
  click cur latency now p = update cur latency now (record p { show_details = not p.show_details })
