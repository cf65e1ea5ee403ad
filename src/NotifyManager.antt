-- ===== src/NotifyManager.antt =====
-- notifyManeger.h: the notifications. The one `NotifyManager` is made at the first use of
-- `instance()` and ends with the program. The calls of libnotify and GLib are recorded, in order;
-- a notification is named by its number.
use photonbar.Common.{
  ℕ, suc, ◌≡◌, refl, sym, ◌∙◌, Bool, true, false, Option, none, some, List, [], ◌∷◌, ◌++◌,
  append-nil, append_assoc, if◌then◌else◌, Bytes, ascii,
}

pub data Urgency : Type 0 where
  low normal critical : Urgency

-- The arguments of `send`.
pub record Message : Type 0 where
  pub title : Bytes
  pub body : Bytes
  pub urgency : Urgency
  pub icon : Bytes

-- An icon that is `none` is a null pointer.
pub data Call : Type 0 where
  init : (app_name : Bytes) → Call
  new : (id : ℕ) (title body : Bytes) (icon : Option Bytes) → Call
  set_urgency : (id : ℕ) → Urgency → Call
  show : (id : ℕ) → Call
  unref : (id : ℕ) → Call
  uninit : Call

-- Whether the instance is there, the number of the next notification, and the calls so far.
pub record Notifier : Type 0 where
  pub made : Bool
  pub next : ℕ
  pub calls : List Call

unfoldable pub start : Notifier
start = record { made = false; next = 0; calls = [] }

-- The constructor, at the first use.
unfoldable pub instance_of : Notifier → Notifier
instance_of s =
    if s.made
    then s
    else record s { made = true; calls = s.calls ++ (Call.init (ascii "PhotonBar") ∷ []) }

abbrev pub icon_of : Bytes → Option Bytes
icon_of [] = none
icon_of (c ∷ cs) = some (c ∷ cs)

abbrev pub sending : ℕ → Message → List Call
sending id m =
    Call.new id m.title m.body (icon_of m.icon)
    ∷ Call.set_urgency id m.urgency
    ∷ Call.show id
    ∷ Call.unref id
    ∷ []

-- `NotifyManager::instance().send(…)`.
unfoldable pub send : Message → Notifier → Notifier
unfolding instance_of
send m s =
    let t = instance_of s in record t { next = suc t.next; calls = t.calls ++ sending t.next m }

-- The destructor, where there is an instance; `initted` is `notify_is_initted()`.
unfoldable pub finish : Bool → Notifier → Notifier
finish initted s =
    if s.made then record s { calls = s.calls ++ (if initted then Call.uninit ∷ [] else []) } else s

abbrev pub send_all : List Message → Notifier → Notifier
send_all [] s = s
send_all (m ∷ ms) s = send_all ms (send m s)

-- A notification for each message, numbered from `id` on.
abbrev pub notifications : ℕ → List Message → List Call
notifications id [] = []
notifications id (m ∷ ms) = sending id m ++ notifications (suc id) ms

send_all-made :
    (ms : List Message) (s : Notifier)
    → s.made ≡ true
    → ((send_all ms s).made ≡ true) × ((send_all ms s).calls ≡ s.calls ++ notifications s.next ms)
unfolding send
send_all-made [] s e = (e, sym (append-nil s.calls))
send_all-made (m ∷ ms) s e =
    let t = record s { next = suc s.next; calls = s.calls ++ sending s.next m } in
    let same : send m s ≡ t = rw (e, send) refl in
    let rest = send_all-made ms t e in
    rw (same, send_all)
      (rest.0, rest.1 ∙ append_assoc s.calls (sending s.next m) (notifications (suc s.next) ms))

-- From the start of the program to its end, messages that are not none have libnotify initialised
-- once before the first, one notification each, shown once and released, in their order, and the
-- library closed behind the last.
send_all-finish :
    (m : Message) (ms : List Message)
    → (finish true (send_all (m ∷ ms) start)).calls
      ≡ Call.init (ascii "PhotonBar") ∷ (notifications 0 (m ∷ ms) ++ (Call.uninit ∷ []))
unfolding finish start
send_all-finish m ms =
    let rest = send_all-made ms (send m start) (unfold send in refl) in
    rw (rest.0, rest.1, finish) (unfold send in refl)
