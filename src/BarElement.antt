-- ===== src/BarElement.antt =====
-- barElement.h: one clickable piece of text. The buffers are lists; `content` is the memory of
-- the char array. `A` is what a handler does, and `events` is the ordered map from event types.
use photonbar.Common.{ℕ, Bool, true, false, List, [], ◌∷◌, ltb, ◌==◌, if◌then◌else◌, Bytes, length}
use photonbar.Common.Format.{store}
use photonbar.Color.{Color}

pub data EventType : Type 0 where
  click_left click_middle click_right scroll_up scroll_down : EventType

abbrev pub event_number : EventType → ℕ
event_number EventType.click_left = 1
event_number EventType.click_middle = 2
event_number EventType.click_right = 3
event_number EventType.scroll_up = 4
event_number EventType.scroll_down = 5

abbrev pub content_max_len : ℕ
content_max_len = 255

pub record BarElement (A : Type 0) : Type 0 where
  pub content : Bytes
  pub ucs_content : List ℕ
  pub ucs_content_char_widths : List ℕ
  pub dirty_content : Bool
  pub content_len : ℕ
  pub ucs_content_len : ℕ
  pub begin_x : ℕ
  pub width : ℕ
  pub foreground_color : Color
  pub background_color : Color
  pub underline_color : Color
  pub events : List (ℕ × A)
  pub offset_pixels : ℕ
  pub underline : Bool

abbrev pub no_color : Color
no_color = record { b = 0; g = 0; r = 0; a = 0 }

module _ {A : Type 0} where
  -- The constructor; the buffers, which it leaves alone, are zero in static storage.
  unfoldable pub new_element : BarElement A
  new_element = record {
    content = [];
    ucs_content = [];
    ucs_content_char_widths = [];
    dirty_content = false;
    content_len = 0;
    ucs_content_len = 0;
    begin_x = 0;
    width = 0;
    foreground_color = no_color;
    background_color = no_color;
    underline_color = no_color;
    events = [];
    offset_pixels = 0;
    underline = false;
  }

  -- `events[type] = handler`, in the order of the keys.
  abbrev pub insert_event : ℕ → A → List (ℕ × A) → List (ℕ × A)
  insert_event k h [] = (k, h) ∷ []
  insert_event k h ((j, g) ∷ rest) =
      if k == j
      then (k, h) ∷ rest
      else if ltb k j
      then (k, h) ∷ (j, g) ∷ rest
      else (j, g) ∷ insert_event k h rest

  unfoldable pub set_event : EventType → A → BarElement A → BarElement A
  set_event t h e = record e { events = insert_event (event_number t) h e.events }

  -- `contentLen = snprintf(content, CONTENT_MAX_LEN, …)` and `dirtyContent = true`.
  unfoldable pub set_text : Bytes → BarElement A → BarElement A
  set_text t e = record e {
    content = store 254 t e.content;
    content_len = length t;
    dirty_content = true;
  }

  abbrev pub set_color : Color → BarElement A → BarElement A
  set_color c e = record e { foreground_color = c }
