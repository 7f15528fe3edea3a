-- ===== src/Core/Timeline/Activity.antt =====
-- crates/zanei-core/src/timeline/activity.rs: the activities that a session's events show.
-- The sum of the counts of a shortcut wraps at 64 bits, as the released program's does.
pub mod Distinct
pub mod Numerals
use zanei.Prelude.{
  ℕ, zero, suc, ◌+◌, ◌%◌, ◌^◌, Bool, true, false, not, ◌&&◌, ◌||◌, Option, none, some, List, [],
  ◌∷◌, ◌++◌, map, Text, text, text_eq, opt_text_eq, to_ascii_lowercase, ltb, ◌==◌, if◌then◌else◌,
  any, is_empty, take, length,
}
use zanei.Prelude.Slices.{
  break_at, split_once, rsplit_once, split_once_text, strip_prefix, trim_end,
}
use zanei.Prelude.Maps.{TextMap}
use zanei.Prelude.Ordered.{entry_add, insert_text, to_string}
use zanei.Core.Schema.{
  Event, Window, Element, EventData, InputKeyKind, ScrollDirection, BrowserNavigateData,
  InputKeyData,
}

abbrev pub max_activities : ℕ
max_activities = 5

abbrev pub quoted : Text → Text
quoted t = (0x22 ∷ t) ++ (0x22 ∷ [])

-- `rest.split(['/', '?', '#']).next()`, and then the authority without its user.
abbrev host_port : Text → Text
host_port rest =
    let authority = (break_at (λ c. c == b'/' || c == b'?' || c == b'#') rest).0 in
    elim (rsplit_once b'@' authority) [ none ↦ authority | some (user, value) ↦ value ]

abbrev bracketed : Option Text → Option Text
bracketed none = none
bracketed (some value) = elim (split_once b']' value) [
  | none ↦ none
  | some (host, rest) ↦ some host
]

abbrev bare_host : Text → Text
bare_host host_port = elim (bracketed (strip_prefix (b'[' ∷ []) host_port)) [
  | some host ↦ host
  | none ↦ (break_at (λ c. c == b':') host_port).0
]

abbrev canonical_host : Text → Option Text
canonical_host host =
    if is_empty host then none else some (to_ascii_lowercase (trim_end (λ c. c == b'.') host))

unfoldable pub url_host : Text → Option Text
url_host url = elim (split_once_text (text "://") url) [
  | none ↦ none
  | some (scheme, rest) ↦ canonical_host (bare_host (host_port rest))
]

unfoldable pub scroll_direction : ScrollDirection → Text
scroll_direction ScrollDirection.up = text "up"
scroll_direction ScrollDirection.down = text "down"
scroll_direction ScrollDirection.left = text "left"
scroll_direction ScrollDirection.right = text "right"

unfoldable pub shortcut_verb : Text → Option Text
shortcut_verb combo =
    let key = to_ascii_lowercase combo in
    if text_eq key (text "cmd+s")
    then some (text "Saved")
    else if text_eq key (text "cmd+c")
    then some (text "Copied")
    else if text_eq key (text "cmd+v")
    then some (text "Pasted")
    else if text_eq key (text "cmd+z")
    then some (text "Undid")
    else none

abbrev pub window_title : Option Window → Option Text
window_title none = none
window_title (some w) = w.title

abbrev element_title : Option Element → Option Text
element_title none = none
element_title (some e) = e.title

-- `map_or_else(|| default, |value| format!("{prefix}{value}"))`.
abbrev or_default : Text → (Text → Text) → Option Text → Text
or_default default f none = default
or_default default f (some t) = f t

abbrev describe_key : InputKeyKind → InputKeyData → Text
describe_key InputKeyKind.shortcut d =
    or_default (text "Used a shortcut") (λ combo. text "Used shortcut " ++ combo) d.combo
describe_key _ d = text "Entered " ++ to_string d.count ++ text " key events"

abbrev viewed_url : (Text → Text) → Option Text → Text
viewed_url f url = or_default (text "Viewed a page") (λ u. text "Viewed " ++ f u) url

abbrev describe_data : Event → EventData → Text
describe_data e (EventData.browser_navigate d) =
    or_default (viewed_url (λ u. u) d.url) (λ title. text "Viewed " ++ quoted title) d.tab_title
describe_data e (EventData.input_key d) = describe_key d.kind d
describe_data e (EventData.input_scroll d) =
    text "Scrolled "
    ++ scroll_direction d.direction
    ++ text " "
    ++ to_string d.count
    ++ text " times"
describe_data e (EventData.ui_click d) =
    or_default (text "Clicked a UI element") (λ t. text "Clicked " ++ quoted t)
      (element_title e.element)
describe_data e (EventData.window_title d) =
    or_default (text "Changed window title") (λ t. text "Viewed " ++ quoted t)
      (window_title e.window)
describe_data e _ = e.event_type

unfoldable pub describe : Event → Text
describe e = describe_data e e.payload

abbrev pub page_host : BrowserNavigateData → Option Text
page_host d = elim d.url [ none ↦ none | some url ↦ url_host url ]

abbrev browsed : ℕ → Option Text → List Text
browsed count none = []
browsed count (some host) = (text "Browsed " ++ to_string count ++ text " pages on " ++ host) ∷ []

-- What a run of `count` pages on the host of its first one shows.
unfoldable pub run_activity : BrowserNavigateData → ℕ → List Text
run_activity first count =
    if ltb 1 count
    then browsed count (page_host first)
    else or_default (viewed_url quoted first.url) (λ t. text "Viewed " ++ quoted t) first.tab_title
      ∷ []

abbrev navigation : EventData → Option BrowserNavigateData
navigation (EventData.browser_navigate d) = some d
navigation _ = none

-- The loops of `browser_activities`, with the run that is being read and its length.
unfoldable pub browser_runs : Option (BrowserNavigateData × ℕ) → List Event → List Text
browser_runs none [] = []
browser_runs (some (first, count)) [] = run_activity first count
browser_runs none (e ∷ es) = elim (navigation e.payload) [
  | none ↦ browser_runs none es
  | some d ↦ browser_runs (some (d, 1)) es
]
browser_runs (some (first, count)) (e ∷ es) = elim (navigation e.payload) [
  | none ↦ run_activity first count ++ browser_runs none es
  | some d ↦ elim (opt_text_eq (page_host d) (page_host first)) [
    | true ↦ browser_runs (some (first, count + 1)) es
    | false ↦ run_activity first count ++ browser_runs (some (d, 1)) es
  ]
]

unfoldable pub browser_activities : List Event → List Text
browser_activities events = browser_runs none events

abbrev is_text_key : InputKeyKind → Bool
is_text_key InputKeyKind.text_key = true
is_text_key _ = false

abbrev is_edit : EventData → Bool
is_edit (EventData.ui_value d) = true
is_edit (EventData.input_key d) = is_text_key d.kind
is_edit _ = false

abbrev add_window : Bool → Option Text → List Text → List Text
add_window true (some title) windows = insert_text title windows
add_window _ _ windows = windows

unfoldable pub edited_windows : List Text → List Event → List Text
edited_windows windows [] = windows
edited_windows windows (e ∷ es) =
    edited_windows (add_window (is_edit e.payload) (window_title e.window) windows) es

unfoldable pub editing_activities : List Event → List Text
editing_activities events =
    map (λ title. text "Edited text in " ++ quoted title) (edited_windows [] events)

abbrev add_u64 : ℕ → ℕ → ℕ
add_u64 a b = (a + b) % 2 ^ 64

abbrev verb_of : InputKeyKind → Option Text → Option Text
verb_of InputKeyKind.shortcut (some combo) = shortcut_verb combo
verb_of _ _ = none

abbrev count_verb : Option Text → ℕ → TextMap ℕ → TextMap ℕ
count_verb none n counts = counts
count_verb (some verb) n counts = entry_add add_u64 verb n counts

abbrev count_shortcut : EventData → TextMap ℕ → TextMap ℕ
count_shortcut (EventData.input_key d) counts = count_verb (verb_of d.kind d.combo) d.count counts
count_shortcut _ counts = counts

unfoldable pub shortcut_counts : TextMap ℕ → List Event → TextMap ℕ
shortcut_counts counts [] = counts
shortcut_counts counts (e ∷ es) = shortcut_counts (count_shortcut e.payload counts) es

abbrev verb_times : Text × ℕ → Text
verb_times (verb, count) = verb ++ text " " ++ to_string count ++ text " times"

unfoldable pub shortcut_activities : List Event → List Text
shortcut_activities events = map verb_times (shortcut_counts [] events)

abbrev is_clipboard : EventData → ℕ
is_clipboard (EventData.clipboard_copy d) = 1
is_clipboard (EventData.clipboard_paste d) = 1
is_clipboard _ = 0

unfoldable pub clipboard_count : List Event → ℕ
clipboard_count [] = 0
clipboard_count (e ∷ es) = is_clipboard e.payload + clipboard_count es

unfoldable pub clipboard_activities : List Event → List Text
clipboard_activities events =
    let count = clipboard_count events in
    if ltb 0 count then (text "Copied/pasted " ++ to_string count ++ text " times") ∷ [] else []

-- `retain(|value| seen.insert(value.clone()))`.
unfoldable pub retain_new : List Text → List Text → List Text
retain_new seen [] = []
retain_new seen (t ∷ ts) = elim (any (λ s. text_eq s t) seen) [
  | true ↦ retain_new seen ts
  | false ↦ t ∷ retain_new (t ∷ seen) ts
]

unfoldable pub deduplicate : List Text → List Text
deduplicate values = retain_new [] values

abbrev pub all_activities : List Event → List Text
all_activities events =
    browser_activities events
    ++ editing_activities events
    ++ shortcut_activities events
    ++ clipboard_activities events

unfoldable pub summarize : List Event → Text → List Text
summarize events app =
    let activities = deduplicate (all_activities events) in
    take max_activities (if is_empty activities then (text "Used " ++ app) ∷ [] else activities)
