-- ===== src/Lib.antt =====
-- photonbar: a model of the status bar and the theorems about it.
--
-- The program draws two bars, each in a thread of its own. main.cpp reads the arguments, asks the
-- process manager for the lock and starts a BarManager for each bar. A BarManager initialises its
-- modules, waits in `select`, updates the modules that are due and has a Bar (bar.h) draw their
-- elements; a button press on the bar runs the handler of the element under the pointer.
--
-- ProcessManager (process_manager.cpp, process_manager.h): the lock file, the end of another
--   instance and the signals, over a `World` of files, processes, dispositions and messages. What
--   `kill` and `sleep` let other processes do, and which files can be written and unlinked, is the
--   parameter `Os`. Main (main.cpp, `main`): the arguments and the statuses, in the order of the code.
-- BarManager (main.cpp, the class BarManager): initializeAllModules, updateModules and the rounds
--   of `run`; a round is told what `select`, X and i3 say. BarManager.Picture is the same round with
--   the handlers of its presses, which change the modules and may draw, and with what the events of
--   i3 change before the presses are read; BarManager.Run has the
--   constructor and the whole life of a bar. Module (modules/module.h) is the interface between
--   them: a record that says how a module's state is updated.
-- Bars (main.cpp, `main`): the modules of the two bars, each with its own state, behind that
--   interface; what all of them are told in one round is a record, Answers, with one reading of the
--   wall clock. Bars.Press and Bars.Elements: their handlers and elements; a handler draws where
--   the function of setRenderFunction is there. Bars.Serve: both bars under BarManager's rounds, where
--   each module carries what its operations will be told, in order. There `feed` lays out the
--   elements from their contents each time; the flag dirtyContent, which lets parseElementContent
--   keep the last result, is not in these rounds but in Content and in Bars.Dirty.
-- Startup (main.cpp, the end of `main`, and BarManager::initialize): the two threads and the flag
--   gTopReady between them, as a step relation; a step is one thread's next action.
-- Layout and Layout.Events (bar.h, renderAllElements and processXEvents): positions are ints,
--   `beginX` wraps at 16 bits. The widths are given. BarElement (barElement.h).
-- Glyphs (bar.h, xftCharWidthSlot and xftCharWidth): the table of widths, with its size as a
--   parameter; the probing loop has as many rounds as slots, and Glyphs.Slots shows when that is
--   enough. Fonts (bar.h, fontHasGlyph, selectDrawableFont, getUtf8CharWidth, fontLoad, addYOffset
--   and the heights in init; Fonts.Open: what fontLoad makes of the answers to it).
-- Paint and Paint.Draw (bar.h, updateGc to setAttribute, renderElement, renderSeparatorAt and the
--   sides of renderAllElements): the graphics contexts of the X server are state, and a drawing
--   request is recorded with the value that its context holds. Paint.Sides: the colours that the
--   parse functions apply; Paint.Frame: the separator and a frame of parseModules. The width of a character in an Xft font is a parameter there.
-- Geometry (bar.h, parseGeometryString, rectSortCb, the struts, the fallback monitor, strip_path):
--   the parser's loop has a turn for each character and one more.
-- Monitors (bar.h, the clones of getRandrMonitors), Monitors.Outputs (all of getRandrMonitors, with
--   what its arrays hold before they are written as a parameter), Monitors.Chain (monitorCreateChain,
--   with `qsort` as a parameter) and Monitors.Chain.Links (monitorAdd on linked nodes). The loops
--   over the outputs take as many rounds as there are outputs, as in the code.
-- Windows and Windows.Init (bar.h, monitorNew, setEwmhAtoms, feed, xconn, getVisual, init and ~Bar):
--   the requests in order, over the ids that the connection has given out; the X server's answers
--   are arguments. Windows.Things and Windows.Made: what the requests make and take away.
-- NotifyManager (notifyManeger.h): the calls of libnotify, in order.
-- Color (color.h), with `strtoul` of the C library for base 16 in Color.Strtoul, and the name of a
--   colour that bar.h gives to Xft in Color.Print; Palette: the colours of the modules.
-- Utf8 (bar.h, decodeUtf8Char): the memory behind the pointer is a list, and a read behind its
--   end is `none`.
-- Content (bar.h, parseElementContent): the loop has the 255 rounds of the code; the font of a
--   character and its width there are the parameter `glyph`.
-- Timer, Stopwatch (modules/timer.h, modules/stopwatch.h): readings of the steady clock are
--   nanoseconds, one for each place that reads it. Datetime (modules/datetime.h).
-- Workspace (modules/workspace.h): pointers are numbers into a heap of live elements. Audio
--   (modules/audio.h), BatteryIcon (helper.h) and Notifications (modules/notifications.h): what
--   PulseAudio, upower and dunst answer is an argument; the loop of initPa (Audio.Connect) takes its
--   turns on fuel, one for each state it is told. Workspace.Switch: the child of a click.
-- Weather, Battery, Resources, Ping and Space (modules/weather.h, battery.h, resources.h, ping.h,
--   space.h): what curl, json-c, the files of /proc and /sys, the sockets and statvfs answer is an
--   argument. Floating-point numbers are a type with the operations that the code uses, see
--   Common.Floats; no law of them is assumed. The loop of Ping over the lines of /proc/net/dev has a
--   round for each character and one more.
-- Common: the integers over the native numbers, lists, texts and printf. Decimal numbers are
--   printed on a fuel of 20 digits, more than an int or a long has.
-- Tests: a run on concrete inputs for each theorem that has hypotheses.
--
-- Not modelled: a full disk behind the lock file, whose write is then lost; what is logged, to /tmp/myBar_debug.log too; the X protocol beyond the drawing
-- requests, the requests that open fonts, the choice of a visual and the windows (bar.h); the library
-- in modules/i3ipc.h, a third party's, as libnotify, PulseAudio, curl and json-c are; the threads but
-- for start-up, and the races between the two bars.
pub mod Audio
pub mod BarElement
pub mod BarManager
pub mod Bars
pub mod Battery
pub mod BatteryIcon
pub mod Color
pub mod Common
pub mod Content
pub mod Datetime
pub mod Fonts
pub mod Geometry
pub mod Glyphs
pub mod Layout
pub mod Main
pub mod Module
pub mod Monitors
pub mod Notifications
pub mod NotifyManager
pub mod Paint
pub mod Palette
pub mod Ping
pub mod ProcessManager
pub mod Resources
pub mod Space
pub mod Startup
pub mod Stopwatch
pub mod Tests
pub mod Timer
pub mod Utf8
pub mod Weather
pub mod Windows
pub mod Workspace
