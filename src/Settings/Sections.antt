-- ===== src/Settings/Sections.antt =====
-- src/ini.hpp and src/ini.cpp: the sections of the configuration file and their keys.
use rtpmidid.Common.{ℕ, List, [], ◌∷◌, ◌++◌, if◌then◌else◌, Option, none, some}
use rtpmidid.Text.{Text, codes, same_text}
use rtpmidid.Settings.{
  Settings, RtpmidiAnnounce, RtpmidiDiscover, ConnectTo, AlsaHwAutoExport, AlsaHwAutoExportType,
  none_type, all, hardware, software, system, Rawmidi, str_to_log_level, LoggerLevel, Host,
  IniError, invalid_section, invalid_key, invalid_value, bad_level, bad_regex,
}

-- The pointers to the open sections are not kept: each points to the last element of its list, which
-- only its own section's line makes longer. Errors carry the text that they name.
pub record IniReader : Type 0 where
  pub settings : Settings
  pub section : Text
  pub lineno : ℕ

pub data Parsed {ℓ} (A : Type ℓ) : Type ℓ where
  parsed : A → Parsed A
  failed : IniError → A → Parsed A

-- What was changed before an exception stays.
infixl 5 ◌>>=◌
abbrev pub ◌>>=◌ {ℓ} : {A : Type ℓ} → Parsed A → (A → Parsed A) → Parsed A
parsed a >>= f = f a
failed e a >>= f = failed e a

abbrev pub change_last {ℓ} : {A : Type ℓ} → (A → A) → List A → List A
change_last f [] = []
change_last f (x ∷ []) = f x ∷ []
change_last f (x ∷ y ∷ xs) = x ∷ change_last f (y ∷ xs)

abbrev pub set : (Settings → Settings) → IniReader → IniReader
set f r = record r { settings = f r.settings }

abbrev pub blank_announce : RtpmidiAnnounce
blank_announce = record { name = []; port = [] }

abbrev pub blank_connect : ConnectTo
blank_connect = record { hostname = []; port = []; name = []; local_udp_port = [] }

abbrev pub blank_rawmidi : Rawmidi
blank_rawmidi = record {
  device = [];
  name = [];
  local_udp_port = [];
  remote_udp_port = [];
  hostname = [];
}

-- A section's line, without its brackets. The section is set also where it is refused.
unfoldable pub open_section : Text → IniReader → Parsed IniReader
unfolding same_text
open_section section r0 =
    let r = record r0 { section = section } in
    if same_text section (codes "general")
    then parsed r
    else if same_text section (codes "alsa_hw_auto_export")
    then parsed r
    else if same_text section (codes "rtpmidi_discover")
    then parsed r
    else if same_text section (codes "rtpmidi_announce")
    then parsed
        (set (λ s. record s { rtpmidi_announces = s.rtpmidi_announces ++ blank_announce ∷ [] }) r)
    else if same_text section (codes "alsa_announce")
    then parsed (set (λ s. record s { alsa_announces = s.alsa_announces ++ [] ∷ [] }) r)
    else if same_text section (codes "connect_to")
    then parsed (set (λ s. record s { connect_to = s.connect_to ++ blank_connect ∷ [] }) r)
    else if same_text section (codes "rawmidi")
    then parsed (set (λ s. record s { rawmidi = s.rawmidi ++ blank_rawmidi ∷ [] }) r)
    else failed (invalid_section section) r

unfoldable pub set_level : Option LoggerLevel → Text → IniReader → Parsed IniReader
set_level none value r = failed (bad_level value) r
set_level (some level) value r = parsed (set (λ s. record s { log_level = level }) r)

unfoldable pub set_general : Text → Text → IniReader → Parsed IniReader
unfolding same_text set_level str_to_log_level
set_general key value r =
    if same_text key (codes "alsa_name")
    then parsed (set (λ s. record s { alsa_name = value }) r)
    else if same_text key (codes "control")
    then parsed (set (λ s. record s { control_filename = value }) r)
    else if same_text key (codes "log_level")
    then set_level (str_to_log_level value) value r
    else failed (invalid_key key) r

abbrev in_announce : (RtpmidiAnnounce → RtpmidiAnnounce) → IniReader → Parsed IniReader
in_announce f r =
    parsed (set (λ s. record s { rtpmidi_announces = change_last f s.rtpmidi_announces }) r)

unfoldable pub set_announce : Text → Text → IniReader → Parsed IniReader
unfolding same_text
set_announce key value r =
    if same_text key (codes "name")
    then in_announce (λ a. record a { name = value }) r
    else if same_text key (codes "port")
    then in_announce (λ a. record a { port = value }) r
    else failed (invalid_key key) r

abbrev in_discover : (RtpmidiDiscover → RtpmidiDiscover) → IniReader → Parsed IniReader
in_discover f r = parsed (set (λ s. record s { rtpmidi_discover = f s.rtpmidi_discover }) r)

unfoldable pub set_discover : Host → Text → Text → IniReader → Parsed IniReader
unfolding same_text
set_discover host key value r =
    if same_text key (codes "enabled")
    then in_discover (λ d. record d { enabled = same_text value (codes "true") }) r
    else if same_text key (codes "name_positive_regex")
    then (if host.is_regex value
        then in_discover (λ d. record d { name_positive_regex = value }) r
        else failed (bad_regex value) r)
    else if same_text key (codes "name_negative_regex")
    then (if host.is_regex value
        then in_discover (λ d. record d { name_negative_regex = value }) r
        else failed (bad_regex value) r)
    else failed (invalid_key key) r

unfoldable pub set_alsa_announce : Text → Text → IniReader → Parsed IniReader
unfolding same_text
set_alsa_announce key value r =
    if same_text key (codes "name")
    then parsed
        (set (λ s. record s { alsa_announces = change_last (λ _. value) s.alsa_announces }) r)
    else failed (invalid_key key) r

abbrev pub in_connect_to : (ConnectTo → ConnectTo) → IniReader → Parsed IniReader
in_connect_to f r = parsed (set (λ s. record s { connect_to = change_last f s.connect_to }) r)

unfoldable pub set_connect_to : Text → Text → IniReader → Parsed IniReader
unfolding same_text
set_connect_to key value r =
    if same_text key (codes "hostname")
    then in_connect_to (λ c. record c { hostname = value }) r
    else if same_text key (codes "port")
    then in_connect_to (λ c. record c { port = value }) r
    else if same_text key (codes "name")
    then in_connect_to (λ c. record c { name = value }) r
    else if same_text key (codes "local_udp_port")
    then in_connect_to (λ c. record c { local_udp_port = value }) r
    else failed (invalid_key key) r

abbrev in_export : (AlsaHwAutoExport → AlsaHwAutoExport) → IniReader → Parsed IniReader
in_export f r = parsed (set (λ s. record s { alsa_hw_auto_export = f s.alsa_hw_auto_export }) r)

abbrev with_type : AlsaHwAutoExportType → IniReader → Parsed IniReader
with_type t r = in_export (λ x. record x { type = t }) r

-- The text of an expression is stored before the expression is compiled; the model has them as one
-- field, which is not read after an exception.
unfoldable pub set_export : Host → Text → Text → IniReader → Parsed IniReader
unfolding same_text
set_export host key value r =
    if same_text key (codes "type")
    then (if same_text value (codes "none")
        then with_type none_type r
        else if same_text value (codes "hardware")
        then with_type hardware r
        else if same_text value (codes "software")
        then with_type software r
        else if same_text value (codes "system")
        then with_type system r
        else if same_text value (codes "all")
        then with_type all r
        else failed (invalid_value value) r)
    else if same_text key (codes "name_positive_regex")
    then (if host.is_regex value
        then in_export (λ x. record x { name_positive = some value }) r
        else failed (bad_regex value) r)
    else if same_text key (codes "name_negative_regex")
    then (if host.is_regex value
        then in_export (λ x. record x { name_negative = some value }) r
        else failed (bad_regex value) r)
    else failed (invalid_key key) r

abbrev in_rawmidi : (Rawmidi → Rawmidi) → IniReader → Parsed IniReader
in_rawmidi f r = parsed (set (λ s. record s { rawmidi = change_last f s.rawmidi }) r)

unfoldable pub set_rawmidi : Text → Text → IniReader → Parsed IniReader
unfolding same_text
set_rawmidi key value r =
    if same_text key (codes "device")
    then in_rawmidi (λ m. record m { device = value }) r
    else if same_text key (codes "name")
    then in_rawmidi (λ m. record m { name = value }) r
    else if same_text key (codes "hostname")
    then in_rawmidi (λ m. record m { hostname = value }) r
    else if same_text key (codes "remote_udp_port")
    then in_rawmidi (λ m. record m { remote_udp_port = value }) r
    else if same_text key (codes "local_udp_port")
    then in_rawmidi (λ m. record m { local_udp_port = value }) r
    else failed (invalid_key key) r

unfoldable pub set_key : Host → Text → Text → IniReader → Parsed IniReader
unfolding same_text set_general set_announce set_discover set_alsa_announce set_connect_to
    set_export set_rawmidi
set_key host key value r =
    if same_text r.section (codes "general")
    then set_general key value r
    else if same_text r.section (codes "rtpmidi_announce")
    then set_announce key value r
    else if same_text r.section (codes "rtpmidi_discover")
    then set_discover host key value r
    else if same_text r.section (codes "alsa_announce")
    then set_alsa_announce key value r
    else if same_text r.section (codes "connect_to")
    then set_connect_to key value r
    else if same_text r.section (codes "alsa_hw_auto_export")
    then set_export host key value r
    else if same_text r.section (codes "rawmidi")
    then set_rawmidi key value r
    else failed (invalid_section r.section) r
