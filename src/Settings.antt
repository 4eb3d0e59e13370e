-- ===== src/Settings.antt =====
-- src/settings.hpp: what the daemon is configured with.
pub mod Sections
pub mod Ini
pub mod Arguments
mod Keys
pub mod Printed
pub mod Spelling
mod Examples
use rtpmidid.Common.{List, [], ◌∷◌, Bool, true, false, Option, none, some, if◌then◌else◌}
use rtpmidid.Text.{Text, codes, same_text, lowercase}

pub data LoggerLevel : Type 0 where
  debug info warning error : LoggerLevel

-- `rtpmidi_announce_t`
pub record RtpmidiAnnounce : Type 0 where
  pub name : Text
  pub port : Text

-- A regular expression is its source text.
pub record RtpmidiDiscover : Type 0 where
  pub enabled : Bool
  pub name_positive_regex : Text
  pub name_negative_regex : Text

pub record ConnectTo : Type 0 where
  pub hostname : Text
  pub port : Text
  pub name : Text
  pub local_udp_port : Text

pub data AlsaHwAutoExportType : Type 0 where
  none_type all hardware software system : AlsaHwAutoExportType

-- Each of the two expressions stands with its text.
pub record AlsaHwAutoExport : Type 0 where
  pub name_positive : Option Text
  pub name_negative : Option Text
  pub type : AlsaHwAutoExportType

pub record Rawmidi : Type 0 where
  pub device : Text
  pub name : Text
  pub local_udp_port : Text
  pub remote_udp_port : Text
  pub hostname : Text

-- An ALSA announcement is its name.
pub record Settings : Type 0 where
  pub alsa_name : Text
  pub alsa_network : Bool
  pub control_filename : Text
  pub log_level : LoggerLevel
  pub rtpmidi_announces : List RtpmidiAnnounce
  pub rtpmidi_discover : RtpmidiDiscover
  pub alsa_announces : List Text
  pub connect_to : List ConnectTo
  pub alsa_hw_auto_export : AlsaHwAutoExport
  pub rawmidi : List Rawmidi

abbrev pub default_settings : Settings
default_settings = record {
  alsa_name = codes "rtpmidid";
  alsa_network = true;
  control_filename = codes "/var/run/rtpmidid/control.sock";
  log_level = info;
  rtpmidi_announces = [];
  rtpmidi_discover = record {
    enabled = true;
    name_positive_regex = codes ".*";
    name_negative_regex = codes "^$";
  };
  alsa_announces = [];
  connect_to = [];
  alsa_hw_auto_export = record { name_positive = none; name_negative = none; type = none_type };
  rawmidi = [];
}

-- lib/logger.cpp: `str_to_log_level`; `none` is its exception.
unfoldable pub str_to_log_level : Text → Option LoggerLevel
unfolding same_text
str_to_log_level value =
    let low = lowercase value in
    if same_text value (codes "0")
    then some debug
    else if same_text value (codes "1")
    then some info
    else if same_text value (codes "2")
    then some warning
    else if same_text value (codes "3")
    then some error
    else if same_text low (codes "debug")
    then some debug
    else if same_text low (codes "info")
    then some info
    else if same_text low (codes "warning")
    then some warning
    else if same_text low (codes "error")
    then some error
    else none

-- What the configuration asks of the host: its name, whether a regular expression can be compiled, and
-- the lines of a file that can be opened.
pub record Host : Type 0 where
  pub hostname : Text
  pub is_regex : Text → Bool
  pub lines_of : Text → Option (List Text)

pub data IniError : Type 0 where
  cannot_open invalid_section invalid_line invalid_key invalid_value bad_level bad_regex :
      Text → IniError
