-- ===== src/Settings/Ini.antt =====
-- src/ini.hpp and src/ini.cpp: the configuration file, line by line.
use rtpmidid.Settings.Sections.{IniReader, Parsed, parsed, failed, ◌>>=◌, open_section, set_key}
use rtpmidid.Common.{
  ℕ, ◌+◌, ◌-◌, List, [], ◌∷◌, length, take, ◌==◌, if◌then◌else◌, Option, none, some,
}
use rtpmidid.Text.{Text, codes, trim, split_at, contains, replace_all}
use rtpmidid.Settings.{Settings, Host, cannot_open, invalid_section, invalid_line}

abbrev pub placeholder : Text
placeholder = codes "{{hostname}}"

unfoldable pub with_hostname : Host → Text → Text
unfolding contains replace_all
with_hostname host value =
    if contains placeholder value then replace_all placeholder host.hostname value else value

unfoldable pub parse_key : Host → Text → Option (Text × Text) → IniReader → Parsed IniReader
unfolding trim
parse_key host line none r = failed (invalid_line line) r
parse_key host line (some (key, value)) r =
    set_key host (trim key) (with_hostname host (trim value)) r

-- Everything from the first `#` on is a comment.
unfoldable pub before_comment : Text → Option (Text × Text) → Text
before_comment line none = line
before_comment line (some (front, comment)) = front

abbrev last_or : ℕ → Text → ℕ
last_or d [] = d
last_or d (x ∷ xs) = last_or x xs

-- A line with no comment and no space round it. `[` alone is no section.
unfoldable pub parse_content : Host → Text → IniReader → Parsed IniReader
unfolding parse_key split_at
parse_content host [] r = parsed r
parse_content host (c ∷ cs) r =
    if c == b'['
    then (if last_or c cs == b']'
        then open_section (take (length cs - 1) cs) r
        else failed (invalid_section (c ∷ cs)) r)
    else parse_key host (c ∷ cs) (split_at b'=' (c ∷ cs)) r

unfoldable pub parse_line : Host → Text → IniReader → Parsed IniReader
unfolding parse_content before_comment split_at trim
parse_line host line r =
    parse_content host (trim (before_comment line (split_at b'#' line)))
      (record r { lineno = r.lineno + 1 })

unfoldable pub parse_lines : Host → List Text → IniReader → Parsed IniReader
parse_lines host [] r = parsed r
parse_lines host (line ∷ lines) r = parse_line host line r >>= parse_lines host lines

abbrev pub ini_reader : Settings → IniReader
ini_reader s = record { settings = s; section = []; lineno = 0 }

abbrev pub settings_of : Parsed IniReader → Parsed Settings
settings_of (parsed r) = parsed r.settings
settings_of (failed e r) = failed e r.settings

unfoldable pub load_lines : Host → Text → Option (List Text) → Settings → Parsed Settings
load_lines host filename none s = failed (cannot_open filename) s
load_lines host filename (some lines) s = settings_of (parse_lines host lines (ini_reader s))

unfoldable pub load_ini : Host → Text → Settings → Parsed Settings
unfolding load_lines
load_ini host filename s = load_lines host filename (host.lines_of filename) s
