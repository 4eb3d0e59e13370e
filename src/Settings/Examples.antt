-- ===== src/Settings/Examples.antt =====
-- A configuration file and a command line, read.
use rtpmidid.Common.{All, arith, ◌≡◌, refl, [], ◌∷◌, ◌++◌, true, some}
use rtpmidid.Text.{codes, contains, ltrim, rtrim, split, replace_all}
use rtpmidid.Settings.{ConnectTo, Host, default_settings, str_to_log_level, debug}
use rtpmidid.Settings.Sections.{parsed}
use rtpmidid.Settings.Ini.{load_ini}
use rtpmidid.Settings.Arguments.{port, arg, equals_sign, fn, parse_argv, ◌>>=◌}
use rtpmidid.Settings.Printed.{printed_all, IsPlainEntry, load_ini-printed_all}
use rtpmidid.Settings.Spelling.{parse_argv-equals_sign}

abbrev studio : ConnectTo
studio = record {
  hostname = codes "192.168.1.33";
  port = codes "5004";
  name = codes "Studio A";
  local_udp_port = codes "0";
}

abbrev stage : ConnectTo
stage = record {
  hostname = codes "stage.local";
  port = codes "5006";
  name = [];
  local_udp_port = codes "15005";
}

abbrev laptop : Host
laptop = record {
  hostname = codes "laptop";
  is_regex = λ t. true;
  lines_of = λ t. some (printed_all (studio ∷ stage ∷ []));
}

plain_entries : All IsPlainEntry (studio ∷ stage ∷ [])
unfolding ltrim rtrim contains
plain_entries = ground arith

load_ini-printed_all_example :
    load_ini laptop (codes "rtpmidid.ini") default_settings
    ≡ parsed (record default_settings { connect_to = studio ∷ stage ∷ [] })
load_ini-printed_all_example =
    load_ini-printed_all laptop (codes "rtpmidid.ini") (studio ∷ stage ∷ []) default_settings refl
      plain_entries

parse_argv-equals_sign_example :
    (parse_argv laptop ((equals_sign port ++ codes "5008") ∷ codes "--help" ∷ []) default_settings
      ≡ (fn laptop port (codes "5008") default_settings
          >>= parse_argv laptop (codes "--help" ∷ [])))
    × (parse_argv laptop (arg port ∷ codes "5008" ∷ codes "--help" ∷ []) default_settings ≡ (
        fn laptop port (codes "5008") default_settings >>= parse_argv laptop (codes "--help" ∷ [])))
parse_argv-equals_sign_example =
    parse_argv-equals_sign laptop port (codes "5008") (codes "--help" ∷ []) default_settings refl

-- Words between delimiters, none of them empty.
split-slash : split (codes "/dev/snd") b'/' ≡ codes "dev" ∷ codes "snd" ∷ []
unfolding split
split-slash = refl

replace_all-twice : replace_all (codes "ab") (codes "abc") (codes "xabab") ≡ codes "xabcabc"
unfolding replace_all
replace_all-twice = refl

level_upper : str_to_log_level (codes "DEBUG") ≡ some debug
unfolding str_to_log_level
level_upper = refl
