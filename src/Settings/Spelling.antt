-- ===== src/Settings/Spelling.antt =====
-- An option's value behind `=` and as a word of its own.
use rtpmidid.Common.{◌≡◌, refl, List, ◌∷◌, ◌++◌, true}
use rtpmidid.Text.{Text, same_text}
use rtpmidid.Settings.{Settings, Host}
use rtpmidid.Settings.Arguments.{
  Argument, arg, ini, port, name, alsa_name, rtpmidid_name, control, log_level, rtpmidi_discover,
  rawmidi, version, help, has_second_argument, setup_arguments, read, waits, calls, equals_sign, fn,
  parse, parse_argv, ◌>>=◌,
}

read-equals_sign :
    (a : Argument) (value : Text)
    → has_second_argument a ≡ true
    → read (equals_sign a ++ value) setup_arguments ≡ calls a value
unfolding read equals_sign same_text
read-equals_sign ini value h = refl
read-equals_sign port value h = refl
read-equals_sign name value h = refl
read-equals_sign alsa_name value h = refl
read-equals_sign rtpmidid_name value h = refl
read-equals_sign control value h = refl
read-equals_sign log_level value h = refl
read-equals_sign rtpmidi_discover value h = refl
read-equals_sign rawmidi value h = refl
read-equals_sign version value h = refl
read-equals_sign help value h = cc

read-arg : (a : Argument) → has_second_argument a ≡ true → read (arg a) setup_arguments ≡ waits a
unfolding read equals_sign same_text
read-arg ini h = refl
read-arg port h = refl
read-arg name h = refl
read-arg alsa_name h = refl
read-arg rtpmidid_name h = refl
read-arg control h = refl
read-arg log_level h = refl
read-arg rtpmidi_discover h = refl
read-arg rawmidi h = refl
read-arg version h = refl
read-arg help h = cc

-- For every option that takes a value, `--option=value` and `--option value` have the same outcome,
-- whatever the host, the settings and the words that follow: the option's own function on that value,
-- and, where it neither throws nor exits, the words that follow on the settings that it leaves.
pub parse_argv-equals_sign :
    (host : Host) (a : Argument) (value : Text) (argv : List Text) (s : Settings)
    → has_second_argument a ≡ true
    → (parse_argv host ((equals_sign a ++ value) ∷ argv) s
        ≡ (fn host a value s >>= parse_argv host argv))
      × (parse_argv host (arg a ∷ value ∷ argv) s ≡ (fn host a value s >>= parse_argv host argv))
unfolding parse_argv parse
parse_argv-equals_sign host a value argv s h = (rw (read-equals_sign a value h), rw (read-arg a h))
