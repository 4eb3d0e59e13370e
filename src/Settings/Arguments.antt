-- ===== src/Settings/Arguments.antt =====
-- src/argv.cpp: the command line.
use rtpmidid.Common.{
  ℕ, List, [], ◌∷◌, ◌++◌, length, take, drop, Bool, true, false, ◌&&◌, if◌then◌else◌, Option, none,
  some,
}
use rtpmidid.Text.{Text, codes, same_text, is_empty, startswith}
use rtpmidid.Settings.{
  Settings, RtpmidiAnnounce, RtpmidiDiscover, str_to_log_level, LoggerLevel, Host, IniError,
  bad_level, bad_regex,
}
use rtpmidid.Settings.Sections.{Parsed, parsed, failed, blank_announce, blank_rawmidi}
use rtpmidid.Settings.Ini.{load_ini}

-- `setup_arguments`: one constructor for each option, in the order of its vector.
pub data Argument : Type 0 where
  ini port name alsa_name rtpmidid_name control log_level rtpmidi_discover rawmidi version help :
      Argument

abbrev pub arg : Argument → Text
arg ini = codes "--ini"
arg port = codes "--port"
arg name = codes "--name"
arg alsa_name = codes "--alsa-name"
arg rtpmidid_name = codes "--rtpmidid-name"
arg control = codes "--control"
arg log_level = codes "--log-level"
arg rtpmidi_discover = codes "--rtpmidi-discover"
arg rawmidi = codes "--rawmidi"
arg version = codes "--version"
arg help = codes "--help"

abbrev pub has_second_argument : Argument → Bool
has_second_argument help = false
has_second_argument ini = true
has_second_argument port = true
has_second_argument name = true
has_second_argument alsa_name = true
has_second_argument rtpmidid_name = true
has_second_argument control = true
has_second_argument log_level = true
has_second_argument rtpmidi_discover = true
has_second_argument rawmidi = true
has_second_argument version = true

abbrev pub setup_arguments : List Argument
setup_arguments =
    ini ∷ port ∷ name ∷ alsa_name ∷ rtpmidid_name ∷ control ∷ log_level ∷ rtpmidi_discover ∷ rawmidi
    ∷ version ∷ help ∷ []

-- The settings, an exception, or `exit` with its code.
pub data Outcome : Type 0 where
  goes_on : Settings → Outcome
  throws : IniError → Settings → Outcome
  exits : ℕ → Settings → Outcome

-- The list with one element at least, `x` where it was empty.
abbrev pub at_least {ℓ} : {A : Type ℓ} → A → List A → List A
at_least x [] = x ∷ []
at_least x (y ∷ ys) = y ∷ ys

abbrev pub change_first {ℓ} : {A : Type ℓ} → (A → A) → List A → List A
change_first f [] = []
change_first f (x ∷ xs) = f x ∷ xs

abbrev pub first_announce :
    RtpmidiAnnounce → (RtpmidiAnnounce → RtpmidiAnnounce) → Settings → Settings
first_announce blank f s = record s {
  rtpmidi_announces = change_first f (at_least blank s.rtpmidi_announces);
}

abbrev pub first_alsa_announce : Text → Settings → Settings
first_alsa_announce value s = record s {
  alsa_announces = change_first (λ _. value) (at_least [] s.alsa_announces);
}

abbrev outcome : Parsed Settings → Outcome
outcome (parsed s) = goes_on s
outcome (failed e s) = throws e s

abbrev set_log_level : Option LoggerLevel → Text → Settings → Outcome
set_log_level none value s = throws (bad_level value) s
set_log_level (some level) value s = goes_on (record s { log_level = level })

abbrev discover : (RtpmidiDiscover → RtpmidiDiscover) → Settings → Outcome
discover f s = goes_on (record s { rtpmidi_discover = f s.rtpmidi_discover })

unfoldable set_discovery : Host → Text → Settings → Outcome
unfolding same_text startswith
set_discovery host value s =
    if same_text value (codes "true")
    then discover (λ d. record d { enabled = true }) s
    else if same_text value (codes "false")
    then discover (λ d. record d { enabled = false }) s
    else if startswith value (codes "!")
    then (if host.is_regex (drop 1 value)
        then discover (λ d. record d { name_negative_regex = drop 1 value }) s
        else throws (bad_regex (drop 1 value)) s)
    else if host.is_regex value
    then discover (λ d. record d { name_positive_regex = value }) s
    else throws (bad_regex value) s

-- The option's function.
unfoldable pub fn : Host → Argument → Text → Settings → Outcome
unfolding set_discovery load_ini str_to_log_level
fn host ini value s = outcome (load_ini host value s)
fn host port value s = goes_on (
    first_announce (record blank_announce { name = host.hostname }) (λ a. record a { port = value })
      s)
fn host name value s =
    goes_on
      (record (first_alsa_announce value
        (first_announce blank_announce (λ a. record a { name = value }) s)) { alsa_name = value })
fn host alsa_name value s = goes_on (first_alsa_announce value s)
fn host rtpmidid_name value s =
    goes_on (first_announce blank_announce (λ a. record a { name = value }) s)
fn host control value s = goes_on (record s { control_filename = value })
fn host log_level value s = set_log_level (str_to_log_level value) value s
fn host rtpmidi_discover value s = set_discovery host value s
fn host rawmidi value s =
    if is_empty value
    then goes_on s
    else goes_on (record s { rawmidi = s.rawmidi ++ record blank_rawmidi { device = value } ∷ [] })
fn host version value s = exits 0 s
fn host help value s = exits 0 s

-- What one word does, where no option waits for its value.
pub data Read : Type 0 where
  unknown : Read
  waits : Argument → Read
  calls : Argument → Text → Read

unfoldable pub equals_sign : Argument → Text
equals_sign a = arg a ++ b'=' ∷ []

unfoldable pub read : Text → List Argument → Read
unfolding same_text equals_sign
read key [] = unknown
read key (a ∷ arguments) =
    if has_second_argument a && same_text (take (length (equals_sign a)) key) (equals_sign a)
    then calls a (drop (length (equals_sign a)) key)
    else if same_text key (arg a)
    then (if has_second_argument a then waits a else calls a [])
    else read key arguments

infixl 5 ◌>>=◌
abbrev pub ◌>>=◌ : Outcome → (Settings → Outcome) → Outcome
goes_on s >>= f = f s
throws e s >>= f = throws e s
exits code s >>= f = exits code s

abbrev pub act_on : Host → Read → (Option Argument → Settings → Outcome) → Settings → Outcome
act_on host unknown next s = exits 1 s
act_on host (waits a) next s = next (some a) s
act_on host (calls a value) next s = fn host a value s >>= next none

-- The loop; `current` is the option that waits for its value.
unfoldable pub parse : Host → Option Argument → List Text → Settings → Outcome
unfolding fn read
parse host current [] s = goes_on s
parse host (some a) (key ∷ keys) s = fn host a key s >>= parse host none keys
parse host none (key ∷ keys) s =
    act_on host (read key setup_arguments) (λ current. parse host current keys) s

unfoldable pub parse_argv : Host → List Text → Settings → Outcome
unfolding parse
parse_argv host argv s = parse host none argv s
