-- ===== src/Settings/Printed.antt =====
-- src/ini.cpp: connect_to entries printed as the lines of a file, and read back.
use rtpmidid.Common.{
  ℕ, ◌+◌, ◌≡◌, refl, ap, ◌∙◌, List, [], ◌∷◌, ◌++◌, arith, All, some, append-nil, append_assoc,
}
use rtpmidid.Text.{Text, codes, same_text, trim, split_at}
use rtpmidid.Settings.{Settings, ConnectTo, Host}
use rtpmidid.Settings.Sections.{
  IniReader, parsed, change_last, set_key, set_connect_to, open_section, in_connect_to,
  blank_connect,
}
use rtpmidid.Settings.Ini.{
  parse_content, before_comment, parse_line, parse_lines, ini_reader, settings_of, load_lines,
  load_ini,
}
use rtpmidid.Settings.Keys.{IsPlain, parse_line-key}

abbrev pub printed : ConnectTo → List Text
printed c =
    codes "[connect_to]"
    ∷ (codes "hostname=" ++ c.hostname)
    ∷ (codes "port=" ++ c.port)
    ∷ (codes "name=" ++ c.name)
    ∷ (codes "local_udp_port=" ++ c.local_udp_port)
    ∷ []

abbrev pub printed_all : List ConnectTo → List Text
printed_all [] = []
printed_all (c ∷ cs) = printed c ++ printed_all cs

abbrev pub IsPlainEntry : ConnectTo → Type 0
IsPlainEntry c = IsPlain c.hostname × IsPlain c.port × IsPlain c.name × IsPlain c.local_udp_port

change_last-append {ℓ} :
    {A : Type ℓ} (f : A → A) (xs : List A) (x : A) → change_last f (xs ++ x ∷ []) ≡ xs ++ f x ∷ []
change_last-append f [] x = refl
change_last-append f (y ∷ []) x = refl
change_last-append f (y ∷ z ∷ xs) x = ap (◌∷◌ y) (change_last-append f (z ∷ xs) x)

-- The reader inside the section of the entry `c`, behind `cs`.
abbrev in_entry : Settings → List ConnectTo → ConnectTo → ℕ → IniReader
in_entry s cs c n = record {
  settings = record s { connect_to = cs ++ c ∷ [] };
  section = codes "connect_to";
  lineno = n;
}

in_connect_to-in_entry :
    (f : ConnectTo → ConnectTo) (s : Settings) (cs : List ConnectTo) (c : ConnectTo) (n : ℕ)
    → in_connect_to f (in_entry s cs c n) ≡ parsed (in_entry s cs (f c) n)
in_connect_to-in_entry f s cs c n = rw (change_last-append f cs c)

parse_line-section :
    (host : Host) (r : IniReader)
    → parse_line host (codes "[connect_to]") r
      ≡ parsed (in_entry r.settings r.settings.connect_to blank_connect (r.lineno + 1))
unfolding parse_line parse_content before_comment split_at trim open_section same_text
parse_line-section host r = refl

parse_line-hostname :
    (host : Host) (s : Settings) (cs : List ConnectTo) (c : ConnectTo) (n : ℕ) (v : Text)
    → IsPlain v
    → parse_line host (codes "hostname=" ++ v) (in_entry s cs c n)
      ≡ parsed (in_entry s cs (record c { hostname = v }) (n + 1))
unfolding set_key set_connect_to same_text
parse_line-hostname host s cs c n v h =
    parse_line-key host b'h' (codes "ostname") v (in_entry s cs c n) refl h
    ∙ in_connect_to-in_entry (λ e. record e { hostname = v }) s cs c (n + 1)

parse_line-port :
    (host : Host) (s : Settings) (cs : List ConnectTo) (c : ConnectTo) (n : ℕ) (v : Text)
    → IsPlain v
    → parse_line host (codes "port=" ++ v) (in_entry s cs c n)
      ≡ parsed (in_entry s cs (record c { port = v }) (n + 1))
unfolding set_key set_connect_to same_text
parse_line-port host s cs c n v h =
    parse_line-key host b'p' (codes "ort") v (in_entry s cs c n) refl h
    ∙ in_connect_to-in_entry (λ e. record e { port = v }) s cs c (n + 1)

parse_line-name :
    (host : Host) (s : Settings) (cs : List ConnectTo) (c : ConnectTo) (n : ℕ) (v : Text)
    → IsPlain v
    → parse_line host (codes "name=" ++ v) (in_entry s cs c n)
      ≡ parsed (in_entry s cs (record c { name = v }) (n + 1))
unfolding set_key set_connect_to same_text
parse_line-name host s cs c n v h =
    parse_line-key host b'n' (codes "ame") v (in_entry s cs c n) refl h
    ∙ in_connect_to-in_entry (λ e. record e { name = v }) s cs c (n + 1)

parse_line-local_udp_port :
    (host : Host) (s : Settings) (cs : List ConnectTo) (c : ConnectTo) (n : ℕ) (v : Text)
    → IsPlain v
    → parse_line host (codes "local_udp_port=" ++ v) (in_entry s cs c n)
      ≡ parsed (in_entry s cs (record c { local_udp_port = v }) (n + 1))
unfolding set_key set_connect_to same_text
parse_line-local_udp_port host s cs c n v h =
    parse_line-key host b'l' (codes "ocal_udp_port") v (in_entry s cs c n) refl h
    ∙ in_connect_to-in_entry (λ e. record e { local_udp_port = v }) s cs c (n + 1)

five_lines : (n : ℕ) → n + 1 + 1 + 1 + 1 + 1 ≡ n + 5
five_lines n = omega arith

parse_lines-printed :
    (host : Host) (c : ConnectTo) (rest : List Text) (r : IniReader)
    → IsPlainEntry c
    → parse_lines host (printed c ++ rest) r
      ≡ parse_lines host rest (in_entry r.settings r.settings.connect_to c (r.lineno + 5))
unfolding parse_lines
parse_lines-printed host c rest r h = rw (
  parse_line-section host r,
  parse_line-hostname host r.settings r.settings.connect_to blank_connect (r.lineno + 1) c.hostname
      h.0,
  parse_line-port host r.settings r.settings.connect_to _ (r.lineno + 1 + 1) c.port h.1,
  parse_line-name host r.settings r.settings.connect_to _ (r.lineno + 1 + 1 + 1) c.name h.2,
  parse_line-local_udp_port host r.settings r.settings.connect_to _ (r.lineno + 1 + 1 + 1 + 1)
      c.local_udp_port h.3,
  five_lines r.lineno,
)

-- The settings with the entries behind those they have.
abbrev pub joined_by : List ConnectTo → Settings → Settings
joined_by cs s = record s { connect_to = s.connect_to ++ cs }

parse_lines-printed_all :
    (host : Host) (cs : List ConnectTo) (r : IniReader)
    → All IsPlainEntry cs
    → settings_of (parse_lines host (printed_all cs) r) ≡ parsed (joined_by cs r.settings)
unfolding parse_lines
parse_lines-printed_all host [] r h = rw (append-nil r.settings.connect_to)
parse_lines-printed_all host (c ∷ cs) r h =
    ap settings_of (parse_lines-printed host c (printed_all cs) r h.0)
    ∙ parse_lines-printed_all host cs (in_entry r.settings r.settings.connect_to c (r.lineno + 5))
        h.1
    ∙ (rw (append_assoc r.settings.connect_to (c ∷ []) cs))

-- A file with nothing but printed connect_to entries, none of whose values has space round it, a `#`
-- or the hostname placeholder, is read without an error, and the settings get exactly these entries,
-- in their order, behind those they had. Nothing else in the settings changes, and the host's name
-- and its regular expressions do not matter.
pub load_ini-printed_all :
    (host : Host) (filename : Text) (cs : List ConnectTo) (s : Settings)
    → host.lines_of filename ≡ some (printed_all cs)
    → All IsPlainEntry cs
    → load_ini host filename s ≡ parsed (record s { connect_to = s.connect_to ++ cs })
unfolding load_ini load_lines
load_ini-printed_all host filename cs s file h =
    (rw file) ∙ parse_lines-printed_all host cs (ini_reader s) h
