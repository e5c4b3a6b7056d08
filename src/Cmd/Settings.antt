-- ===== src/Cmd/Settings.antt =====
-- cmd/ggrok/config.go and cmd/ggrok/secrets.go: the settings of a peer, and the files of its secrets.
-- The environment, the home directory and filepath.Join are arguments, and what a file holds is one.
pub mod Laws
use ggrok.Prelude.{
  ℕ, Bool, true, false, ◌+◌, List, [], ◌∷◌, ◌++◌, Option, none, some, Result, ok, err, length, take,
  ltb, ◌==◌, if◌then◌else◌, same_bytes,
}
use ggrok.Prelude.Bytes.{codes}
use ggrok.Ca.Serials.{Text, trim_space}

unfoldable pub first_non_empty : List Text → Text
first_non_empty [] = []
first_non_empty ([] ∷ vals) = first_non_empty vals
first_non_empty ((c ∷ cs) ∷ vals) = c ∷ cs

-- One setting of registerConnFlags: its flag where it was given, then the environment variable, the
-- config file and the default.
unfoldable pub setting : Option Text → Text → Text → Text → Text
setting (some flag) env file fallback = flag
setting none env file fallback = first_non_empty (env ∷ file ∷ fallback ∷ [])

module _ (home : Option Text) (join : Text → Text → Text) where
  -- `path[len("~/"):]` of a path that starts with it.
  unfoldable pub in_home : Text → Option Text
  in_home [] = none
  in_home (c ∷ []) = none
  in_home (c ∷ d ∷ rest) = if c == 126 then (if d == 47 then some rest else none) else none

  unfoldable pub expand_home : Text → Option Text
  expand_home path = if same_bytes path (codes "~") then home else elim (in_home path) [
    | none ↦ some path
    | some rest ↦ elim home [ none ↦ none | some h ↦ some (join h rest) ]
  ]

  pub record NodeConfig : Type 0 where
    pub server : Text
    pub cert_file : Text
    pub key_file : Text
    pub ca_file : Text

  -- The flags that were given; the environment and the config file hold an empty text for nothing.
  pub record Flags : Type 0 where
    pub server : Option Text
    pub cert_file : Option Text
    pub key_file : Option Text
    pub ca_file : Option Text

  unfoldable pub expand_all : NodeConfig → Option NodeConfig
  expand_all c = elim (expand_home c.cert_file) [
    | none ↦ none
    | some cert ↦ elim (expand_home c.key_file) [
      | none ↦ none
      | some key ↦ elim (expand_home c.ca_file) [
        | none ↦ none
        | some ca ↦
            some (record { server = c.server; cert_file = cert; key_file = key; ca_file = ca })
      ]
    ]
  ]

  -- The func that registerConnFlags returns, up to the parsing of the server's address; `none` for an
  -- error, `unparsed` a config file that cannot be read or parsed.
  unfoldable pub resolve : Flags → NodeConfig → Option NodeConfig → Option NodeConfig
  resolve flags env unparsed = elim home [
    | none ↦ none
    | some h ↦ elim unparsed [
      | none ↦ none
      | some file ↦
          let dir = join h (codes ".ggrok") in
          let c : NodeConfig = record {
            server = setting flags.server env.server file.server [];
            cert_file =
                setting flags.cert_file env.cert_file file.cert_file (join dir (codes "cert.pem"));
            key_file =
                setting flags.key_file env.key_file file.key_file (join dir (codes "key.pem"));
            ca_file = setting flags.ca_file env.ca_file file.ca_file (join dir (codes "ca.pem"));
          } in
          elim (expand_all c) [
            | none ↦ none
            | some c' ↦ if same_bytes c'.server [] then none else some c'
          ]
    ]
  ]

pub data SecretError : Type 0 where
  unreadable too_long is_empty not_created not_written : SecretError

abbrev pub max_secret_bytes : ℕ
max_secret_bytes = 4096

unfoldable pub non_empty : Text → Result SecretError Text
non_empty [] = err is_empty
non_empty (c ∷ cs) = ok (c ∷ cs)

-- `readSecretFile` of what the file or stdin holds, `none` where it cannot be read.
unfoldable pub read_secret_file : Option Text → Result SecretError Text
read_secret_file none = err unreadable
read_secret_file (some text) =
    let data_read = take (max_secret_bytes + 1) text in
    if ltb max_secret_bytes (length data_read)
    then err too_long
    else non_empty (trim_space data_read)

-- `writeSecretFile` to a path: what is there before and afterwards. `creates` is whether a fresh file
-- can be created, and `part` is what a write or close that fails leaves.
unfoldable pub write_secret_file :
    Bool → Option Text → Text → Option Text → Option SecretError × Option Text
write_secret_file creates part secret (some old) = (some not_created, some old)
write_secret_file false part secret none = (some not_created, none)
write_secret_file true none secret none = (none, some (secret ++ 10 ∷ []))
write_secret_file true (some bs) secret none = (some not_written, some bs)
