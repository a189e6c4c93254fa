-- ===== src/Server/Main/Options.antt =====
-- The options of server_linux/server.cpp, against a definition that reads them all at once.
use project.Prelude.{
  ℕ, ◌≡◌, refl, Option, none, some, List, [], ◌∷◌, ◌==◌, ◌||◌, if◌then◌else◌, Bool-cases, inl, inr,
}
use project.Server.Main.{
  Opt, help, port_is, interval_is, unknown, Settings, Parsed, exits, runs, check_settings,
  parse_opts,
}

-- What the first option that ends the program has it return.
abbrev pub stop : List Opt → Option ℕ
stop [] = none
stop (help ∷ opts) = some 0
stop (unknown ∷ opts) = some 1
stop (port_is n ∷ opts) = stop opts
stop (interval_is n ∷ opts) = stop opts

abbrev pub ports : List Opt → List ℕ
ports [] = []
ports (port_is n ∷ opts) = n ∷ ports opts
ports (other ∷ opts) = ports opts

abbrev pub intervals : List Opt → List ℕ
intervals [] = []
intervals (interval_is n ∷ opts) = n ∷ intervals opts
intervals (other ∷ opts) = intervals opts

abbrev pub last_or : ℕ → List ℕ → ℕ
last_or d [] = d
last_or d (n ∷ ns) = last_or n ns

-- Both numbers were given a value other than the -1 that they start with, which is 4294967295 in 32
-- bits.
abbrev pub accepted : ℕ → ℕ → Parsed
accepted port_num interval =
    if port_num == 4294967295 || interval == 4294967295
    then exits 1
    else runs (record { port_num = port_num; interval = interval })

abbrev pub reference : Settings → List Opt → Parsed
reference s opts = elim (stop opts) [
  | some code ↦ exits code
  | none ↦ accepted (last_or s.port_num (ports opts)) (last_or s.interval (intervals opts))
]

check_settings-accepted : (s : Settings) → check_settings s ≡ accepted s.port_num s.interval
unfolding check_settings
check_settings-accepted s = elim (Bool-cases (s.port_num == 4294967295)) [
  | inl unset ↦ rw (unset, check_settings) refl
  | inr given ↦ elim (Bool-cases (s.interval == 4294967295)) [
    | inl unset ↦ rw (given, unset, check_settings) refl
    | inr also_given ↦ rw (given, also_given, check_settings) refl
  ]
]

-- The loop over the options, from any settings: the program ends at the first `-h`, with 0, or at
-- the first option that it does not know, with 1, whichever comes first; where there is neither, the
-- last port and the last interval count, and the program ends with 1 where one of them is -1, and
-- runs with both where neither is.
pub parse_opts-reference : (opts : List Opt) (s : Settings) → parse_opts opts s ≡ reference s opts
unfolding parse_opts
parse_opts-reference [] s = check_settings-accepted s
parse_opts-reference (help ∷ opts) s = refl
parse_opts-reference (unknown ∷ opts) s = refl
parse_opts-reference (port_is n ∷ opts) s = parse_opts-reference opts (record s { port_num = n })
parse_opts-reference (interval_is n ∷ opts) s =
    parse_opts-reference opts (record s { interval = n })
