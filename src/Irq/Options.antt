-- ===== src/Irq/Options.antt =====
-- irqbalance.c: the options of the command line and the environment. getopt_long and getenv are inputs:
-- the options in their order, with `optarg`, and the variables that are set. INCLUDE_BANSCRIPT, which no
-- file of the repository defines, is not defined.
pub mod Banned
use code_analyze.Prelude.{
  ℕ, ◌-◌, ◌%◌, ◌^◌, Bool, true, false, ◌||◌, Option, none, some, List, [], ◌∷◌, ltb, ◌==◌,
  if◌then◌else◌,
}
use code_analyze.Irq.Text.{Bytes, is_prefix, strtoul}
use code_analyze.Irq.Types.{State, HintPolicy, exact, subset, ignore}
use code_analyze.Irq.Db.{add_cl_banned_irq}
use code_analyze.Irq.Db.Policy.{value_exact, value_subset, value_ignore}
use code_analyze.Irq.Bitmap.{bitmap_parse}

-- `opt`, with `optarg`.
pub data CommandOption : Type 0 where
  unknown oneshot debug foreground : CommandOption
  hintpolicy powerthresh banirq banscript deepestcache policyscript pid : Bytes → CommandOption

-- The variables that the options set.
pub record Settings : Type 0 where
  pub state : State
  pub one_shot_mode : Bool
  pub debug_mode : Bool
  pub foreground_mode : Bool
  pub polscript : Option Bytes
  pub pidfile : Option Bytes

abbrev pub ulong_max : ℕ
ulong_max = 2 ^ 64 - 1

-- "off".
abbrev pub value_off : Bytes
value_off = 111 ∷ 102 ∷ 102 ∷ []

-- `!strncmp(optarg, word, strlen(optarg))`: the argument is the front of the word.
abbrev pub abbreviates : Bytes → Bytes → Bool
abbreviates optarg word = is_prefix optarg word

unfoldable pub set_hint : HintPolicy → Settings → Settings
set_hint h c = record c { state = record (c.state) { global_hint_policy = h } }

unfoldable pub parse_hint : Bytes → Settings → Option Settings
parse_hint optarg c =
    if abbreviates optarg value_exact
    then some (set_hint exact c)
    else if abbreviates optarg value_subset
    then some (set_hint subset c)
    else if abbreviates optarg value_ignore
    then some (set_hint ignore c)
    else none

unfoldable pub parse_cache : Bytes → Settings → Option Settings
parse_cache optarg c =
    if strtoul optarg == ulong_max || ltb (strtoul optarg) 1
    then none
    else some (record c { state = record (c.state) { deepest_cache = strtoul optarg } })

-- `(int)val`, of which the 32 bits are kept.
abbrev pub int_of : ℕ → ℕ
int_of val = val % 2 ^ 32

unfoldable pub parse_banirq : Bytes → Settings → Option Settings
parse_banirq optarg c =
    if strtoul optarg == ulong_max
    then none
    else some (record c { state = add_cl_banned_irq (int_of (strtoul optarg)) c.state })

unfoldable pub set_threshold : ℕ → Settings → Settings
set_threshold n c = record c { state = record (c.state) { power_thresh = n } }

unfoldable pub parse_threshold : Bytes → Settings → Option Settings
parse_threshold optarg c =
    if abbreviates optarg value_off
    then some (set_threshold ulong_max c)
    else if strtoul optarg == ulong_max
    then none
    else some (set_threshold (strtoul optarg) c)

-- The switch; `none` is exit(1).
unfoldable pub parse_option : CommandOption → Settings → Option Settings
parse_option unknown c = none
parse_option (banscript optarg) c = none
parse_option (deepestcache optarg) c = parse_cache optarg c
parse_option debug c = some (record c { debug_mode = true; foreground_mode = true })
parse_option foreground c = some (record c { foreground_mode = true })
parse_option (hintpolicy optarg) c = parse_hint optarg c
parse_option (banirq optarg) c = parse_banirq optarg c
parse_option (policyscript optarg) c = some (record c { polscript = some optarg })
parse_option (powerthresh optarg) c = parse_threshold optarg c
parse_option oneshot c = some (record c { one_shot_mode = true })
parse_option (pid optarg) c = some (record c { pidfile = some optarg })

unfoldable pub parse_command_line : List CommandOption → Settings → Option Settings
parse_command_line [] c = some c
parse_command_line (o ∷ os) c = elim (parse_option o c) [
  | none ↦ none
  | some d ↦ parse_command_line os d
]

-- The environment: IRQBALANCE_BANNED_CPUS, whether IRQBALANCE_ONESHOT and IRQBALANCE_DEBUG are set, and
-- whether numa_available answers that the machine has nodes.
pub record Environment : Type 0 where
  pub banned_cpus : Option Bytes
  pub oneshot : Bool
  pub debug : Bool
  pub numa_available : Bool

unfoldable pub ban_cpus : Option Bytes → State → State
ban_cpus none s = s
ban_cpus (some buf) s = record s { banned_cpus = (bitmap_parse buf).0 }

unfoldable pub read_environment : Environment → Settings → Settings
read_environment env c =
    let s = ban_cpus env.banned_cpus c.state in
    record c {
      state = record s { numa_avail = env.numa_available || s.numa_avail };
      one_shot_mode = env.oneshot || c.one_shot_mode;
      debug_mode = env.debug || c.debug_mode;
    }
