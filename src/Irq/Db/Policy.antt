-- ===== src/Irq/Db/Policy.antt =====
-- parse_user_policy_key and get_irq_user_policy of classify.c. A string is the list of its bytes.
use code_analyze.Prelude.{
  ℕ, ◌+◌, Bool, true, false, ◌&&◌, Option, none, some, List, [], ◌∷◌, ◌==◌, if◌then◌else◌,
}
use code_analyze.Irq.Text.{Bytes, tolower, strtoul, to_int}
use code_analyze.Irq.Types.{HintPolicy, ignore, subset, exact, State}
use code_analyze.Irq.Numa.{get_numa_node}

-- `none` where memset left -1; `numa_node_set` is whether it is 1.
pub record UserIrqPolicy : Type 0 where
  pub ban : Option Bool
  pub level : Option ℕ
  pub numa_node_set : Bool
  pub numa_node : Option ℕ
  pub hintpolicy : HintPolicy

-- Whether `strcasecmp` returns 0.
unfoldable pub strcasecmp : Bytes → Bytes → Bool
strcasecmp [] [] = true
strcasecmp (x ∷ xs) (y ∷ ys) = (tolower x == tolower y) && strcasecmp xs ys
strcasecmp _ _ = false

-- `strchr(buf, '=')`: what stands before and behind the first one.
unfoldable pub split_key : Bytes → Option (Bytes × Bytes)
split_key [] = none
split_key (c ∷ cs) =
    if c == 61
    then some ([], cs)
    else elim (split_key cs) [ none ↦ none | some (key, value) ↦ some (c ∷ key, value) ]

-- The value up to the first newline.
unfoldable pub cut_line : Bytes → Bytes
cut_line [] = []
cut_line (c ∷ cs) = if c == 10 then [] else c ∷ cut_line cs

abbrev pub key_ban : Bytes
key_ban = 98 ∷ 97 ∷ 110 ∷ []

abbrev pub key_balance_level : Bytes
key_balance_level = 98 ∷ 97 ∷ 108 ∷ 97 ∷ 110 ∷ 99 ∷ 101 ∷ 95 ∷ 108 ∷ 101 ∷ 118 ∷ 101 ∷ 108 ∷ []

abbrev pub key_numa_node : Bytes
key_numa_node = 110 ∷ 117 ∷ 109 ∷ 97 ∷ 95 ∷ 110 ∷ 111 ∷ 100 ∷ 101 ∷ []

abbrev pub key_hintpolicy : Bytes
key_hintpolicy = 104 ∷ 105 ∷ 110 ∷ 116 ∷ 112 ∷ 111 ∷ 108 ∷ 105 ∷ 99 ∷ 121 ∷ []

abbrev pub value_false : Bytes
value_false = 102 ∷ 97 ∷ 108 ∷ 115 ∷ 101 ∷ []

abbrev pub value_true : Bytes
value_true = 116 ∷ 114 ∷ 117 ∷ 101 ∷ []

abbrev pub value_exact : Bytes
value_exact = 101 ∷ 120 ∷ 97 ∷ 99 ∷ 116 ∷ []

abbrev pub value_subset : Bytes
value_subset = 115 ∷ 117 ∷ 98 ∷ 115 ∷ 101 ∷ 116 ∷ []

abbrev pub value_ignore : Bytes
value_ignore = 105 ∷ 103 ∷ 110 ∷ 111 ∷ 114 ∷ 101 ∷ []

-- "none", "package", "cache" and "core".
abbrev pub levelvals : List Bytes
levelvals =
    (110 ∷ 111 ∷ 110 ∷ 101 ∷ [])
    ∷ (112 ∷ 97 ∷ 99 ∷ 107 ∷ 97 ∷ 103 ∷ 101 ∷ [])
    ∷ (99 ∷ 97 ∷ 99 ∷ 104 ∷ 101 ∷ [])
    ∷ (99 ∷ 111 ∷ 114 ∷ 101 ∷ [])
    ∷ []

-- The loop over `levelvals`.
unfoldable pub find_level : Bytes → List Bytes → ℕ → Option ℕ
find_level value [] idx = none
find_level value (l ∷ ls) idx =
    if strcasecmp l value then some idx else find_level value ls (idx + 1)

unfoldable pub set_ban : Bytes → UserIrqPolicy → UserIrqPolicy
set_ban value pol =
    if strcasecmp value_false value
    then record pol { ban = some false }
    else if strcasecmp value_true value
    then record pol { ban = some true }
    else pol

unfoldable pub set_level : Bytes → UserIrqPolicy → UserIrqPolicy
set_level value pol = elim (find_level value levelvals 0) [
  | none ↦ pol
  | some idx ↦ record pol { level = some idx }
]

unfoldable pub set_numa_node : State → Bytes → UserIrqPolicy → UserIrqPolicy
set_numa_node s value pol =
    let idx = to_int (strtoul value) in
    elim (get_numa_node idx s) [
      | none ↦ pol
      | some o ↦ record pol { numa_node = idx; numa_node_set = true }
    ]

unfoldable pub set_hintpolicy : Bytes → UserIrqPolicy → UserIrqPolicy
set_hintpolicy value pol =
    if strcasecmp value_exact value
    then record pol { hintpolicy = exact }
    else if strcasecmp value_subset value
    then record pol { hintpolicy = subset }
    else if strcasecmp value_ignore value
    then record pol { hintpolicy = ignore }
    else pol

unfoldable pub parse_user_policy_key : State → Bytes → UserIrqPolicy → UserIrqPolicy
parse_user_policy_key s buf pol = elim (split_key buf) [
  | none ↦ pol
  | some (key, rest) ↦
      let value = cut_line rest in
      if strcasecmp key_ban key
      then set_ban value pol
      else if strcasecmp key_balance_level key
      then set_level value pol
      else if strcasecmp key_numa_node key
      then set_numa_node s value pol
      else if strcasecmp key_hintpolicy key
      then set_hintpolicy value pol
      else pol
]

-- `memset(pol, -1, ...)`, and the hint policy of the command line.
abbrev pub no_policy : State → UserIrqPolicy
no_policy s = record {
  ban = none;
  level = none;
  numa_node_set = false;
  numa_node = none;
  hintpolicy = s.global_hint_policy;
}

unfoldable pub parse_lines : State → List Bytes → UserIrqPolicy → UserIrqPolicy
parse_lines s [] pol = pol
parse_lines s (line ∷ lines) pol = parse_lines s lines (parse_user_policy_key s line pol)
