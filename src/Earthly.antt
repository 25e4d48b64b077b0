-- ===== src/Earthly.antt =====
-- earthly/earthfile/dependencies.go. Of the tree that the parser of earthly makes, the fields are kept that
-- the walk reads; of a statement exactly one field is set, as the parser sets them.
pub mod Mentions
pub mod Firsts
pub mod Walk
use catalyst_forge_libs.Common.{
  ℕ, zero, suc, ◌+◌, Bool, true, false, Option, none, some, List, [], ◌∷◌, ◌++◌, Str, codes, str_eq,
  has_prefix, trim_prefix, take, drop, is_empty, ltb, ◌==◌, ◌||◌, not, some_pass, if◌then◌else◌,
}
use catalyst_forge_libs.Oci.Path.{contains_str}

mutual
  pub data Statement : Type 0 where
    command : (name : Str) (args : List Str) → Statement
    if_statement : (if_body : Block) (else_ifs : Blocks) (else_body : MaybeBlock) → Statement
    for_statement with_statement wait_statement : (body : Block) → Statement
    try_statement : (try_body : Block) (catch_body finally_body : MaybeBlock) → Statement

  pub data Block : Type 0 where
    end : Block
    next : Statement → Block → Block

  pub data Blocks : Type 0 where
    no_more : Blocks
    also : Block → Blocks → Blocks

  pub data MaybeBlock : Type 0 where
    absent : MaybeBlock
    present : Block → MaybeBlock

pub record Recipe : Type 0 where
  pub name : Str
  pub recipe : Block

pub record Ast : Type 0 where
  pub base_recipe : Block
  pub targets : List Recipe

pub record Dependency : Type 0 where
  pub target : Str
  pub local : Bool
  pub source : Str

-- The variables of parseDependencies.
pub record Found : Type 0 where
  pub seen : List Str
  pub deps : List Dependency

pub record Earthfile : Type 0 where
  pub dependencies : List Dependency
  pub dependencies_loaded : Bool
  pub ast : Option Ast

unfoldable pub is_target_reference : Str → Bool
is_target_reference s = contains_str s (codes "+")

unfoldable pub is_local_reference : Str → Bool
unfolding contains_str has_prefix
is_local_reference target =
    if has_prefix target (codes "+")
    then true
    else if has_prefix target (codes "./") || has_prefix target (codes "../")
    then true
    else if contains_str target (codes ".com/")
        || contains_str target (codes ".org/")
        || contains_str target (codes ".io/")
    then false
    else contains_str target (codes "+")

-- strings.Index of one byte
unfoldable pub index_byte : ℕ → Str → Option ℕ
index_byte b [] = none
index_byte b (c ∷ s) =
    let later = index_byte b s in
    if c == b then some 0 else (elim later [ none ↦ none | some i ↦ some (suc i) ])

unfoldable pub is_target_with_artifact : Str → Bool
unfolding index_byte contains_str
is_target_with_artifact s = elim (index_byte b'+' s) [
  | none ↦ false
  | some plus ↦ contains_str (drop (suc plus) s) (codes "/")
]

unfoldable pub extract_target_from_artifact : Str → Str
unfolding index_byte
extract_target_from_artifact s = elim (index_byte b'+' s) [
  | none ↦ []
  | some plus ↦ elim (index_byte b'/' (drop plus s)) [
    | none ↦ []
    | some slash ↦ if ltb 0 slash then take (plus + slash) s else []
  ]
]

unfoldable pub dependency_key : Dependency → Str
dependency_key dep = dep.source ++ codes ":" ++ dep.target

unfoldable pub add_dep : Str → Str → Found → Found
unfolding is_local_reference dependency_key
add_dep target source f =
    if is_empty target
    then f
    else (let dep : Dependency = record {
      target = target;
      local = is_local_reference target;
      source = source;
    } in
        let key = dependency_key dep in
        if some_pass (str_eq key) f.seen
        then f
        else record { seen = f.seen ++ key ∷ []; deps = f.deps ++ dep ∷ [] })

unfoldable pub process_build_command : List Str → Str → Found → Found
process_build_command [] source f = f
process_build_command (arg ∷ args) source f = add_dep arg source f

unfoldable pub process_from_command : List Str → Str → Found → Found
process_from_command [] source f = f
process_from_command (arg ∷ args) source f =
    if is_target_reference arg then add_dep arg source f else f

abbrev pub from_flag : Str
from_flag = codes "--from="

unfoldable pub process_copy_command : List Str → Str → Found → Found
unfolding is_target_reference is_target_with_artifact extract_target_from_artifact
process_copy_command [] source f = f
process_copy_command (arg ∷ args) source f =
    let target = trim_prefix arg from_flag in
    let extracted = extract_target_from_artifact arg in
    process_copy_command args source (
      if has_prefix arg from_flag
      then (if is_target_reference target then add_dep target source f else f)
      else if is_target_with_artifact arg
      then (if is_empty extracted then f else add_dep extracted source f)
      else f)

unfoldable pub process_command : Str → List Str → Str → Found → Found
process_command name args source f =
    if str_eq name (codes "BUILD")
    then process_build_command args source f
    else if str_eq name (codes "FROM")
    then process_from_command args source f
    else if str_eq name (codes "COPY")
    then process_copy_command args source f
    else f

mutual
  pub process_statement : Statement → Str → Found → Found
  process_statement (command name args) source f = process_command name args source f
  process_statement (if_statement if_body else_ifs else_body) source f =
      process_present else_body source
        (process_else_ifs else_ifs source (process_block if_body source f))
  process_statement (for_statement body) source f = process_block body source f
  process_statement (with_statement body) source f = process_block body source f
  process_statement (wait_statement body) source f = process_block body source f
  process_statement (try_statement try_body catch_body finally_body) source f =
      process_present finally_body source
        (process_present catch_body source (process_block try_body source f))

  pub process_block : Block → Str → Found → Found
  process_block end source f = f
  process_block (next s b) source f = process_block b source (process_statement s source f)

  pub process_else_ifs : Blocks → Str → Found → Found
  process_else_ifs no_more source f = f
  process_else_ifs (also b bs) source f = process_else_ifs bs source (process_block b source f)

  pub process_present : MaybeBlock → Str → Found → Found
  process_present absent source f = f
  process_present (present b) source f = process_block b source f

unfoldable pub process_targets : List Recipe → Found → Found
process_targets [] f = f
process_targets (t ∷ ts) f = process_targets ts (process_block t.recipe t.name f)

unfoldable pub parse_dependencies : Option Ast → List Dependency
unfolding process_targets
parse_dependencies none = []
parse_dependencies (some a) =
    (process_targets a.targets
      (process_block a.base_recipe [] (record { seen = []; deps = [] }))).deps

unfoldable pub init_dependencies : Earthfile → Earthfile
unfolding parse_dependencies
init_dependencies ef =
    if ef.dependencies_loaded
    then ef
    else record ef { dependencies_loaded = true; dependencies = parse_dependencies ef.ast }

-- What the method answers, with the state of the file after it.
unfoldable pub dependencies : Option Earthfile → List Dependency × Option Earthfile
unfolding init_dependencies
dependencies none = ([], none)
dependencies (some ef) = let ef' = init_dependencies ef in (ef'.dependencies, some ef')
