-- ===== src/Earthly/Mentions.antt =====
-- What an Earthfile mentions, beside the walk of earthly/earthfile/dependencies.go.
use catalyst_forge_libs.Common.{
  Bool, List, [], ◌∷◌, ◌++◌, Str, codes, str_eq, has_prefix, trim_prefix, is_empty, not, keep_if,
  if◌then◌else◌,
}
use catalyst_forge_libs.Earthly.{
  Statement, command, if_statement, for_statement, with_statement, wait_statement, try_statement,
  Block, end, next, Blocks, no_more, also, MaybeBlock, absent, present, Recipe, Ast, Dependency,
  is_target_reference, is_local_reference, is_target_with_artifact, extract_target_from_artifact,
  dependency_key, from_flag,
}

-- The dependency on a target, if it has a name.
abbrev pub mention : Str → Str → List Dependency
mention source target =
    if is_empty target
    then []
    else record { target = target; local = is_local_reference target; source = source } ∷ []

abbrev pub copy_mention : Str → Str → List Dependency
copy_mention source arg =
    if has_prefix arg from_flag
    then (if is_target_reference (trim_prefix arg from_flag)
        then mention source (trim_prefix arg from_flag)
        else [])
    else if is_target_with_artifact arg
    then mention source (extract_target_from_artifact arg)
    else []

abbrev pub copy_mentions : Str → List Str → List Dependency
copy_mentions source [] = []
copy_mentions source (arg ∷ args) = copy_mention source arg ++ copy_mentions source args

abbrev pub build_mentions : Str → List Str → List Dependency
build_mentions source [] = []
build_mentions source (arg ∷ args) = mention source arg

abbrev pub from_mentions : Str → List Str → List Dependency
from_mentions source [] = []
from_mentions source (arg ∷ args) = if is_target_reference arg then mention source arg else []

abbrev pub command_mentions : Str → Str → List Str → List Dependency
command_mentions source name args =
    if str_eq name (codes "BUILD")
    then build_mentions source args
    else if str_eq name (codes "FROM")
    then from_mentions source args
    else if str_eq name (codes "COPY")
    then copy_mentions source args
    else []

-- What the commands mention, in the order of the file, whatever encloses them.
unfoldable mutual
  pub statement_mentions : Str → Statement → List Dependency
  statement_mentions source (command name args) = command_mentions source name args
  statement_mentions source (if_statement b bs o) =
      block_mentions source b ++ (blocks_mentions source bs ++ maybe_mentions source o)
  statement_mentions source (for_statement b) = block_mentions source b
  statement_mentions source (with_statement b) = block_mentions source b
  statement_mentions source (wait_statement b) = block_mentions source b
  statement_mentions source (try_statement b c d) =
      block_mentions source b ++ (maybe_mentions source c ++ maybe_mentions source d)

  pub block_mentions : Str → Block → List Dependency
  block_mentions source end = []
  block_mentions source (next s b) = statement_mentions source s ++ block_mentions source b

  pub blocks_mentions : Str → Blocks → List Dependency
  blocks_mentions source no_more = []
  blocks_mentions source (also b bs) = block_mentions source b ++ blocks_mentions source bs

  pub maybe_mentions : Str → MaybeBlock → List Dependency
  maybe_mentions source absent = []
  maybe_mentions source (present b) = block_mentions source b

abbrev pub target_mentions : List Recipe → List Dependency
target_mentions [] = []
target_mentions (t ∷ ts) = block_mentions t.name t.recipe ++ target_mentions ts

abbrev pub file_mentions : Ast → List Dependency
file_mentions a = block_mentions [] a.base_recipe ++ target_mentions a.targets

abbrev pub other_key : Dependency → Dependency → Bool
other_key d e = not (str_eq (dependency_key e) (dependency_key d))

-- The first of those with the same key.
abbrev pub firsts : List Dependency → List Dependency
firsts [] = []
firsts (d ∷ ds) = d ∷ keep_if (other_key d) (firsts ds)
